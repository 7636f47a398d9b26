-- ===== src/Review/Paths.antt =====
-- The paths of requests and the checks of what they carry: the parse… functions, validateAnchor and
-- validateThreadRequest of internal/review/server.go.
use planmaxx.Base.{
  ◌-◌, ◌&&◌, ◌||◌, not, Option, none, some, List, [], ◌∷◌, ◌==◌, eqb, if◌then◌else◌, length,
  get_elem?,
}
use planmaxx.Base.Int.{ℤ, pos, ltb_ℤ, leb_ℤ, int_comparable}
use planmaxx.Base.Text.{Text, codes, text_comparable, split_lines, add_to_first, cut_prefix}
use planmaxx.Session.Types.{Anchor}
use planmaxx.Session.Anchors.{utf16_length}
use planmaxx.Session.Locate.{to_nat}

-- strings.Split(s, "/")
unfoldable pub split_slashes : Text → List Text
split_slashes [] = [] ∷ []
split_slashes (c ∷ s) =
    if eqb c b'/' then [] ∷ split_slashes s else add_to_first c (split_slashes s)

-- strings.TrimPrefix
abbrev pub trim_prefix : Text → Text → Text
trim_prefix s prefix = elim (cut_prefix s prefix) [ none ↦ s | some rest ↦ rest ]

two_parts : List Text → Option (Text × Text)
two_parts [] = none
two_parts (a ∷ []) = none
two_parts (a ∷ b ∷ []) = if a == [] || b == [] then none else some (a, b)
two_parts (a ∷ b ∷ c ∷ rest) = none

-- parseThreadActionPath, parseSideAnswerActionPath and parseRevisionProposalActionPath, which
-- differ in the prefix only.
unfoldable pub parse_action_path : Text → Text → Option (Text × Text)
unfolding split_slashes two_parts
parse_action_path prefix path = two_parts (split_slashes (trim_prefix path prefix))

abbrev pub parse_thread_action_path : Text → Option (Text × Text)
unfolding parse_action_path
parse_thread_action_path = parse_action_path (codes "/api/threads/")

abbrev pub parse_side_answer_action_path : Text → Option (Text × Text)
unfolding parse_action_path
parse_side_answer_action_path = parse_action_path (codes "/api/side-answers/")

abbrev pub parse_revision_proposal_action_path : Text → Option (Text × Text)
unfolding parse_action_path
parse_revision_proposal_action_path = parse_action_path (codes "/api/revisions/proposals/")

restore_parts : List Text → Option Text
restore_parts [] = none
restore_parts (a ∷ []) = none
restore_parts (a ∷ b ∷ []) = if not (a == []) && b == codes "restore" then some a else none
restore_parts (a ∷ b ∷ c ∷ rest) = none

-- parseRevisionRestorePath
unfoldable pub parse_revision_restore_path : Text → Option Text
unfolding split_slashes restore_parts
parse_revision_restore_path path =
    restore_parts (split_slashes (trim_prefix path (codes "/api/revisions/")))

line_units : List Text → ℤ → ℤ
line_units lines n = elim (get_elem? lines (to_nat n - 1)) [
  | none ↦ pos 0
  | some line ↦ pos (utf16_length line)
]

-- validateAnchor: the error, if there is one.
unfoldable pub validate_anchor : Anchor → Text → Option Text
unfolding line_units
validate_anchor a plan =
    let lines = split_lines plan in
    let count = pos (length lines) in
    if leb_ℤ a.start_line (pos 0) || leb_ℤ a.end_line (pos 0)
    then some (codes "thread anchor lines must be positive")
    else if ltb_ℤ a.end_line a.start_line
    then some (codes "thread anchor end line must be after start line")
    else if ltb_ℤ count a.start_line || ltb_ℤ count a.end_line
    then some (codes "thread anchor is outside plan")
    else if a.start_char == pos 0 && a.end_char == pos 0
    then none
    else if ltb_ℤ a.start_char (pos 0) || ltb_ℤ a.end_char (pos 0)
    then some (codes "thread anchor character offsets must be non-negative")
    else if ltb_ℤ (line_units lines a.start_line) a.start_char
        || ltb_ℤ (line_units lines a.end_line) a.end_char
    then some (codes "thread anchor character offset is outside plan")
    else if a.start_line == a.end_line && leb_ℤ a.end_char a.start_char
    then some (codes "thread anchor end character must be after start character")
    else none

-- createThreadRequest
pub record CreateThreadRequest : Type 0 where
  pub anchor : Anchor
  pub body : Text
  pub selected_text : Text
  pub intent : Text

unfoldable pub validate_thread_request : CreateThreadRequest → Text → Option Text
unfolding validate_anchor
validate_thread_request r plan =
    if r.body == [] then some (codes "thread body is required") else validate_anchor r.anchor plan
