-- ===== src/Session/Locate.antt =====
-- Anchors and the text that they select: textForAnchor, uniqueAnchorForText and their helpers in
-- internal/session/session.go, validateSessionAnchor in transitions.go. A byte slice s[a:b] is
-- `slice s a b`; where Go would stop on an offset behind the end, the model cuts at the end.
pub mod Unique
pub mod Sound
use planmaxx.Base.{
  ℕ, zero, suc, ◌+◌, ◌-◌, Bool, false, ◌&&◌, ◌||◌, not, Option, none, some, List, [], ◌∷◌, ◌++◌,
  ◌==◌, if◌then◌else◌, length, get_elem?, take, drop, last?, ltb, eqb,
}
use planmaxx.Base.Int.{ℤ, pos, negsuc, ltb_ℤ, leb_ℤ, int_comparable}
use planmaxx.Base.Text.{
  Text, codes, text_comparable, index, split_lines, join_lines, count_newlines, after_last_newline,
}
use planmaxx.Base.Utf8.{Rune, runes, units}
use planmaxx.Session.Types.{Anchor, Thread}
use planmaxx.Session.Anchors.{has_character_range, utf16_length}

-- The value of an int that is known to be at least 0.
abbrev pub to_nat : ℤ → ℕ
to_nat (pos n) = n
to_nat (negsuc n) = 0

abbrev pub slice : {A : Type 0} → List A → ℕ → ℕ → List A
slice xs a b = take (b - a) (drop a xs)

-- len(string(r))
encoded_width : ℕ → ℕ
encoded_width r =
    if ltb r 0x80 then 1 else if ltb r 0x800 then 2 else if ltb r 0x10000 then 3 else 4

-- The loop of utf16ByteOffset: the byte index, the units so far, the offset and the runes left.
offset_loop : ℕ → ℕ → ℕ → List Rune → Option ℕ
unfolding encoded_width
offset_loop i seen offset [] = none
offset_loop i seen offset (r ∷ rs) =
    let seen' = seen + units r in
    let rest = offset_loop (i + r.width) seen' offset rs in
    if eqb seen offset
    then some i
    else if eqb seen' offset
    then some (i + encoded_width r.value)
    else if ltb offset seen'
    then none
    else rest

-- utf16ByteOffset; a positive offset at the end of the loop is never equal to the units seen,
-- since that was tested behind the last rune.
unfoldable pub utf16_byte_offset : Text → ℤ → Option ℕ
unfolding offset_loop
utf16_byte_offset text (negsuc n) = none
utf16_byte_offset text (pos zero) = some 0
utf16_byte_offset text (pos (suc n)) = offset_loop 0 0 (suc n) (runes text)

line_at : List Text → ℕ → Text
line_at lines i = elim (get_elem? lines i) [ none ↦ [] | some l ↦ l ]

-- anchor.StartLine < 1 || anchor.EndLine < anchor.StartLine || anchor.EndLine > len(lines)
abbrev pub outside_lines : Anchor → List Text → Bool
outside_lines a lines =
    ltb_ℤ a.start_line (pos 1)
    || ltb_ℤ a.end_line a.start_line
    || ltb_ℤ (pos (length lines)) a.end_line

-- lines[a.StartLine-1 : a.EndLine], joined
abbrev pub full_lines : List Text → Anchor → Text
full_lines lines a = join_lines (slice lines (to_nat a.start_line - 1) (to_nat a.end_line))

-- The end of textForAnchor, from the two byte offsets.
select_between : List Text → Anchor → Option ℕ → Option ℕ → Text
unfolding line_at
select_between lines a none end = []
select_between lines a (some start) none = []
select_between lines a (some start) (some end) =
    let start_line = line_at lines (to_nat a.start_line - 1) in
    let end_line = line_at lines (to_nat a.end_line - 1) in
    if a.start_line == a.end_line
    then if ltb end start then [] else slice start_line start end
    else join_lines (
        (drop start start_line ∷ slice lines (to_nat a.start_line) (to_nat a.end_line - 1))
        ++ take end end_line ∷ [])

unfoldable pub text_for_anchor : Text → Anchor → Text
unfolding select_between
text_for_anchor plan a =
    let lines = split_lines plan in
    if outside_lines a lines
    then []
    else if a.start_char == pos 0 && a.end_char == pos 0
    then full_lines lines a
    else select_between lines a
        (utf16_byte_offset (line_at lines (to_nat a.start_line - 1)) a.start_char)
        (utf16_byte_offset (line_at lines (to_nat a.end_line - 1)) a.end_char)

unfoldable pub anchor_matches_text : Text → Anchor → Text → Bool
unfolding has_character_range
anchor_matches_text plan a selected =
    if has_character_range a
    then text_for_anchor plan a == selected
    else let lines = split_lines plan in
      if outside_lines a lines then false else full_lines lines a == selected

-- uniqueSubstringIndex: none is -1.
unfoldable pub unique_substring_index : Text → Text → Option ℕ
unique_substring_index text selected = elim (index text selected) [
  | none ↦ none
  | some first ↦ elim (index (drop (suc first) text) selected) [ none ↦ some first | some _ ↦ none ]
]

-- The loop of uniqueLineSequenceIndex: the start lines that are left, the current start and
-- matchAt. It stops with none on a second match.
pub match_loop : ℕ → ℕ → List Text → ℕ → Text → Option ℕ → Option ℕ
match_loop zero start lines n selected match_at = match_at
match_loop (suc rounds) start lines n selected match_at =
    let next = match_loop rounds (suc start) lines n selected in
    let others = next match_at in
    let first = next (some start) in
    if not (join_lines (slice lines start (start + n)) == selected)
    then others
    else elim match_at [ none ↦ first | some _ ↦ none ]

-- uniqueLineSequenceIndex: the byte offset of the only run of lines that spells the selection.
unfoldable pub unique_line_sequence_index : Text → Text → Option ℕ
unfolding match_loop
unique_line_sequence_index plan selected =
    let lines = split_lines plan in
    let n = length (split_lines selected) in
    elim (match_loop (suc (length lines) - n) 0 lines n selected none) [
      | none ↦ none
      | some zero ↦ some 0
      | some (suc at) ↦ some (length (join_lines (take (suc at) lines)) + 1)
    ]

-- The anchor of a selection that stands at a byte offset.
anchor_at : Text → Text → Anchor → ℕ → Anchor
anchor_at plan selected original i =
    let before = take i plan in
    let start_line = count_newlines before + 1 in
    let start_char = utf16_length (after_last_newline before) in
    let lines = split_lines selected in
    if original.start_char == pos 0 && original.end_char == pos 0
    then record {
      start_line = pos start_line;
      start_char = pos 0;
      end_line = pos (start_line + count_newlines selected);
      end_char = pos 0;
    }
    else if eqb (length lines) 1
    then record {
      start_line = pos start_line;
      start_char = pos start_char;
      end_line = pos start_line;
      end_char = pos (start_char + utf16_length selected);
    }
    else record {
      start_line = pos start_line;
      start_char = pos start_char;
      end_line = pos (start_line + length lines - 1);
      end_char = pos (utf16_length (elim (last? lines) [ none ↦ [] | some l ↦ l ]));
    }

unfoldable pub unique_anchor_for_text : Text → Text → Anchor → Option Anchor
unfolding anchor_at
unique_anchor_for_text plan selected original =
    let found =
      if original.start_char == pos 0 && original.end_char == pos 0
      then unique_line_sequence_index plan selected
      else unique_substring_index plan selected in
    if selected == []
    then none
    else elim found [ none ↦ none | some i ↦ some (anchor_at plan selected original i) ]

-- reanchorThreadInPlan
unfoldable pub reanchor_thread_in_plan : Thread → Text → Text → Option Anchor
reanchor_thread_in_plan t previous_plan proposed_plan =
    let selected =
      if t.selected_text == [] then text_for_anchor previous_plan t.anchor else t.selected_text in
    if selected == [] then none else unique_anchor_for_text proposed_plan selected t.anchor

-- validateSessionAnchor: none is nil, else the error's text. splitPlanLines cuts at each newline
-- too, and makes one empty line of an empty plan.
unfoldable pub validate_session_anchor : Anchor → Text → Option Text
unfolding has_character_range line_at
validate_session_anchor a plan =
    let lines = split_lines plan in
    let first = line_at lines (to_nat a.start_line - 1) in
    let last = line_at lines (to_nat a.end_line - 1) in
    if ltb_ℤ a.start_line (pos 1) || ltb_ℤ a.end_line a.start_line
    then some (codes "invalid line range")
    else if ltb_ℤ (pos (length lines)) a.end_line
    then some (codes "line range is outside plan")
    else if not (has_character_range a)
    then none
    else if ltb_ℤ a.start_char (pos 0) || ltb_ℤ a.end_char (pos 0)
    then some (codes "negative character offset")
    else elim (utf16_byte_offset first a.start_char) [
      | none ↦ some (codes "start character is outside line")
      | some _ ↦ elim (utf16_byte_offset last a.end_char) [
        | none ↦ some (codes "end character is outside line")
        | some _ ↦
            if a.start_line == a.end_line && leb_ℤ a.end_char a.start_char
            then some (codes "end character must follow start character")
            else none
      ]
    ]
