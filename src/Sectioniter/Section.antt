-- ===== src/Sectioniter/Section.antt =====
-- SectionForAnchor: internal/sectioniter/sectioniter.go. An error is the left summand.
use planmaxx.Base.{
  ℕ, ◌+◌, ◌-◌, ◌&&◌, ◌||◌, not, Option, none, some, List, [], ◌∷◌, ◌++◌, ◌==◌, if◌then◌else◌, ◌⊎◌,
  inl, inr, length, get_elem?, take, drop, ltb, eqb,
}
use planmaxx.Base.Int.{ℤ, pos, ltb_ℤ, leb_ℤ, int_comparable}
use planmaxx.Base.Text.{Text, codes, split_lines, join_lines}
use planmaxx.Base.Utf8.{Rune, runes, units}
use planmaxx.Session.Types.{Anchor}
use planmaxx.Session.Anchors.{utf16_length, has_character_range}
use planmaxx.Session.Locate.{to_nat, slice}

abbrev pub line_at : List Text → ℤ → Text
line_at lines n = elim (get_elem? lines (to_nat n - 1)) [ none ↦ [] | some line ↦ line ]

-- validateAnchor: the error, if there is one.
unfoldable pub validate_section_anchor : List Text → Anchor → Option Text
validate_section_anchor lines a =
    if leb_ℤ a.start_line (pos 0)
      || ltb_ℤ a.end_line a.start_line
      || ltb_ℤ (pos (length lines)) a.end_line
    then some (codes "anchor is outside plan")
    else if not (has_character_range a)
    then none
    else if ltb_ℤ a.start_char (pos 0) || ltb_ℤ a.end_char (pos 0)
    then some (codes "anchor character offsets must be non-negative")
    else if ltb_ℤ (pos (utf16_length (line_at lines a.start_line))) a.start_char
        || ltb_ℤ (pos (utf16_length (line_at lines a.end_line))) a.end_char
    then some (codes "anchor character offset is outside plan")
    else if a.start_line == a.end_line && ltb_ℤ a.end_char a.start_char
    then some (codes "anchor end character is before start character")
    else none

-- The loop of utf16OffsetToByteIndex over the runes: `index` bytes and `seen` units are passed.
unfoldable pub byte_index_loop : ℕ → ℕ → ℕ → List Rune → Text ⊎ ℕ
byte_index_loop offset index seen [] =
    if eqb seen offset then inr index else inl (codes "utf16 offset is outside string")
byte_index_loop offset index seen (r ∷ rs) =
    let rest = byte_index_loop offset (index + r.width) (seen + units r) rs in
    if eqb seen offset
    then inr index
    else if ltb offset (seen + units r)
    then inl (codes "utf16 offset splits a surrogate pair")
    else rest

unfoldable pub utf16_offset_to_byte_index : Text → ℤ → Text ⊎ ℕ
unfolding byte_index_loop
utf16_offset_to_byte_index s offset =
    if ltb_ℤ offset (pos 0)
    then inl (codes "utf16 offset must be non-negative")
    else byte_index_loop (to_nat offset) 0 0 (runes s)

infixl 5 ◌>>=◌
abbrev pub ◌>>=◌ : {A B : Type 0} → Text ⊎ A → (A → Text ⊎ B) → Text ⊎ B
inl e >>= f = inl e
inr a >>= f = f a

-- `line[start:end]`; start is at most end, since validateAnchor accepted the anchor.
section_in_line : Text → Anchor → Text ⊎ Text
section_in_line line a = do
  start ← utf16_offset_to_byte_index line a.start_char
  end ← utf16_offset_to_byte_index line a.end_char
  inr (take (end - start) (drop start line))

section_of_lines : List Text → Anchor → Text ⊎ Text
section_of_lines lines a = do
  start ← utf16_offset_to_byte_index (line_at lines a.start_line) a.start_char
  end ← utf16_offset_to_byte_index (line_at lines a.end_line) a.end_char
  inr (
      join_lines (
        drop start (line_at lines a.start_line)
          ∷ slice lines (to_nat a.start_line) (to_nat a.end_line - 1)
        ++ take end (line_at lines a.end_line) ∷ []))

unfoldable pub section_for_anchor : Text → Anchor → Text ⊎ Text
unfolding validate_section_anchor utf16_offset_to_byte_index section_in_line section_of_lines
section_for_anchor plan a =
    let lines = split_lines plan in
    elim (validate_section_anchor lines a) [
      | some e ↦ inl e
      | none ↦
          if not (has_character_range a)
          then inr (join_lines (slice lines (to_nat a.start_line - 1) (to_nat a.end_line)))
          else if a.start_line == a.end_line
          then section_in_line (line_at lines a.start_line) a
          else section_of_lines lines a
    ]
