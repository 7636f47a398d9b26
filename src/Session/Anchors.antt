-- ===== src/Session/Anchors.antt =====
-- Line geometry of anchors: the pure functions on Anchor and AppliedHunk of
-- internal/session/session.go.
use planmaxx.Base.{
  ℕ, Bool, true, false, ◌&&◌, ◌||◌, not, Option, none, some, List, [], ◌∷◌, ◌==◌, if◌then◌else◌,
  length, last?, ltb, eqb,
}
use planmaxx.Base.Int.{ℤ, pos, ◌+ℤ◌, ◌-ℤ◌, ltb_ℤ, min, max, int_comparable}
use planmaxx.Base.Text.{Text, text_comparable, split_lines}
use planmaxx.Base.Utf8.{runes, sum_units}
use planmaxx.Session.Types.{Anchor, AppliedHunk, SectionProposal, Thread, status_resolved}

unfoldable pub has_character_range : Anchor → Bool
has_character_range a = not (a.start_char == pos 0) || not (a.end_char == pos 0)

unfoldable pub line_anchor : Anchor → Anchor
line_anchor a = record {
  start_line = a.start_line;
  start_char = pos 0;
  end_line = a.end_line;
  end_char = pos 0;
}

unfoldable pub anchors_overlap : Anchor → Anchor → Bool
unfolding has_character_range
anchors_overlap l r =
    if ltb_ℤ l.end_line r.start_line || ltb_ℤ r.end_line l.start_line
    then false
    else if not (has_character_range l)
        || not (has_character_range r)
        || not (l.start_line == l.end_line)
        || not (r.start_line == r.end_line)
    then true
    else ltb_ℤ l.start_char r.end_char && ltb_ℤ r.start_char l.end_char

unfoldable pub line_count : Text → ℕ
line_count text = if text == [] then 0 else length (split_lines text)

unfoldable pub utf16_length : Text → ℕ
utf16_length text = sum_units (runes text)

-- clampedLineAnchor
unfoldable pub clamped_line_anchor : Anchor → Text → Anchor
clamped_line_anchor a plan =
    let max_line = max (pos 1) (pos (line_count plan)) in
    let start = min (max a.start_line (pos 1)) max_line in
    let end = min (max a.end_line start) max_line in
    record { start_line = start; start_char = pos 0; end_line = end; end_char = pos 0 }

unfoldable pub shift_anchor : Anchor → ℤ → Anchor
shift_anchor a delta =
    let start = a.start_line +ℤ delta in
    let end = a.end_line +ℤ delta in
    let start' = if ltb_ℤ start (pos 1) then pos 1 else start in
    let end' = if ltb_ℤ end start' then start' else end in
    record a { start_line = start'; end_line = end' }

-- The loop of positionAfterHunks over its variables shift and resultChar.
unfoldable pub position_loop : ℤ → ℤ → ℤ → ℤ → List AppliedHunk → ℤ × ℤ
unfolding has_character_range
position_loop line char shift result_char [] = (line +ℤ shift, result_char)
position_loop line char shift result_char (h ∷ hs) =
    let passed = position_loop line char (shift +ℤ h.line_delta) result_char hs in
    let before = position_loop line char shift result_char hs in
    let behind =
      position_loop line char (shift +ℤ h.line_delta)
        (h.result.end_char +ℤ char -ℤ h.anchor.end_char) hs in
    if ltb_ℤ h.anchor.end_line line
    then passed
    else if not (line == h.anchor.end_line)
        || not (has_character_range h.anchor)
        || ltb_ℤ char h.anchor.end_char
    then before
    else behind

unfoldable pub position_after_hunks : ℤ → ℤ → List AppliedHunk → ℤ × ℤ
unfolding position_loop
position_after_hunks line char = position_loop line char (pos 0) char

unfoldable pub reanchor_after_hunks : Anchor → List AppliedHunk → Anchor
unfolding position_after_hunks
reanchor_after_hunks a hunks =
    let (start_line, start_char) = position_after_hunks a.start_line a.start_char hunks in
    let (end_line, end_char) = position_after_hunks a.end_line a.end_char hunks in
    record {
      start_line = start_line;
      start_char = start_char;
      end_line = end_line;
      end_char = end_char;
    }

-- The first hunk that overlaps an anchor.
unfoldable pub find_overlap : Anchor → List AppliedHunk → Option AppliedHunk
find_overlap a [] = none
find_overlap a (h ∷ hs) = if anchors_overlap a h.anchor then some h else find_overlap a hs

unfoldable pub replacement_anchor_for_thread : Anchor → SectionProposal → Anchor
unfolding find_overlap
replacement_anchor_for_thread a p = elim (find_overlap a p.applied_hunks) [
  | some h ↦ h.result
  | none ↦
      if ltb 0 (length p.applied_hunks)
      then reanchor_after_hunks a p.applied_hunks
      else p.replacement_anchor
]

last_line : List Text → Text
last_line ls = elim (last? ls) [ none ↦ [] | some l ↦ l ]

unfoldable pub replacement_anchor_from_section : Anchor → Text → Anchor
unfolding last_line
replacement_anchor_from_section a section =
    let lines = split_lines section in
    let end_line = a.start_line +ℤ pos (length lines) -ℤ pos 1 in
    if a.start_char == pos 0 && a.end_char == pos 0
    then record {
      start_line = a.start_line;
      start_char = pos 0;
      end_line = end_line;
      end_char = pos 0;
    }
    else if eqb (length lines) 1
    then record {
      start_line = a.start_line;
      start_char = a.start_char;
      end_line = a.start_line;
      end_char = a.start_char +ℤ pos (utf16_length (last_line lines));
    }
    else record {
      start_line = a.start_line;
      start_char = a.start_char;
      end_line = end_line;
      end_char = pos (utf16_length (last_line lines));
    }

-- resolveThreadAfterProposal
unfoldable pub resolve_thread_after_proposal : Anchor → Thread → Thread
unfolding line_anchor
resolve_thread_after_proposal replacement t = record t {
  status = status_resolved;
  selected_text = [];
  anchor = if ltb_ℤ (pos 0) replacement.start_line then line_anchor replacement else t.anchor;
}
