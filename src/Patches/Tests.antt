-- ===== src/Patches/Tests.antt =====
-- Runs of Resolve and Apply, after internal/patches/hunks_test.go, and instances of the theorems.
use mathlib.Core.List.{Perm}
use planmaxx.Base.{◌≡◌, ◌↔◌, ◌≢◌, refl, inr, List, [], ◌∷◌, ◌++◌, length, map}
use planmaxx.Base.Int.{pos}
use planmaxx.Base.Text.{
  Text, codes, newline, text_eqb, index, after_last_newline, count_newlines, cut_prefix, has_prefix,
}
use planmaxx.Base.Utf8.{runes, sum_units, units}
use planmaxx.Session.Anchors.{utf16_length}
use planmaxx.Base.Find.{Stands}
use planmaxx.Patches.Hunks.{
  Hunk, Resolved, candidate, resolve_hunk, choose, search_hunk, scan, context_matches, position_at,
  after_matches, before_matches, newline_at, newline_before,
}
use planmaxx.Patches.Resolve.{
  resolve, apply, apply_hunk, resolve_each, adjust_hunks, extend_deletion,
  full_line_deletion_offsets, trim_terminal_deletion_delimiter, group_start, move_start,
  crlf_before, delimiter_end, delimiter_start, is_full_line_deletion, overlaps_previous,
}
use planmaxx.Patches.Unique.{IsOnlyPlace, resolve_hunk_iff}
use planmaxx.Patches.Order.{Ordered, hunk_of}
use planmaxx.Patches.Splice.{splice}
use planmaxx.Patches.Sound.{resolve-apply}

-- Three lines.
abbrev base : Text
base = codes "a" ++ newline ∷ codes "b" ++ newline ∷ codes "c"

abbrev hunk : Text → Text → Text → Hunk
hunk target expected content = record {
  before = [];
  expected = expected;
  after = [];
  content = content;
  target = target;
  start_hint = pos 0;
  end_hint = pos 0;
}

-- The two last lines go.
abbrev deletions : List Hunk
deletions = hunk (codes "lines") (codes "b") [] ∷ hunk (codes "lines") (codes "c") [] ∷ []

abbrev resolved : List Resolved
resolved =
    record {
      hunk = hunk (codes "lines") (codes "b") [];
      start_offset = 1;
      end_offset = 4;
      start_line = 2;
      start_char = 0;
      end_line = 2;
      end_char = 1;
    }
    ∷ record {
      hunk = hunk (codes "lines") (codes "c") [];
      start_offset = 4;
      end_offset = 5;
      start_line = 3;
      start_char = 0;
      end_line = 3;
      end_char = 1;
    }
    ∷ []

deletions-resolve : resolve base deletions ≡ inr resolved
unfolding resolve resolve_each resolve_hunk text_eqb choose search_hunk scan index context_matches
    adjust_hunks candidate extend_deletion full_line_deletion_offsets
    trim_terminal_deletion_delimiter group_start move_start position_at after_last_newline
    count_newlines cut_prefix has_prefix runes sum_units units after_matches before_matches
    newline_at newline_before crlf_before delimiter_end delimiter_start is_full_line_deletion
    overlaps_previous utf16_length
deletions-resolve = refl

deletions_apply : apply base resolved ≡ codes "a"
unfolding apply apply_hunk
deletions_apply = refl

resolve-apply_example :
    Perm (map hunk_of resolved) deletions
    × Ordered (length base) 0 resolved
    × (apply base resolved ≡ splice base 0 resolved)
resolve-apply_example = resolve-apply base deletions resolved deletions-resolve

resolve_hunk_iff_example :
    (resolve_hunk base (hunk [] (codes "b") []) ≡ inr (candidate base (hunk [] (codes "b") []) 2))
    ↔ ((codes "b" ≢ []) × Stands base (codes "b") 2 × IsOnlyPlace base (hunk [] (codes "b") []) 2)
resolve_hunk_iff_example = resolve_hunk_iff base (hunk [] (codes "b") []) 2
