-- ===== src/Patches/Hunks.antt =====
-- Hunks and the search for one hunk in internal/patches/hunks.go: Hunk, Resolved, contextMatches
-- and its helpers, PositionAt, the body of the loop of Resolve. An offset is never negative.
use planmaxx.Base.{
  ℕ, zero, suc, ◌+◌, ◌-◌, Bool, false, ◌&&◌, ◌||◌, Option, none, some, List, [], ◌∷◌, ◌==◌, ◌⊎◌,
  inl, inr, if◌then◌else◌, length, get_elem?, take, drop, leb, eqb,
}
use planmaxx.Base.Int.{ℤ}
use planmaxx.Base.Text.{
  Text, codes, text_comparable, index, newline, count_newlines, after_last_newline,
}
use planmaxx.Session.Anchors.{utf16_length}

pub record Hunk : Type 0 where
  pub before : Text
  pub expected : Text
  pub after : Text
  pub content : Text
  pub target : Text
  pub start_hint : ℤ
  pub end_hint : ℤ

pub record Resolved : Type 0 where
  pub hunk : Hunk
  pub start_offset : ℕ
  pub end_offset : ℕ
  pub start_line : ℕ
  pub start_char : ℕ
  pub end_line : ℕ
  pub end_char : ℕ

-- base[a:b]
abbrev pub bytes : Text → ℕ → ℕ → Text
bytes base a b = take (b - a) (drop a base)

-- i < len(base) && base[i] == '\n'
unfoldable pub newline_at : Text → ℕ → Bool
newline_at base i = elim (get_elem? base i) [ none ↦ false | some c ↦ eqb c newline ]

-- start > 0 && base[start-1] == '\n'
unfoldable pub newline_before : Text → ℕ → Bool
unfolding newline_at
newline_before base zero = false
newline_before base (suc i) = newline_at base i

-- beforeMatches: the line that ends at base[start-1] is what stands behind the last newline
-- of base[:start-1].
unfoldable pub before_matches : Text → ℕ → Text → Bool
unfolding newline_before
before_matches base start before =
    before == []
    || leb (length before) start && bytes base (start - length before) start == before
    || newline_before base start && after_last_newline (take (start - 1) base) == before

-- What stands before the first newline, the whole text where there is none.
first_line : Text → Text
first_line s = elim (index s (newline ∷ [])) [ none ↦ s | some i ↦ take i s ]

-- afterMatches
unfoldable pub after_matches : Text → ℕ → Text → Bool
unfolding newline_at first_line
after_matches base end after =
    after == []
    || leb (length after) (length base - end) && bytes base end (end + length after) == after
    || newline_at base end && first_line (drop (end + 1) base) == after

unfoldable pub context_matches : Text → ℕ → ℕ → Hunk → Bool
unfolding before_matches after_matches
context_matches base start end h =
    before_matches base start h.before && after_matches base end h.after

-- PositionAt: the line from 1 and the column in UTF-16 code units.
unfoldable pub position_at : Text → ℕ → ℕ × ℕ
position_at text offset =
    let before = take offset text in
    (1 + count_newlines before, utf16_length (after_last_newline before))

-- The candidate at an offset where the expected text stands.
unfoldable pub candidate : Text → Hunk → ℕ → Resolved
candidate base h start =
    let end = start + length h.expected in
    record {
      hunk = h;
      start_offset = start;
      end_offset = end;
      start_line = (position_at base start).0;
      start_char = (position_at base start).1;
      end_line = (position_at base end).0;
      end_char = (position_at base end).1;
    }

-- The inner loop of Resolve: matches and exactMatches from an offset on, in a number of rounds.
unfoldable pub scan : ℕ → Text → Hunk → ℕ → List Resolved × List Resolved
scan zero base h offset = ([], [])
scan (suc rounds) base h offset = elim (index (drop offset base) h.expected) [
  | none ↦ ([], [])
  | some i ↦
      let start = offset + i in
      let c = candidate base h start in
      let rest = scan rounds base h (start + 1) in
      let later = if leb (length base) (start + 1) then ([], []) else rest in
      (
        if context_matches base start (start + length h.expected) h then c ∷ later.0 else later.0,
        c ∷ later.1,
      )
]

-- Every round moves the offset forward, so that there are at most as many rounds as bytes.
unfoldable pub search_hunk : Text → Hunk → List Resolved × List Resolved
search_hunk base h = scan (suc (length base)) base h 0

-- The tests at the end of the loop: len(matches) == 1, or no match and len(exactMatches) == 1.
unfoldable pub choose : List Resolved → List Resolved → Option Resolved
choose (c ∷ []) es = some c
choose [] (c ∷ []) = some c
choose [] [] = none
choose [] (c ∷ d ∷ es) = none
choose (c ∷ d ∷ ms) es = none

-- The body of the loop of Resolve; inl is an error.
unfoldable pub resolve_hunk : Text → Hunk → Text ⊎ Resolved
resolve_hunk base h =
    let (matches, exact) = search_hunk base h in
    if h.expected == []
    then inl (codes "patch hunk requires expected source text")
    else elim (choose matches exact) [
      | none ↦ inl (codes "patch hunk is missing or ambiguous in the base revision")
      | some c ↦ inr c
    ]
