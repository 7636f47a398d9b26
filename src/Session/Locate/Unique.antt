-- ===== src/Session/Locate/Unique.antt =====
-- The search of uniqueLineSequenceIndex finds the only run of lines that spells a selection.
use native.Mathlib.Decide.{ℕ_discrete}
use planmaxx.Base.{
  ℕ, zero, suc, ◌+◌, ◌≤◌, ◌<◌, ◌≡◌, subst, ◌∙◌, ap, inl, inr, true, none, some, List, ◌==◌, arith,
  Bool-cases,
}
use planmaxx.Base.Text.{Text, text_comparable, join_lines}
use planmaxx.Session.Locate.{slice, match_loop}

module _ (lines : List Text) (n : ℕ) (selected : Text) where
  -- The lines from `start` on spell the selection.
  abbrev pub Hit : ℕ → Type 0
  Hit start = (join_lines (slice lines start (start + n)) == selected) ≡ true

  -- Once a match is known, the rest holds none.
  match_loop-some :
      (rounds start m at : ℕ)
      → match_loop rounds start lines n selected (some m) ≡ some at
      → (m ≡ at) × ((s : ℕ) → start ≤ s → s < start + rounds → Hit s → ⊥)
  unfolding match_loop
  match_loop-some zero start m at e = (ground arith, λ s lo hi h. omega arith)
  match_loop-some (suc rounds) start m at e =
      elim (Bool-cases (join_lines (slice lines start (start + n)) == selected)) [
        | inl hit ↦ ground (arith, hit)
        | inr miss ↦
            let (same, others) = match_loop-some rounds (suc start) m at (ground (arith, miss)) in
            (
              same,
              λ s lo hi h. elim (ℕ_discrete s start) [
                | yes now ↦
                    cc (miss, h, ap (λ k. join_lines (slice lines k (k + n)) == selected) now)
                | no later ↦ others s (omega arith) (omega arith) h
              ],
            )
      ]

  pub match_loop-none :
      (rounds start at : ℕ)
      → match_loop rounds start lines n selected none ≡ some at
      → (start ≤ at)
        × (at < start + rounds)
        × Hit at
        × ((s : ℕ) → start ≤ s → s < start + rounds → Hit s → s ≡ at)
  unfolding match_loop
  match_loop-none zero start at e = cc
  match_loop-none (suc rounds) start at e =
      elim (Bool-cases (join_lines (slice lines start (start + n)) == selected)) [
        | inl hit ↦
            let (same, others) =
              match_loop-some rounds (suc start) start at (ground (arith, hit)) in
            (
              omega arith,
              omega arith,
              subst Hit same hit,
              λ s lo hi h. elim (ℕ_discrete s start) [
                | yes now ↦ now ∙ same
                | no later ↦ absurd (others s (omega arith) (omega arith) h)
              ],
            )
        | inr miss ↦
            let (lo', hi', hit, others) =
              match_loop-none rounds (suc start) at (ground (arith, miss)) in
            (
              omega arith,
              omega arith,
              hit,
              λ s lo hi h. elim (ℕ_discrete s start) [
                | yes now ↦
                    cc (miss, h, ap (λ k. join_lines (slice lines k (k + n)) == selected) now)
                | no later ↦ others s (omega arith) (omega arith) h
              ],
            )
      ]
