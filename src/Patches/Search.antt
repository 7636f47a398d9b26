-- ===== src/Patches/Search.antt =====
-- The search of Resolve for one hunk finds every place where the expected text stands.
use native.Mathlib.Decide.{ℕ_discrete}
use planmaxx.Base.{
  ℕ, zero, suc, ◌+◌, ◌-◌, ◌≤◌, ◌<◌, ◌≡◌, ◌≢◌, refl, sym, subst, ◌∙◌, ap, inl, inr, ◌⊎◌, Bool, true,
  false, none, some, List, [], ◌∷◌, if◌then◌else◌, arith, length, drop, leb, ltb, ltb→lt,
  Bool-cases, Option-cases, All, if-cases,
}
use planmaxx.Base.Text.{Text, text_comparable, has_prefix, index}
use planmaxx.Patches.Hunks.{Hunk, Resolved, candidate, context_matches, scan}
use planmaxx.Base.Find.{Stands, drop-drop, index-some, index-none, Stands-inside}

-- One round of the search.
abbrev pub scan_step : ℕ → Text → Hunk → ℕ → List Resolved × List Resolved
scan_step rounds base h start =
    let later =
      if leb (length base) (start + 1) then ([], []) else scan rounds base h (start + 1) in
    (
      if context_matches base start (start + length h.expected) h
          then candidate base h start ∷ later.0
          else later.0,
      candidate base h start ∷ later.1,
    )

pub scan-some :
    (rounds : ℕ) (base : Text) (h : Hunk) (offset i : ℕ)
    → index (drop offset base) h.expected ≡ some i
    → scan (suc rounds) base h offset ≡ scan_step rounds base h (offset + i)
unfolding scan
scan-some rounds base h offset i e = rw (e, scan) refl

pub scan-none :
    (rounds : ℕ) (base : Text) (h : Hunk) (offset : ℕ)
    → index (drop offset base) h.expected ≡ none
    → scan (suc rounds) base h offset ≡ ([], [])
unfolding scan
scan-none rounds base h offset e = rw (e, scan) refl

-- A candidate of a hunk, and one whose context matches.
abbrev pub IsCandidate : Text → Hunk → Resolved → Type 0
IsCandidate base h c = (c ≡ candidate base h c.start_offset) × Stands base h.expected c.start_offset

abbrev pub Fits : Text → Hunk → ℕ → Type 0
Fits base h p = context_matches base p (p + length h.expected) h ≡ true

abbrev pub Sound : Text → Hunk → List Resolved × List Resolved → Type 0
Sound base h found =
    All (λ c. IsCandidate base h c × Fits base h c.start_offset) found.0
    × All (IsCandidate base h) found.1

candidate-IsCandidate :
    (base : Text) (h : Hunk) (p : ℕ)
    → Stands base h.expected p
    → IsCandidate base h (candidate base h p)
unfolding candidate
candidate-IsCandidate base h p stands = (refl, stands)

candidate-Fits :
    (base : Text) (h : Hunk) (p : ℕ) → Fits base h p → Fits base h (candidate base h p).start_offset
unfolding candidate
candidate-Fits base h p fits = fits

pub scan-Sound :
    (rounds : ℕ) (base : Text) (h : Hunk) (offset : ℕ) → Sound base h (scan rounds base h offset)
scan-Sound zero base h offset = unfold scan in (tt, tt)
scan-Sound (suc rounds) base h offset = elim (Option-cases (index (drop offset base) h.expected)) [
  | inl e ↦ rw (scan-none rounds base h offset e) (tt, tt)
  | inr (i, e) ↦
      let start = offset + i in
      let stands =
        subst (λ s. has_prefix s h.expected ≡ true) (drop-drop offset i base)
          (index-some (drop offset base) h.expected i e).0 in
      let found = candidate-IsCandidate base h start stands in
      let later =
        if-cases (Sound base h) (leb (length base) (start + 1)) ([], [])
          (scan rounds base h (start + 1)) (λ _. (tt, tt))
          (λ _. scan-Sound rounds base h (start + 1)) in
      rw (scan-some rounds base h offset i e) (
        if-cases (All (λ c. IsCandidate base h c × Fits base h c.start_offset))
            (context_matches base start (start + length h.expected) h) _ _
            (λ fits. ((found, candidate-Fits base h start fits), later.0)) (λ _. later.0),
        (found, later.1),
      )
]

-- A candidate at an offset is among some.
abbrev pub Has : ℕ → List Resolved → Type 0
Has p [] = ⊥
Has p (c ∷ cs) = (c.start_offset ≡ p) ⊎ Has p cs

pub candidate-start : (base : Text) (h : Hunk) (p : ℕ) → (candidate base h p).start_offset ≡ p
unfolding candidate
candidate-start base h p = refl

abbrev pub Finds : Text → Hunk → ℕ → List Resolved × List Resolved → Type 0
Finds base h p found = Has p found.1 × (Fits base h p → Has p found.0)

-- A round finds its own place, and what the later rounds find.
step-here :
    (rounds : ℕ) (base : Text) (h : Hunk) (p : ℕ) → Finds base h p (scan_step rounds base h p)
step-here rounds base h p = (
  inl (candidate-start base h p),
  λ fits.
      if-cases (Has p) (context_matches base p (p + length h.expected) h) _ _
        (λ _. inl (candidate-start base h p)) (λ misses. cc (fits, misses)),
)

step-later :
    (rounds : ℕ) (base : Text) (h : Hunk) (start p : ℕ)
    → start + 1 < length base
    → Finds base h p (scan rounds base h (start + 1))
    → Finds base h p (scan_step rounds base h start)
step-later rounds base h start p inside (exact, matching) =
    let more : leb (length base) (start + 1) ≡ false = ground arith in
    rw more (
      inr exact,
      λ fits.
          if-cases (Has p) (context_matches base start (start + length h.expected) h) _ _
            (λ _. inr (matching fits)) (λ _. matching fits),
    )

not-before : (a i : ℕ) (b : Bool) → (a < i → b ≡ false) → b ≡ true → i ≤ a
not-before a i b first here = elim (Bool-cases (ltb a i)) [
  | inl lt ↦ cc (here, first (ltb→lt a i lt))
  | inr ge ↦ ground arith
]

-- The search finds every place from its offset on, when there are as many rounds as bytes.
pub scan-Finds :
    (rounds : ℕ) (base : Text) (h : Hunk) (offset p : ℕ)
    → h.expected ≢ []
    → length base ≤ offset + rounds
    → offset ≤ p
    → Stands base h.expected p
    → Finds base h p (scan rounds base h offset)
scan-Finds zero base h offset p ne enough lo stands =
    absurd (omega (arith, Stands-inside base h.expected p ne stands))
scan-Finds (suc rounds) base h offset p ne enough lo stands =
    let here : has_prefix (drop (p - offset) (drop offset base)) h.expected ≡ true =
      subst (λ s. has_prefix s h.expected ≡ true)
        (ap (λ n. drop n base) (omega arith) ∙ sym (drop-drop offset (p - offset) base)) stands in
    elim (Option-cases (index (drop offset base) h.expected)) [
      | inl e ↦ cc (here, index-none (drop offset base) h.expected e (p - offset))
      | inr (i, e) ↦
          let first = (index-some (drop offset base) h.expected i e).1 (p - offset) in
          rw (scan-some rounds base h offset i e) (elim (ℕ_discrete p (offset + i)) [
            | yes same ↦
                subst (λ q. Finds base h p (scan_step rounds base h q)) same
                  (step-here rounds base h p)
            | no other ↦
                let later : offset + i + 1 ≤ p =
                  omega (arith, not-before (p - offset) i _ first here) in
                let inside = (Stands-inside base h.expected p ne stands).0 in
                step-later rounds base h (offset + i) p (omega arith) (
                  scan-Finds rounds base h (offset + i + 1) p ne (omega arith) (omega arith) stands)
          ])
    ]
