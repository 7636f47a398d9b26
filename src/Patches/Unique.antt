-- ===== src/Patches/Unique.antt =====
-- Resolve locates a hunk where, and only where, there is exactly one place for it.
use planmaxx.Base.{
  ℕ, zero, suc, ◌+◌, ◌≤◌, ◌≡◌, ◌≢◌, ◌↔◌, refl, sym, subst, ◌∙◌, ap, inl, inr, ◌⊎◌, some, List, [],
  ◌∷◌, arith, length, drop, leb, All, if-cases, Option-cases,
}
use planmaxx.Base.Text.{Text, text_comparable, text_eqb_iff, index}
use planmaxx.Patches.Hunks.{
  Hunk, Resolved, candidate, context_matches, scan, search_hunk, choose, resolve_hunk,
}
use planmaxx.Base.Find.{Stands}
use planmaxx.Patches.Search.{
  scan-some, scan-none, candidate-start, IsCandidate, Fits, Has, Finds, scan-Sound, scan-Finds,
}

choose_cases :
    (ms es : List Resolved) (c : Resolved)
    → choose ms es ≡ some c
    → (ms ≡ c ∷ []) ⊎ ((ms ≡ []) × (es ≡ c ∷ []))
unfolding choose
choose_cases [] [] c e = cc
choose_cases [] (x ∷ []) c e = ground arith
choose_cases [] (x ∷ y ∷ es) c e = cc
choose_cases (x ∷ []) es c e = ground arith
choose_cases (x ∷ y ∷ ms) es c e = cc

resolve_cases :
    (base : Text) (h : Hunk) (c : Resolved)
    → resolve_hunk base h ≡ inr c
    → (h.expected ≢ [])
      × (choose (scan (suc (length base)) base h 0).0 (scan (suc (length base)) base h 0).1
          ≡ some c)
unfolding resolve_hunk search_hunk
resolve_cases base h c e = ground (arith, text_eqb_iff h.expected [])

-- The place of a hunk: the only one where the expected text stands with its context, or the only
-- one where it stands at all.
abbrev pub IsOnlyPlace : Text → Hunk → ℕ → Type 0
IsOnlyPlace base h at =
    (Fits base h at × ((p : ℕ) → Stands base h.expected p → Fits base h p → p ≡ at))
    ⊎ (((p : ℕ) → Stands base h.expected p → Fits base h p → ⊥)
        × ((p : ℕ) → Stands base h.expected p → p ≡ at))

only-start :
    (c : Resolved) (cs : List Resolved) (p : ℕ) → cs ≡ c ∷ [] → Has p cs → p ≡ c.start_offset
only-start c cs p e has = elim (subst (Has p) e has) [
  | inl same ↦ sym same
  | inr nothing ↦ absurd nothing
]

-- When Resolve locates a hunk, its expected text is not empty and stands at the offset it is
-- given, and this is the only place that qualifies.
pub resolve_hunk-IsOnlyPlace :
    (base : Text) (h : Hunk) (c : Resolved)
    → resolve_hunk base h ≡ inr c
    → (h.expected ≢ [])
      × (c ≡ candidate base h c.start_offset)
      × Stands base h.expected c.start_offset
      × IsOnlyPlace base h c.start_offset
resolve_hunk-IsOnlyPlace base h c e =
    let (ne, chosen) = resolve_cases base h c e in
    let found = scan (suc (length base)) base h 0 in
    let (fitting, exact) = scan-Sound (suc (length base)) base h 0 in
    let finds : (p : ℕ) → Stands base h.expected p → Finds base h p found =
      λ p. scan-Finds (suc (length base)) base h 0 p ne (omega arith) (omega arith) in
    elim (choose_cases found.0 found.1 c chosen) [
      | inl one ↦
          let ((is, fits), _) =
            subst (All (λ c. IsCandidate base h c × Fits base h c.start_offset)) one fitting in
          (
            ne,
            is.0,
            is.1,
            inl (fits, λ p stands fits_p. only-start c found.0 p one ((finds p stands).1 fits_p)),
          )
      | inr (no_match, one) ↦
          let (is, _) = subst (All (IsCandidate base h)) one exact in
          (
            ne,
            is.0,
            is.1,
            inr (
              (λ p stands fits_p. subst (Has p) no_match ((finds p stands).1 fits_p)),
              (λ p stands. only-start c found.1 p one (finds p stands).0),
            ),
          )
    ]

-- Starts that increase, from a bound on.
abbrev Increasing : ℕ → List Resolved → Type 0
Increasing bound [] = Unit
Increasing bound (c ∷ cs) = (bound ≤ c.start_offset) × Increasing (suc c.start_offset) cs

Increasing-weaken : (a b : ℕ) (cs : List Resolved) → a ≤ b → Increasing b cs → Increasing a cs
Increasing-weaken a b [] le h = tt
Increasing-weaken a b (c ∷ cs) le (lo, h) = (omega arith, h)

scan-Increasing :
    (rounds : ℕ) (base : Text) (h : Hunk) (offset : ℕ)
    → Increasing offset (scan rounds base h offset).0
      × Increasing offset (scan rounds base h offset).1
scan-Increasing zero base h offset = unfold scan in (tt, tt)
scan-Increasing (suc rounds) base h offset =
    elim (Option-cases (index (drop offset base) h.expected)) [
      | inl e ↦ rw (scan-none rounds base h offset e) (tt, tt)
      | inr (i, e) ↦
          let start = offset + i in
          let (m, x) =
            if-cases (λ found. Increasing (start + 1) found.0 × Increasing (start + 1) found.1)
              (leb (length base) (start + 1)) ([], []) (scan rounds base h (start + 1))
              (λ _. (tt, tt)) (λ _. scan-Increasing rounds base h (start + 1)) in
          let begins = candidate-start base h start in
          rw (scan-some rounds base h offset i e) (
            if-cases (Increasing offset) (context_matches base start (start + length h.expected) h)
                _ _ (λ _. (omega arith, Increasing-weaken _ (start + 1) _ (omega arith) m))
                (λ _. Increasing-weaken offset (start + 1) _ (omega arith) m),
            (omega arith, Increasing-weaken _ (start + 1) _ (omega arith) x),
          )
    ]

-- Candidates that all stand at one offset are a single one.
single :
    (base : Text) (h : Hunk) (at bound : ℕ) (cs : List Resolved)
    → Increasing bound cs
    → All (λ c. (c ≡ candidate base h c.start_offset) × (c.start_offset ≡ at)) cs
    → Has at cs
    → cs ≡ candidate base h at ∷ []
single base h at bound [] inc same has = absurd has
single base h at bound (c ∷ []) inc ((is, same), _) has =
    ap (λ x. x ∷ []) (is ∙ ap (candidate base h) same)
single base h at bound (c ∷ d ∷ cs) (lo, (lo', inc)) ((_, same), ((_, same'), _)) has =
    absurd (omega arith)

All-map {ℓ κ κ'} :
    {A : Type ℓ} (P : A → Type κ) (Q : A → Type κ') (xs : List A)
    → ((x : A) → P x → Q x)
    → All P xs
    → All Q xs
All-map P Q [] f h = tt
All-map P Q (x ∷ xs) f (p, h) = (f x p, All-map P Q xs f h)

-- Candidates that cannot be are none.
no_candidate : (cs : List Resolved) → All (λ _. ⊥) cs → cs ≡ []
no_candidate [] h = refl
no_candidate (c ∷ cs) (f, h) = absurd f

choose-first : (c : Resolved) (ms es : List Resolved) → ms ≡ c ∷ [] → choose ms es ≡ some c
unfolding choose
choose-first c ms es e = rw e refl

choose-exact :
    (c : Resolved) (ms es : List Resolved) → ms ≡ [] → es ≡ c ∷ [] → choose ms es ≡ some c
unfolding choose
choose-exact c ms es m e = rw (m, e) refl

resolve-chosen :
    (base : Text) (h : Hunk) (c : Resolved)
    → h.expected ≢ []
    → choose (scan (suc (length base)) base h 0).0 (scan (suc (length base)) base h 0).1 ≡ some c
    → resolve_hunk base h ≡ inr c
unfolding resolve_hunk search_hunk
resolve-chosen base h c ne e = ground (arith, text_eqb_iff h.expected [])

-- Resolve locates a hunk at an offset just when its expected text is not empty and stands there,
-- and the offset is the only one where the text stands with its context, or, where no place has
-- the context, the only one where the text stands.
pub resolve_hunk_iff :
    (base : Text) (h : Hunk) (at : ℕ)
    → (resolve_hunk base h ≡ inr (candidate base h at))
      ↔ ((h.expected ≢ []) × Stands base h.expected at × IsOnlyPlace base h at)
resolve_hunk_iff base h at =
    let rounds = suc (length base) in
    let found = scan rounds base h 0 in
    let (fitting, exact) = scan-Sound rounds base h 0 in
    let (inc, inc') = scan-Increasing rounds base h 0 in
    (
      λ e.
          let (ne, is, stands, only) = resolve_hunk-IsOnlyPlace base h (candidate base h at) e in
          let start = candidate-start base h at in
          (ne, subst (Stands base h.expected) start stands, subst (IsOnlyPlace base h) start only),
      λ (ne, stands, only).
          let (has, has_fit) =
            scan-Finds rounds base h 0 at ne (omega arith) (omega arith) stands in
          elim only [
            | inl (fits, unique) ↦
                let one =
                  single base h at 0 found.0 inc
                    (All-map _ _ found.0 (λ c (is, f). (is.0, unique c.start_offset is.1 f))
                      fitting)
                    (has_fit fits) in
                resolve-chosen base h (candidate base h at) ne (choose-first _ _ found.1 one)
            | inr (none_fits, unique) ↦
                let no_match =
                  no_candidate found.0
                    (All-map _ _ found.0 (λ c (is, f). none_fits c.start_offset is.1 f) fitting) in
                let one =
                  single base h at 0 found.1 inc'
                    (All-map _ _ found.1 (λ c is. (is.0, unique c.start_offset is.1)) exact) has in
                resolve-chosen base h (candidate base h at) ne (choose-exact _ _ _ no_match one)
          ],
    )
