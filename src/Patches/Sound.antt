-- ===== src/Patches/Sound.antt =====
-- Resolve and Apply together.
use mathlib.Core.List.{Perm}
use mathlib.Core.List.Perm
use planmaxx.Base.{
  ℕ, ◌+◌, ◌≤◌, ◌≡◌, refl, sym, subst, ◌∙◌, inl, inr, ◌⊎◌, List, [], ◌∷◌, arith, map, length, All,
  ltb, if-cases,
}
use planmaxx.Base.Text.{Text, text_comparable}
use planmaxx.Base.Find.{Stands-inside}
use planmaxx.Patches.Hunks.{Hunk, Resolved, candidate, resolve_hunk}
use planmaxx.Patches.Resolve.{
  resolve_each, adjust_hunks, sort_by_offset, insert_by_offset, trim_terminal_deletion_delimiter,
  resolve, apply,
}
use planmaxx.Patches.Unique.{resolve_hunk-IsOnlyPlace}
use planmaxx.Patches.Order.{Ordered, Inside, hunk_of, adjust_hunks-Ordered, sort-All}
use planmaxx.Patches.Trim.{trim-Kept}
use planmaxx.Patches.Splice.{splice, apply-splice_from}

candidate-Inside :
    (base : Text) (h : Hunk) (at : ℕ)
    → at + length h.expected ≤ length base
    → Inside (length base) (candidate base h at) × ((candidate base h at).hunk ≡ h)
unfolding candidate
candidate-Inside base h at inside = ((omega arith, inside), refl)

resolve_hunk-Inside :
    (base : Text) (h : Hunk) (c : Resolved)
    → resolve_hunk base h ≡ inr c
    → Inside (length base) c × (c.hunk ≡ h)
resolve_hunk-Inside base h c e =
    let (ne, is, stands, only) = resolve_hunk-IsOnlyPlace base h c e in
    let inside = (Stands-inside base h.expected c.start_offset ne stands).1 in
    subst (λ x. Inside (length base) x × (x.hunk ≡ h)) (sym is)
      (candidate-Inside base h c.start_offset inside)

both_cases :
    (a : Text ⊎ Resolved) (b : Text ⊎ List Resolved) (out : List Resolved)
    → Path
        (Text ⊎ List Resolved)
        (elim a [ inl e ↦ inl e | inr c ↦ elim b [ inl e ↦ inl e | inr cs ↦ inr (c ∷ cs) ] ])
        (inr out)
    → (c : Resolved) × (a ≡ inr c) × ((cs : List Resolved) × (b ≡ inr cs) × (out ≡ c ∷ cs))
both_cases (inl x) b out e = cc
both_cases (inr c) (inl x) out e = cc
both_cases (inr c) (inr cs) out e = (c, refl, (cs, refl, ground arith))

each_cases :
    (base : Text) (h : Hunk) (hs : List Hunk) (out : List Resolved)
    → resolve_each base (h ∷ hs) ≡ inr out
    → (c : Resolved) × (resolve_hunk base h ≡ inr c)
      × ((cs : List Resolved) × (resolve_each base hs ≡ inr cs) × (out ≡ c ∷ cs))
unfolding resolve_each
each_cases base h hs out e = both_cases (resolve_hunk base h) (resolve_each base hs) out e

each-nil : (base : Text) (out : List Resolved) → resolve_each base [] ≡ inr out → out ≡ []
unfolding resolve_each
each-nil base out e = ground arith

resolve_each-Inside :
    (base : Text) (hs : List Hunk) (out : List Resolved)
    → resolve_each base hs ≡ inr out
    → All (Inside (length base)) out × (map hunk_of out ≡ hs)
resolve_each-Inside base [] out e = rw (each-nil base out e) (tt, refl)
resolve_each-Inside base (h ∷ hs) out e =
    let (c, found, (cs, rest, shape)) = each_cases base h hs out e in
    let (inside, same) = resolve_hunk-Inside base h c found in
    let (insides, sames) = resolve_each-Inside base hs cs rest in
    rw shape ((inside, insides), λ i. same i ∷ sames i)

insert-Perm :
    (r : Resolved) (rs : List Resolved)
    → Perm (map hunk_of (insert_by_offset r rs)) (r.hunk ∷ map hunk_of rs)
insert-Perm r [] = Perm.rfl
insert-Perm r (x ∷ xs) =
    if-cases (λ ys. Perm (map hunk_of ys) (r.hunk ∷ map hunk_of (x ∷ xs)))
      (ltb x.start_offset r.start_offset) (x ∷ insert_by_offset r xs) (r ∷ x ∷ xs)
      (λ _.
        Perm.trans (Perm.cons x.hunk (insert-Perm r xs)) (Perm.swap r.hunk x.hunk (map hunk_of xs)))
      (λ _. Perm.rfl)

sort-Perm : (rs : List Resolved) → Perm (map hunk_of (sort_by_offset rs)) (map hunk_of rs)
sort-Perm [] = Perm.nil
sort-Perm (r ∷ rs) =
    Perm.trans (insert-Perm r (sort_by_offset rs)) (Perm.cons r.hunk (sort-Perm rs))

resolve_cases :
    (base : Text) (hs : List Hunk) (out : List Resolved)
    → resolve base hs ≡ inr out
    → (cs : List Resolved) × ((rs : List Resolved) × (resolve_each base hs ≡ inr cs)
        × (adjust_hunks base 0 (sort_by_offset cs) ≡ inr rs)
        × (out ≡ trim_terminal_deletion_delimiter base rs))
unfolding resolve
resolve_cases base [] out e = cc
resolve_cases base (h ∷ hs) out e = ground arith

-- When Resolve succeeds, the resolved hunks are the hunks that were given, each once; they lie in
-- the base one behind the other, and Apply writes the base with the content of each in place of
-- the bytes between its offsets, and with every other byte as it was.
pub resolve-apply :
    (base : Text) (hs : List Hunk) (out : List Resolved)
    → resolve base hs ≡ inr out
    → Perm (map hunk_of out) hs × Ordered (length base) 0 out × (apply base out ≡ splice base 0 out)
resolve-apply base hs out e =
    let (cs, (rs, each, adjusted, shape)) = resolve_cases base hs out e in
    let (inside, same) = resolve_each-Inside base hs cs each in
    let (ordered, kept) =
      adjust_hunks-Ordered base 0 (sort_by_offset cs) rs (omega arith)
        (sort-All (Inside (length base)) cs inside) adjusted in
    let (ordered', kept') = trim-Kept base (length base) rs ordered in
    let hunks : Perm (map hunk_of (trim_terminal_deletion_delimiter base rs)) hs =
      subst (λ l. Perm l hs) (sym (kept' ∙ kept))
        (subst (Perm (map hunk_of (sort_by_offset cs))) same (sort-Perm cs)) in
    rw shape (
      hunks,
      ordered',
      apply-splice_from base 0 (trim_terminal_deletion_delimiter base rs) ordered',
    )
