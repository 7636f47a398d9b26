-- ===== src/Patches/Order.antt =====
-- Resolved hunks come out ordered: each begins where the one before has ended, or later, and the
-- last ends inside the base.
use planmaxx.Base.{
  ℕ, zero, suc, ◌-◌, ◌≤◌, ◌<◌, ◌≡◌, refl, inr, List, map, [], ◌∷◌, arith, length, drop, ltb, leb,
  All, if-cases, Bool, true, ◌&&◌,
}
use planmaxx.Base.Text.{Text, has_prefix}
use planmaxx.Base.Find.{has_prefix-long, length-drop}
use planmaxx.Patches.Hunks.{Hunk, Resolved, newline_at, newline_before}
use planmaxx.Patches.Resolve.{
  crlf, delimiter_end, full_line_deletion_offsets, extend_deletion, adjust_hunks, crlf_before,
  insert_by_offset, sort_by_offset, is_full_line_deletion,
}

-- Hunks that lie in the base from a bound on, one behind the other.
abbrev pub Ordered : ℕ → ℕ → List Resolved → Type 0
Ordered n bound [] = bound ≤ n
Ordered n bound (r ∷ rs) =
    (bound ≤ r.start_offset) × (r.start_offset ≤ r.end_offset) × Ordered n r.end_offset rs

abbrev pub Inside : ℕ → Resolved → Type 0
Inside n r = (r.start_offset ≤ r.end_offset) × (r.end_offset ≤ n)

newline_at-inside : (base : Text) (i : ℕ) → newline_at base i ≡ true → i < length base
unfolding newline_at
newline_at-inside [] i h = cc
newline_at-inside (c ∷ base) zero h = omega arith
newline_at-inside (c ∷ base) (suc i) h = let inside = newline_at-inside base i h in omega arith

delimiter_end-bounds :
    (base : Text) (end : ℕ)
    → end ≤ length base
    → (end ≤ delimiter_end base end) × (delimiter_end base end ≤ length base)
unfolding delimiter_end
delimiter_end-bounds base end h =
    if-cases (λ d. (end ≤ d) × (d ≤ length base)) (has_prefix (drop end base) crlf) _ _
      (λ two.
        let long = has_prefix-long (drop end base) crlf two in
        let rest = length-drop end base in (omega arith, omega arith))
      (λ _.
        if-cases (λ d. (end ≤ d) × (d ≤ length base)) (newline_at base end) _ _
          (λ one. let inside = newline_at-inside base end one in (omega arith, omega arith))
          (λ _. (omega arith, h)))

-- Offsets that reach further than those of a hunk, and not below the bound.
abbrev Grown : ℕ → ℕ → ℕ → ℕ → ℕ × ℕ → Type 0
Grown n start end bound o = (o.0 ≤ start) × (end ≤ o.1) × (o.1 ≤ n) × (bound ≤ start → bound ≤ o.0)

guard_le : (b : Bool) (m n : ℕ) → (b && leb m n) ≡ true → m ≤ n
guard_le b m n h = ground arith

offsets-Grown :
    (base : Text) (start end bound : ℕ)
    → end ≤ length base
    → Grown (length base) start end bound (full_line_deletion_offsets base start end bound)
unfolding full_line_deletion_offsets
offsets-Grown base start end bound hi =
    let G = Grown (length base) start end bound in
    let (lo', hi') = delimiter_end-bounds base end hi in
    let same : G (start, end) = (omega arith, omega arith, hi, λ h. h) in
    if-cases G _ _ _ (λ _. same)
      (λ _.
        if-cases G (ltb end (delimiter_end base end)) _ _ (λ _. (omega arith, lo', hi', λ h. h))
          (λ _.
            if-cases G (crlf_before base start && leb bound (start - 2)) _ _
              (λ h. (omega arith, omega arith, hi, λ _. guard_le (crlf_before base start) _ _ h))
              (λ _.
                if-cases G (newline_before base start && leb bound (start - 1)) _ _
                  (λ h.
                    (omega arith, omega arith, hi, λ _. guard_le (newline_before base start) _ _ h))
                  (λ _. same))))

-- What a step of Resolve leaves of a hunk: its text, and no less of the base.
abbrev Extends : ℕ → ℕ → Resolved → Resolved → Type 0
Extends n bound r r' = (r'.start_offset ≤ r'.end_offset) × (r'.end_offset ≤ n) × (r'.hunk ≡ r.hunk)

extend_deletion-Extends :
    (base : Text) (bound : ℕ) (r : Resolved)
    → Inside (length base) r
    → Extends (length base) bound r (extend_deletion base bound r)
unfolding extend_deletion
extend_deletion-Extends base bound r (lo, hi) =
    let grown = offsets-Grown base r.start_offset r.end_offset bound hi in
    if-cases (Extends (length base) bound r) (is_full_line_deletion r) _ _
      (λ _. (omega arith, grown.2, refl)) (λ _. (lo, hi, refl))

adjust_cases :
    (base : Text) (bound : ℕ) (r : Resolved) (rs out : List Resolved)
    → adjust_hunks base bound (r ∷ rs) ≡ inr out
    → (bound ≤ (extend_deletion base bound r).start_offset)
      × ((rs' : List Resolved) × (adjust_hunks base (extend_deletion base bound r).end_offset rs
            ≡ inr rs')
          × (out ≡ extend_deletion base bound r ∷ rs'))
unfolding adjust_hunks
adjust_cases base bound r rs out e = ground arith

adjust_hunks-nil :
    (base : Text) (bound : ℕ) (out : List Resolved)
    → adjust_hunks base bound [] ≡ inr out
    → out ≡ []
unfolding adjust_hunks
adjust_hunks-nil base bound out e = ground arith

abbrev pub hunk_of : Resolved → Hunk
hunk_of r = r.hunk

pub adjust_hunks-Ordered :
    (base : Text) (bound : ℕ) (rs out : List Resolved)
    → bound ≤ length base
    → All (Inside (length base)) rs
    → adjust_hunks base bound rs ≡ inr out
    → Ordered (length base) bound out × (map hunk_of out ≡ map hunk_of rs)
adjust_hunks-Ordered base bound [] out lo h e = rw (adjust_hunks-nil base bound out e) (lo, refl)
adjust_hunks-Ordered base bound (r ∷ rs) out lo (h, hs) e =
    let (above, (rs', later, shape)) = adjust_cases base bound r rs out e in
    let (le, hi, same) = extend_deletion-Extends base bound r h in
    let (ordered, kept) =
      adjust_hunks-Ordered base (extend_deletion base bound r).end_offset rs rs' hi hs later in
    rw shape ((above, le, ordered), λ i. same i ∷ kept i)

insert-All {ℓ} :
    (P : Resolved → Type ℓ) (r : Resolved) (rs : List Resolved)
    → P r
    → All P rs
    → All P (insert_by_offset r rs)
insert-All P r [] p h = (p, tt)
insert-All P r (x ∷ xs) p (q, h) =
    if-cases (All P) (ltb x.start_offset r.start_offset) _ _ (λ _. (q, insert-All P r xs p h))
      (λ _. (p, (q, h)))

pub sort-All {ℓ} :
    (P : Resolved → Type ℓ) (rs : List Resolved) → All P rs → All P (sort_by_offset rs)
sort-All P [] h = tt
sort-All P (r ∷ rs) (p, h) = insert-All P r (sort_by_offset rs) p (sort-All P rs h)
