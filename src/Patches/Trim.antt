-- ===== src/Patches/Trim.antt =====
-- trimTerminalDeletionDelimiter keeps the order of the resolved hunks and their texts.
use planmaxx.Base.{
  not, take, if◌then◌else◌, ℕ, zero, suc, ◌≤◌, ◌≡◌, refl, sym, subst, inl, inr, some, List, map, [],
  ◌∷◌, arith, length, get_elem?, set, eqb, if-cases, Option-cases, Bool, false, ◌||◌,
}
use planmaxx.Base.Text.{Text}
use planmaxx.Patches.Hunks.{Resolved, newline_before}
use planmaxx.Patches.Resolve.{
  has_suffix, is_full_line_deletion, delimiter_start, group_start, overlaps_previous, move_start,
  trim_terminal_deletion_delimiter, crlf_before,
}
use planmaxx.Patches.Order.{Ordered, hunk_of}

-- An offset that the hunk at a place may begin at: behind the hunk before it.
abbrev Above : ℕ → List Resolved → ℕ → ℕ → Type 0
Above bound rs zero d = bound ≤ d
Above bound rs (suc k) d = (p : Resolved) → get_elem? rs k ≡ some p → p.end_offset ≤ d

Above-tail :
    (bound : ℕ) (x : Resolved) (xs : List Resolved) (k d : ℕ)
    → Above bound (x ∷ xs) (suc k) d
    → Above x.end_offset xs k d
Above-tail bound x xs zero d h = h x refl
Above-tail bound x xs (suc k) d h = h

abbrev with_start : Resolved → ℕ → Resolved
with_start r d = record r { start_offset = d }

-- Moving one start back keeps the order and the hunks.
move-Ordered :
    (n bound k d : ℕ) (rs : List Resolved) (r : Resolved)
    → Ordered n bound rs
    → get_elem? rs k ≡ some r
    → d ≤ r.start_offset
    → Above bound rs k d
    → Ordered n bound (set rs k (with_start r d))
      × (map hunk_of (set rs k (with_start r d)) ≡ map hunk_of rs)
move-Ordered n bound k d [] r h at le above = cc
move-Ordered n bound zero d (x ∷ xs) r (lo, mid, h) at le above =
    let same : x ≡ r = ground arith in
    let le' : d ≤ x.start_offset = subst (λ y. d ≤ y.start_offset) (sym same) le in
    subst
      (λ y.
        Ordered n bound (with_start y d ∷ xs)
        × (map hunk_of (with_start y d ∷ xs) ≡ map hunk_of (x ∷ xs)))
      same ((above, omega arith, h), refl)
move-Ordered n bound (suc k) d (x ∷ xs) r (lo, mid, h) at le above =
    let (ordered, kept) =
      move-Ordered n x.end_offset k d xs r h at le (Above-tail bound x xs k d above) in
    ((lo, mid, ordered), λ i. x.hunk ∷ kept i)

delimiter_start-le : (base : Text) (start : ℕ) → delimiter_start base start ≤ start
unfolding delimiter_start
delimiter_start-le base start =
    if-cases (λ d. d ≤ start) (crlf_before base start) _ _ (λ _. omega arith)
      (λ _.
        if-cases (λ d. d ≤ start) (newline_before base start) _ _ (λ _. omega arith)
          (λ _. omega arith))

overlaps-Above : (rs : List Resolved) (k d : ℕ) → overlaps_previous rs k d ≡ false → Above 0 rs k d
unfolding overlaps_previous
overlaps-Above rs zero d h = omega arith
overlaps-Above rs (suc k) d h = λ p at. ground arith

abbrev Kept : ℕ → List Resolved → List Resolved → Type 0
Kept n rs out = Ordered n 0 out × (map hunk_of out ≡ map hunk_of rs)

clear-right : (a b : Bool) → (a || b) ≡ false → b ≡ false
clear-right a b h = ground arith

move_start-Kept :
    (base : Text) (n k : ℕ) (rs : List Resolved) → Ordered n 0 rs → Kept n rs (move_start base rs k)
unfolding move_start
move_start-Kept base n k rs h = elim (Option-cases (get_elem? rs k)) [
  | inl e ↦ rw (e, move_start) (h, refl)
  | inr (r, at) ↦
      let d = delimiter_start base r.start_offset in
      rw (at, move_start)
        (if-cases (Kept n rs) (eqb d r.start_offset || overlaps_previous rs k d) _ _
          (λ _. (h, refl))
          (λ clear.
            move-Ordered n 0 k d rs r h at (delimiter_start-le base r.start_offset)
              (overlaps-Above rs k d (clear-right (eqb d r.start_offset) _ clear))))
]

pub trim-Kept :
    (base : Text) (n : ℕ) (rs : List Resolved)
    → Ordered n 0 rs
    → Ordered n 0 (trim_terminal_deletion_delimiter base rs)
      × (map hunk_of (trim_terminal_deletion_delimiter base rs) ≡ map hunk_of rs)
unfolding trim_terminal_deletion_delimiter
trim-Kept base n [] h = (h, refl)
trim-Kept base n (r ∷ rs) h = elim (Option-cases (get_elem? (r ∷ rs) (length rs))) [
  | inl e ↦ rw (e, trim_terminal_deletion_delimiter) (h, refl)
  | inr (l, at) ↦
      let first = group_start (r ∷ rs) (length rs) in
      let stays =
        eqb first (length rs)
        || has_suffix l.hunk.expected (10 ∷ [])
        || not (has_suffix (take l.end_offset base) l.hunk.expected) in
      let moved = move_start base (r ∷ rs) first in
      let later =
        if-cases (Kept n (r ∷ rs)) stays (r ∷ rs) moved (λ _. (h, refl))
          (λ _. move_start-Kept base n first (r ∷ rs) h) in
      rw (at, trim_terminal_deletion_delimiter)
        (if-cases (Kept n (r ∷ rs))
          (not (is_full_line_deletion l) || not (eqb l.end_offset (length base))) (r ∷ rs)
          (if stays then r ∷ rs else moved) (λ _. (h, refl)) (λ _. later))
]
