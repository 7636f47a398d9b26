-- ===== src/Patches/Splice.antt =====
-- Apply, which goes from the last hunk to the first, is one pass over the base.
use planmaxx.Base.{
  ℕ, zero, suc, ◌-◌, ◌≤◌, ◌≡◌, refl, sym, ◌∙◌, ap, List, [], ◌∷◌, ◌++◌, arith, length, take, drop,
  append_assoc,
}
use planmaxx.Base.Text.{Text}
use planmaxx.Patches.Hunks.{Resolved, bytes}
use planmaxx.Patches.Resolve.{apply, apply_hunk}
use planmaxx.Patches.Order.{Ordered}

-- What one pass over the base writes from an offset on: the bytes up to each hunk, and its content.
abbrev pub splice : Text → ℕ → List Resolved → Text
splice base from [] = drop from base
splice base from (r ∷ rs) =
    bytes base from r.start_offset ++ (r.hunk.content ++ splice base r.end_offset rs)

take-append_le {ℓ} :
    {A : Type ℓ} (a b : ℕ) (xs ys : List A)
    → a ≤ b
    → b ≤ length xs
    → take a (take b xs ++ ys) ≡ take a xs
take-append_le zero b xs ys le h = refl
take-append_le (suc a) zero xs ys le h = absurd (omega arith)
take-append_le (suc a) (suc b) [] ys le h = absurd (omega arith)
take-append_le (suc a) (suc b) (x ∷ xs) ys le h =
    ap (λ l. x ∷ l) (take-append_le a b xs ys (omega arith) (omega arith))

drop-append_take {ℓ} :
    {A : Type ℓ} (b : ℕ) (xs ys : List A) → b ≤ length xs → drop b (take b xs ++ ys) ≡ ys
drop-append_take zero xs ys h = refl
drop-append_take (suc b) [] ys h = absurd (omega arith)
drop-append_take (suc b) (x ∷ xs) ys h = drop-append_take b xs ys (omega arith)

take-nil {ℓ} : {A : Type ℓ} (n : ℕ) → take {A = A} n [] ≡ []
take-nil zero = refl
take-nil (suc n) = refl

-- The first bytes, cut once more.
take-cut {ℓ} :
    {A : Type ℓ} (a b : ℕ) (xs : List A) → a ≤ b → take b xs ≡ take a xs ++ take (b - a) (drop a xs)
take-cut zero b xs le = ap (λ n. take n xs) (omega arith)
take-cut (suc a) zero xs le = absurd (omega arith)
take-cut (suc a) (suc b) [] le = sym (take-nil (suc b - suc a))
take-cut (suc a) (suc b) (x ∷ xs) le =
    let same : b - a ≡ suc b - suc a = omega arith in
    ap (λ l. x ∷ l) (take-cut a b xs (omega arith) ∙ ap (λ n. take a xs ++ take n (drop a xs)) same)

take-drop {ℓ} : {A : Type ℓ} (n : ℕ) (xs : List A) → take n xs ++ drop n xs ≡ xs
take-drop zero xs = refl
take-drop (suc n) [] = refl
take-drop (suc n) (x ∷ xs) = ap (λ l. x ∷ l) (take-drop n xs)

pub Ordered-bound : (n bound : ℕ) (rs : List Resolved) → Ordered n bound rs → bound ≤ n
Ordered-bound n bound [] h = h
Ordered-bound n bound (r ∷ rs) (lo, mid, h) =
    let rest = Ordered-bound n r.end_offset rs h in omega arith

pub apply-splice_from :
    (base : Text) (from : ℕ) (rs : List Resolved)
    → Ordered (length base) from rs
    → apply base rs ≡ take from base ++ splice base from rs
unfolding apply apply_hunk
apply-splice_from base from [] h = sym (take-drop from base)
apply-splice_from base from (r ∷ rs) (lo, mid, h) =
    let inside = Ordered-bound (length base) r.end_offset rs h in
    let rest = splice base r.end_offset rs in
    let content = r.hunk.content in
    ap (λ s. apply_hunk s r) (apply-splice_from base r.end_offset rs h)
    ∙ ap (λ s. s ++ content ++ drop r.end_offset (take r.end_offset base ++ rest))
        (take-append_le r.start_offset r.end_offset base rest mid inside
          ∙ take-cut from r.start_offset base lo)
    ∙ ap (λ s. (take from base ++ bytes base from r.start_offset) ++ content ++ s)
        (drop-append_take r.end_offset base rest inside)
    ∙ append_assoc (take from base ++ bytes base from r.start_offset) content rest
    ∙ append_assoc (take from base) (bytes base from r.start_offset) (content ++ rest)
