-- ===== src/Base/Keys.antt =====
-- Membership tests on lists of texts: the keys of Go's maps.
use planmaxx.Base.{
  ◌≢◌, ◌≡◌, refl, false, ◌||◌, List, [], ◌∷◌, ◌++◌, ◌==◌, arith, All, contains, Distinct,
}
use planmaxx.Base.Text.{Text, text_comparable, text_eqb_iff}

pub contains-append :
    (k : Text) (xs ys : List Text) → contains k (xs ++ ys) ≡ (contains k xs || contains k ys)
unfolding contains
contains-append k [] ys = refl
contains-append k (x ∷ xs) ys = ground (arith, contains-append k xs ys)

-- None of the texts is among the keys.
abbrev pub Apart : List Text → List Text → Type 0
Apart seen = All λ x. contains x seen ≡ false

-- Two texts are compared alike from both sides.
pub text_eqb_symm : (a b : Text) → (a == b) ≡ (b == a)
text_eqb_symm a b = ground (arith, text_eqb_iff a b, text_eqb_iff b a)

pub not-contains-of-Apart :
    (x : Text) (seen xs : List Text) → Apart (x ∷ seen) xs → contains x xs ≡ false
unfolding contains
not-contains-of-Apart x seen [] h = refl
not-contains-of-Apart x seen (y ∷ ys) (h, hs) =
    ground (arith, text_eqb_symm x y, not-contains-of-Apart x seen ys hs)

pub Apart-tail : (x : Text) (seen xs : List Text) → Apart (x ∷ seen) xs → Apart seen xs
unfolding contains
Apart-tail x seen [] h = tt
Apart-tail x seen (y ∷ ys) (h, hs) = (ground arith, Apart-tail x seen ys hs)

pub Apart-cons :
    (x : Text) (seen xs : List Text) → Apart seen xs → contains x xs ≡ false → Apart (x ∷ seen) xs
unfolding contains
Apart-cons x seen [] h d = tt
Apart-cons x seen (y ∷ ys) (h, hs) d =
    (ground (arith, text_eqb_symm x y), Apart-cons x seen ys hs (ground arith))

pub Apart-nil : (xs : List Text) → Apart [] xs
unfolding contains
Apart-nil [] = tt
Apart-nil (x ∷ xs) = (refl, Apart-nil xs)

pub Apart-append_right :
    (seen xs ys : List Text) → Apart seen (xs ++ ys) → Apart seen xs × Apart seen ys
Apart-append_right seen [] ys h = (tt, h)
Apart-append_right seen (x ∷ xs) ys (h, hs) =
    let (a, b) = Apart-append_right seen xs ys hs in ((h, a), b)

pub Distinct-snoc :
    (xs : List Text) (x : Text) → Distinct xs → contains x xs ≡ false → Distinct (xs ++ x ∷ [])
unfolding contains
Distinct-snoc [] x h d = (refl, tt)
Distinct-snoc (y ∷ ys) x (h, hs) d = (
  ground (arith, contains-append y ys (x ∷ []), text_eqb_symm x y),
  Distinct-snoc ys x hs (ground arith),
)

-- What a loop has checked that puts each key on `seen` in turn: none is empty, none is seen twice.
abbrev pub FreshIn : List Text → List Text → Type 0
FreshIn seen [] = Unit
FreshIn seen (x ∷ xs) = (x ≢ []) × (contains x seen ≡ false) × FreshIn (x ∷ seen) xs

pub Apart-of-FreshIn : (seen xs : List Text) → FreshIn seen xs → Apart seen xs
Apart-of-FreshIn seen [] h = tt
Apart-of-FreshIn seen (x ∷ xs) (ne, d, h) =
    (d, Apart-tail x seen xs (Apart-of-FreshIn (x ∷ seen) xs h))

pub Distinct-of-FreshIn : (seen xs : List Text) → FreshIn seen xs → Distinct xs
Distinct-of-FreshIn seen [] h = tt
Distinct-of-FreshIn seen (x ∷ xs) (ne, d, h) = (
  not-contains-of-Apart x seen xs (Apart-of-FreshIn (x ∷ seen) xs h),
  Distinct-of-FreshIn (x ∷ seen) xs h,
)

pub named-of-FreshIn : (seen xs : List Text) → FreshIn seen xs → All (λ x. x ≢ []) xs
named-of-FreshIn seen [] h = tt
named-of-FreshIn seen (x ∷ xs) (ne, d, h) = (ne, named-of-FreshIn (x ∷ seen) xs h)

pub FreshIn-of-parts :
    (seen xs : List Text) → All (λ x. x ≢ []) xs → Apart seen xs → Distinct xs → FreshIn seen xs
FreshIn-of-parts seen [] ne a d = tt
FreshIn-of-parts seen (x ∷ xs) (ne, nes) (a, as') (d, ds) =
    (ne, a, FreshIn-of-parts (x ∷ seen) xs nes (Apart-cons x seen xs as' d) ds)
