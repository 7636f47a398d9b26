-- ===== src/Base/Find.antt =====
-- strings.Index and strings.HasPrefix: where a text stands in another.
use planmaxx.Base.{
  ℕ, zero, suc, ◌+◌, ◌-◌, ◌≤◌, ◌<◌, ◌≡◌, ◌≢◌, refl, sym, ◌∙◌, ap, inl, inr, ◌⊎◌, true, false, none,
  some, List, [], ◌∷◌, arith, length, drop,
}
use planmaxx.Base.Text.{Text, has_prefix, index, cut_prefix}

-- A text stands at an offset.
abbrev pub Stands : Text → Text → ℕ → Type 0
Stands base e p = has_prefix (drop p base) e ≡ true

drop-nil {ℓ} : {A : Type ℓ} (n : ℕ) → drop {A = A} n [] ≡ []
drop-nil zero = refl
drop-nil (suc n) = refl

pub drop-drop {ℓ} : {A : Type ℓ} (a b : ℕ) (xs : List A) → drop b (drop a xs) ≡ drop (a + b) xs
drop-drop zero b xs = ap (λ n. drop n xs) (omega arith)
drop-drop (suc a) b [] = drop-nil b ∙ sym (drop-nil (suc a + b))
drop-drop (suc a) b (x ∷ xs) =
    let same : suc (a + b) ≡ suc a + b = omega arith in
    drop-drop a b xs ∙ ap (λ n. drop n (x ∷ xs)) same

before-suc :
    (c : ℕ) (s e : Text) (k : ℕ)
    → has_prefix (c ∷ s) e ≡ false
    → ((j : ℕ) → j < k → has_prefix (drop j s) e ≡ false)
    → (j : ℕ) → j < suc k
    → has_prefix (drop j (c ∷ s)) e ≡ false
before-suc c s e k miss first zero lo = miss
before-suc c s e k miss first (suc j) lo = first j (omega arith)

-- index yields the first place.
index-cons :
    (c : ℕ) (s e : Text) (i : ℕ)
    → index (c ∷ s) e ≡ some i
    → (Stands (c ∷ s) e 0 × (i ≡ 0))
      ⊎ ((has_prefix (c ∷ s) e ≡ false) × ((k : ℕ) × (index s e ≡ some k) × (i ≡ suc k)))
unfolding index
index-cons c s e i h = ground arith

pub index-some :
    (s e : Text) (i : ℕ)
    → index s e ≡ some i
    → Stands s e i × ((j : ℕ) → j < i → has_prefix (drop j s) e ≡ false)
index-some [] e i h = unfold index in ground arith
index-some (c ∷ s) e i h = elim (index-cons c s e i h) [
  | inl (here, z) ↦ rw z (here, λ j lo. absurd (omega arith))
  | inr (miss, (k, at, z)) ↦
      let (stands, first) = index-some s e k at in
      rw z (stands, λ j lo. before-suc c s e k miss first j lo)
]

pub index-none : (s e : Text) → index s e ≡ none → (j : ℕ) → has_prefix (drop j s) e ≡ false
unfolding index
index-none [] e h zero = ground arith
index-none [] e h (suc j) = ground arith
index-none (c ∷ s) e h zero = ground arith
index-none (c ∷ s) e h (suc j) = index-none s e (ground arith) j

pub has_prefix-long : (s e : Text) → has_prefix s e ≡ true → length e ≤ length s
unfolding has_prefix cut_prefix
has_prefix-long s [] h = omega arith
has_prefix-long [] (x ∷ e) h = cc
has_prefix-long (c ∷ s) (x ∷ e) h = ground (arith, has_prefix-long s e)

pub length-drop {ℓ} : {A : Type ℓ} (n : ℕ) (xs : List A) → length (drop n xs) ≡ length xs - n
length-drop zero xs = omega arith
length-drop (suc n) [] = omega arith
length-drop (suc n) (x ∷ xs) = omega (arith, length-drop n xs)

-- An expected text that is not empty stands inside the base.
pub Stands-inside :
    (base e : Text) (p : ℕ)
    → e ≢ []
    → Stands base e p
    → (p < length base) × (p + length e ≤ length base)
Stands-inside base [] p ne h = absurd (ne refl)
Stands-inside base (x ∷ e) p ne h =
    let long = has_prefix-long (drop p base) (x ∷ e) h in
    let rest = length-drop p base in (omega arith, omega arith)
