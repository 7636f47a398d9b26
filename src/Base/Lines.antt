-- ===== src/Base/Lines.antt =====
-- Lines of a text: splitting at newlines, joining, and counting.
use native.Mathlib.Numerals.{add-one}
use planmaxx.Base.{
  ℕ, zero, suc, ◌+◌, ◌≤◌, ◌<◌, ◌≡◌, ◌≢◌, refl, sym, subst, ◌∙◌, ap, inl, inr, true, false, List, [],
  ◌∷◌, ◌++◌, append_assoc, arith, All, length, take, drop, Bool-cases, eqb,
}
use planmaxx.Base.Text.{Text, newline, split_lines, join_lines, count_newlines, add_to_first}

add_to_first-join :
    (c : ℕ) (ls : List Text) → ls ≢ [] → join_lines (add_to_first c ls) ≡ c ∷ join_lines ls
unfolding join_lines
add_to_first-join c [] ne = absurd (ne refl)
add_to_first-join c (l ∷ []) ne = refl
add_to_first-join c (l ∷ m ∷ ls) ne = refl

split_newline : (c : ℕ) (s : Text) → eqb c newline ≡ true → split_lines (c ∷ s) ≡ [] ∷ split_lines s
unfolding split_lines
split_newline c s e = ground (arith, e)

split_other :
    (c : ℕ) (s : Text)
    → eqb c newline ≡ false
    → split_lines (c ∷ s) ≡ add_to_first c (split_lines s)
unfolding split_lines
split_other c s e = ground (arith, e)

add_to_first-ne-nil : (c : ℕ) (ls : List Text) → add_to_first c ls ≢ []
add_to_first-ne-nil c [] = λ e. cc
add_to_first-ne-nil c (l ∷ ls) = λ e. cc

pub split_lines-ne-nil : (s : Text) → split_lines s ≢ []
split_lines-ne-nil [] = unfold split_lines in λ e. cc
split_lines-ne-nil (c ∷ s) = elim (Bool-cases (eqb c newline)) [
  | inl e ↦ rw (split_newline c s e) (λ x. cc)
  | inr e ↦ rw (split_other c s e) (add_to_first-ne-nil c (split_lines s))
]

join_first-nil : (ls : List Text) → ls ≢ [] → join_lines ([] ∷ ls) ≡ newline ∷ join_lines ls
unfolding join_lines
join_first-nil [] ne = absurd (ne refl)
join_first-nil (l ∷ ls) ne = refl

-- Joining the lines of a text gives the text back.
pub join-split : (s : Text) → join_lines (split_lines s) ≡ s
join-split [] = unfold split_lines join_lines in refl
join-split (c ∷ s) = ground (
  arith,
  split_newline c s,
  split_other c s,
  join_first-nil (split_lines s) (split_lines-ne-nil s),
  add_to_first-join c (split_lines s) (split_lines-ne-nil s),
  join-split s,
)

length-add_to_first : (c : ℕ) (ls : List Text) → ls ≢ [] → length (add_to_first c ls) ≡ length ls
length-add_to_first c [] ne = absurd (ne refl)
length-add_to_first c (l ∷ ls) ne = refl

-- There is one line more than there are newlines.
pub length-split : (s : Text) → length (split_lines s) ≡ suc (count_newlines s)
unfolding count_newlines
length-split [] = unfold split_lines in refl
length-split (c ∷ s) = elim (Bool-cases (eqb c newline)) [
  | inl e ↦ rw (split_newline c s e, e) (omega (arith, length-split s))
  | inr e ↦
      rw (split_other c s e, e)
        (omega
          (arith, length-add_to_first c (split_lines s) (split_lines-ne-nil s), length-split s))
]

abbrev pub IsLine : Text → Type 0
IsLine l = count_newlines l ≡ 0

add_to_first-IsLine :
    (c : ℕ) (ls : List Text)
    → eqb c newline ≡ false
    → All IsLine ls
    → All IsLine (add_to_first c ls)
unfolding count_newlines
add_to_first-IsLine c [] e h = (ground arith, tt)
add_to_first-IsLine c (l ∷ ls) e (h, hs) = (ground arith, hs)

pub split-IsLine : (s : Text) → All IsLine (split_lines s)
split-IsLine [] = unfold split_lines count_newlines in (refl, tt)
split-IsLine (c ∷ s) = elim (Bool-cases (eqb c newline)) [
  | inl e ↦ rw (split_newline c s e) (unfold count_newlines in refl, split-IsLine s)
  | inr e ↦ rw (split_other c s e) (add_to_first-IsLine c (split_lines s) e (split-IsLine s))
]

pub count-append : (s t : Text) → count_newlines (s ++ t) ≡ count_newlines s + count_newlines t
unfolding count_newlines
count-append [] t = omega arith
count-append (c ∷ s) t = omega (arith, count-append s t)

count-newline : (s : Text) → count_newlines (newline ∷ s) ≡ suc (count_newlines s)
unfolding count_newlines
count-newline s = omega arith

count-nil : count_newlines [] ≡ 0
unfolding count_newlines
count-nil = refl

pub count-join :
    (l : Text) (ls : List Text)
    → All IsLine (l ∷ ls)
    → count_newlines (join_lines (l ∷ ls)) ≡ length ls
unfolding join_lines
count-join l [] (h, _) = h
count-join l (m ∷ ls) (h, hs) = omega (
  arith,
  count-append l (newline ∷ join_lines (m ∷ ls)),
  count-newline (join_lines (m ∷ ls)),
  count-join m ls hs,
)

-- A text cut behind its first lines.
pub join-cut :
    (k : ℕ) (l : Text) (ls : List Text)
    → k < length ls
    → join_lines (l ∷ ls)
      ≡ (join_lines (take (suc k) (l ∷ ls)) ++ newline ∷ join_lines (drop (suc k) (l ∷ ls)))
unfolding join_lines
join-cut k l [] h = absurd (omega arith)
join-cut zero l (m ∷ ls) h = refl
join-cut (suc k) l (m ∷ ls) h =
    ap (λ (x : Text). l ++ newline ∷ x) (join-cut k m ls (omega arith))
    ∙ sym (
        append_assoc l (newline ∷ join_lines (take (suc k) (m ∷ ls)))
          (newline ∷ join_lines (drop (suc k) (m ∷ ls))))

pub All-take {ℓ κ} :
    {A : Type ℓ} (P : A → Type κ) (n : ℕ) (xs : List A) → All P xs → All P (take n xs)
All-take P zero xs h = tt
All-take P (suc n) [] h = tt
All-take P (suc n) (x ∷ xs) (h, hs) = (h, All-take P n xs hs)

pub take_through {ℓ} :
    {A : Type ℓ} (xs ys : List A) (y : A) → take (length xs + 1) (xs ++ y ∷ ys) ≡ xs ++ y ∷ []
take_through [] ys y = refl
take_through (x ∷ xs) ys y = rw add-one (
    ap (λ l. x ∷ l)
      (ap (λ n. take n (xs ++ y ∷ ys)) (sym (add-one (length xs))) ∙ take_through xs ys y))

pub length-take_le {ℓ} : {A : Type ℓ} (n : ℕ) (xs : List A) → n ≤ length xs → length (take n xs) ≡ n
length-take_le zero xs h = refl
length-take_le (suc n) [] h = absurd (omega arith)
length-take_le (suc n) (x ∷ xs) h = ap suc (length-take_le n xs (omega arith))

-- The bytes before the line with a number hold as many newlines.
count-before_join :
    (k : ℕ) (ls : List Text)
    → All IsLine ls
    → suc k < length ls
    → count_newlines (take (length (join_lines (take (suc k) ls)) + 1) (join_lines ls)) ≡ suc k
count-before_join k [] v h = absurd (omega arith)
count-before_join k (l ∷ ls) v h =
    let before = join_lines (l ∷ take k ls) in
    rw (join-cut k l ls (omega arith), take_through before (join_lines (drop k ls)) newline)
      (omega (
        arith,
        count-append before (newline ∷ []),
        count-newline [],
        count-join l (take k ls) (v.0, All-take IsLine k ls v.1),
        length-take_le k ls (omega arith),
        count-nil,
      ))

pub count-before :
    (k : ℕ) (s : Text)
    → suc k < length (split_lines s)
    → count_newlines (take (length (join_lines (take (suc k) (split_lines s))) + 1) s) ≡ suc k
count-before k s h =
    let n = length (join_lines (take (suc k) (split_lines s))) + 1 in
    subst (λ x. count_newlines (take n x) ≡ suc k) (join-split s)
      (count-before_join k (split_lines s) (split-IsLine s) h)
