-- ===== src/Sectioniter/Proposal/Shift.antt =====
-- The arithmetic of the variable byteShift of BuildProposal, and the bytes behind a prefix.
use mathlib.Core.Path.{ap₂}
use planmaxx.Base.{
  ℕ, suc, ◌+◌, ◌-◌, ◌≤◌, ◌<◌, ◌^◌, ◌≡◌, refl, sym, ap, ◌∙◌, [], ◌∷◌, ◌++◌, length, take, drop,
  arith,
}
use planmaxx.Base.Int.{pos, sub_ℕ, ◌+ℤ◌, ◌-ℤ◌, to_int}
use planmaxx.Base.Text.{Text}
use planmaxx.Base.Find.{length-drop}
use planmaxx.Base.Lines.{length-take_le}
use planmaxx.Patches.Hunks.{bytes}

abbrev pub limit : ℕ
limit = 2 ^ 61

-- Between numbers below the limit nothing wraps around.
pub start_lem : (a p f : ℕ) → f ≤ a → a < limit → p < limit → pos a +ℤ sub_ℕ p f ≡ pos (a - f + p)
unfolding ◌+ℤ◌ to_int
start_lem a p f h ha hp = ground arith

pub end_lem : (a b : ℕ) → a < limit → b < limit → pos a +ℤ pos b ≡ pos (a + b)
unfolding ◌+ℤ◌ to_int
end_lem a b ha hb = ground arith

minus_lem : (a b : ℕ) → b ≤ a → a < limit → pos a -ℤ pos b ≡ pos (a - b)
unfolding ◌-ℤ◌ to_int
minus_lem a b h ha = ground arith

difference_lem : (a b : ℕ) → a < limit → b < limit → pos a -ℤ pos b ≡ sub_ℕ a b
unfolding ◌-ℤ◌ to_int
difference_lem a b ha hb = ground arith

add_lem :
    (p f l k : ℕ)
    → p < limit
    → f < limit
    → l < limit
    → k < limit
    → sub_ℕ p f +ℤ sub_ℕ l k ≡ sub_ℕ (p + l) (f + k)
unfolding ◌+ℤ◌ to_int
add_lem p f l k hp hf hl hk = ground arith

cancel_lem : (a b c : ℕ) → sub_ℕ (a + c) (b + c) ≡ sub_ℕ a b
cancel_lem a b c = ground arith

pub shift_lem :
    (p f l s e : ℕ)
    → f ≤ s
    → s ≤ e
    → e < limit
    → p < limit
    → l < limit
    → sub_ℕ p f +ℤ (pos l -ℤ (pos e -ℤ pos s)) ≡ sub_ℕ (p + (s - f) + l) e
shift_lem p f l s e lo mid he hp hl =
    ap (λ k. sub_ℕ p f +ℤ (pos l -ℤ k)) (minus_lem e s mid he)
    ∙ ap (λ k. sub_ℕ p f +ℤ k) (difference_lem l (e - s) hl (omega arith))
    ∙ add_lem p f l (e - s) hp (omega arith) hl (omega arith)
    ∙ sym (cancel_lem (p + l) (f + (e - s)) (s - f))
    ∙ ap₂ sub_ℕ (omega arith) (omega arith)

-- Behind a prefix the list goes on.
drop-prefix : (xs ys : Text) (n : ℕ) → drop (length xs + n) (xs ++ ys) ≡ drop n ys
drop-prefix [] ys n = let same : 0 + n ≡ n = omega arith in ap (λ k. drop k ys) same
drop-prefix (x ∷ xs) ys n =
    let next : suc (length xs) + n ≡ suc (length xs + n) = omega arith in
    ap (λ k. drop k (x ∷ (xs ++ ys))) next ∙ drop-prefix xs ys n

take-prefix : (xs ys : Text) → take (length xs) (xs ++ ys) ≡ xs
take-prefix [] ys = refl
take-prefix (x ∷ xs) ys = ap (λ l. x ∷ l) (take-prefix xs ys)

pub bytes-middle :
    (a c d : Text) (i j : ℕ)
    → i ≡ length a
    → j ≡ length a + length c
    → bytes (a ++ (c ++ d)) i j ≡ c
bytes-middle a c d i j hi hj =
    let size : j - i ≡ length c = omega arith in
    let place : i ≡ length a + 0 = omega arith in
    ap (λ n. take n (drop i (a ++ (c ++ d)))) size
    ∙ ap (λ k. take (length c) (drop k (a ++ (c ++ d)))) place
    ∙ ap (take (length c)) (drop-prefix a (c ++ d) 0)
    ∙ take-prefix c d

pub length-bytes :
    (base : Text) (a b : ℕ) → a ≤ b → b ≤ length base → length (bytes base a b) ≡ b - a
length-bytes base a b h k = length-take_le (b - a) (drop a base) (omega (arith, length-drop a base))
