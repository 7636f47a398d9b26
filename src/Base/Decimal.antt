-- ===== src/Base/Decimal.antt =====
-- Decimal numbers: fmt's %d and strconv.Atoi on int.
use planmaxx.Base.Tests.{ltb, eqb, if◌then◌else◌, Bool-cases}
use planmaxx.Base.Text.{Text}
use planmaxx.Base.Int.{ℤ, pos, negsuc}
use Prim.Native.Nat.{ℕ, zero, suc, ◌+◌, ◌-◌, ◌*◌, ◌/◌, ◌%◌, ◌^◌, ◌≤◌, ◌<◌}
use mathlib.Core.Path.{◌≡◌}
use mathlib.Core.Logic.{inl, inr}
use mathlib.Core.Bool.{◌||◌}
use mathlib.Core.Option.{Option, none, some}
use mathlib.Core.List.{[], ◌∷◌}
use native.Mathlib.Omega.{arith}

-- One round writes the last digit in front of `out`. The fuel is at least `n`, and every round
-- but the last makes `n` smaller.
digits : ℕ → ℕ → Text → Text
digits zero n out = (b'0' + n % 10) ∷ out
digits (suc fuel) n out =
    let rest = digits fuel (n / 10) ((b'0' + n % 10) ∷ out) in
    if ltb n 10 then (b'0' + n) ∷ out else rest

pub print_nat : ℕ → Text
unfolding digits
print_nat n = digits n n []

-- fmt.Sprintf("%d", z)
unfoldable pub itoa : ℤ → Text
unfolding print_nat
itoa (pos n) = print_nat n
itoa (negsuc n) = b'-' ∷ print_nat (suc n)

-- The number that digits spell behind `n`; none on any other byte.
pub read_digits : ℕ → Text → Option ℕ
read_digits n [] = some n
read_digits n (c ∷ s) =
    if ltb c b'0' || ltb b'9' c then none else read_digits (n * 10 + (c - b'0')) s

pub read_nat : Text → Option ℕ
unfolding read_digits
read_nat [] = none
read_nat (c ∷ s) = read_digits 0 (c ∷ s)

positive : Option ℕ → Option ℤ
positive none = none
positive (some n) = if ltb n (2 ^ 63) then some (pos n) else none

negative : Option ℕ → Option ℤ
negative none = none
negative (some zero) = some (pos 0)
negative (some (suc n)) = if ltb n (2 ^ 63) then some (negsuc n) else none

-- strconv.Atoi: none stands for an error.
unfoldable pub atoi : Text → Option ℤ
unfolding read_nat positive negative
atoi [] = none
atoi (c ∷ s) =
    if eqb c b'-'
    then negative (read_nat s)
    else if eqb c b'+'
    then positive (read_nat s)
    else positive (read_nat (c ∷ s))

read_last : (n : ℕ) (out : Text) → read_digits (n / 10) ((b'0' + n % 10) ∷ out) ≡ read_digits n out
unfolding read_digits
read_last n out = ground arith

read-digits :
    (fuel n : ℕ) (out : Text) → n ≤ fuel → read_digits 0 (digits fuel n out) ≡ read_digits n out
unfolding digits
read-digits zero zero out h = unfold read_digits in ground arith
read-digits zero (suc n) out h = absurd (omega arith)
read-digits (suc fuel) n out h = elim (Bool-cases (ltb n 10)) [
  | inl small ↦ rw small (unfold read_digits in ground arith)
  | inr large ↦
      rw large (ground (arith, read-digits fuel (n / 10) ((b'0' + n % 10) ∷ out), read_last n out))
]

-- A print begins with a digit.
data StartsWithDigit : Text → Type 0 where
  starts : (c : ℕ) (s : Text) → b'0' ≤ c → StartsWithDigit (c ∷ s)

digits-StartsWithDigit : (fuel n : ℕ) (out : Text) → StartsWithDigit (digits fuel n out)
unfolding digits
digits-StartsWithDigit zero n out = starts (b'0' + n % 10) out (omega arith)
digits-StartsWithDigit (suc fuel) n out = elim (Bool-cases (ltb n 10)) [
  | inl small ↦ rw small (starts (b'0' + n) out (omega arith))
  | inr large ↦ rw large (digits-StartsWithDigit fuel (n / 10) ((b'0' + n % 10) ∷ out))
]

atoi_of_digits :
    (s : Text) (n : ℕ)
    → StartsWithDigit s
    → read_digits 0 s ≡ some n
    → n < 2 ^ 63
    → atoi s ≡ some (pos n)
unfolding atoi
atoi_of_digits _ n (starts c s h) e small = unfold read_nat positive in ground arith

-- Every int that is not negative is read back from its print.
pub atoi-itoa : (n : ℕ) → n < 2 ^ 63 → atoi (itoa (pos n)) ≡ some (pos n)
unfolding itoa read_digits
atoi-itoa n h =
    atoi_of_digits (digits n n []) n (digits-StartsWithDigit n n [])
      (read-digits n n [] (omega arith)) h
