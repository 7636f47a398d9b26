-- ===== src/Base/Int.antt =====
-- Go's int: a signed 64-bit number. Values are integers; `to_int` wraps a result around.
use planmaxx.Base.Tests.{ltb, leb, eqb, if◌then◌else◌, Comparable}
use Prim.Native.Nat.{ℕ, suc, ◌+◌, ◌-◌, ◌%◌, ◌^◌, ◌≤◌, ◌<◌}
use mathlib.Core.Path.{◌≡◌}
use mathlib.Core.Logic.{◌↔◌}
use mathlib.Core.Bool.{Bool, true}
use native.Mathlib.Omega.{arith}

-- `negsuc n` is -(n + 1).
pub data ℤ : Type 0 where
  pos : ℕ → ℤ
  negsuc : ℕ → ℤ

abbrev pub pos_part : ℤ → ℕ
pos_part (pos n) = n
pos_part (negsuc n) = 0

abbrev pub neg_part : ℤ → ℕ
neg_part (pos n) = 0
neg_part (negsuc n) = suc n

abbrev pub sub_ℕ : ℕ → ℕ → ℤ
sub_ℕ a b = if leb b a then pos (a - b) else negsuc (b - a - 1)

-- The residue modulo 2 ^ 64.
abbrev pub residue : ℤ → ℕ
residue (pos n) = n % 2 ^ 64
residue (negsuc n) = 2 ^ 64 - 1 - n % 2 ^ 64

abbrev pub of_residue : ℕ → ℤ
of_residue u = if ltb u (2 ^ 63) then pos u else negsuc (2 ^ 64 - 1 - u)

unfoldable pub to_int : ℤ → ℤ
to_int z = of_residue (residue z)

infixl 65 ◌+ℤ◌ ◌-ℤ◌
infix 50 ◌≤ℤ◌ ◌<ℤ◌
-- `+` and `-` of int: they wrap around.
unfoldable pub ◌+ℤ◌ : ℤ → ℤ → ℤ
unfolding to_int
a +ℤ b = to_int (sub_ℕ (pos_part a + pos_part b) (neg_part a + neg_part b))

unfoldable pub ◌-ℤ◌ : ℤ → ℤ → ℤ
unfolding to_int
a -ℤ b = to_int (sub_ℕ (pos_part a + neg_part b) (neg_part a + pos_part b))

abbrev pub ◌≤ℤ◌ : ℤ → ℤ → Type 0
a ≤ℤ b = pos_part a + neg_part b ≤ pos_part b + neg_part a

abbrev pub ◌<ℤ◌ : ℤ → ℤ → Type 0
a <ℤ b = pos_part a + neg_part b < pos_part b + neg_part a

abbrev pub ltb_ℤ : ℤ → ℤ → Bool
ltb_ℤ a b = ltb (pos_part a + neg_part b) (pos_part b + neg_part a)

abbrev pub leb_ℤ : ℤ → ℤ → Bool
leb_ℤ a b = leb (pos_part a + neg_part b) (pos_part b + neg_part a)

abbrev pub eqb_ℤ : ℤ → ℤ → Bool
eqb_ℤ a b = eqb (pos_part a + neg_part b) (pos_part b + neg_part a)

pub eqb_ℤ_iff : (a b : ℤ) → (eqb_ℤ a b ≡ true) ↔ (a ≡ b)
eqb_ℤ_iff a b = ground arith

instance abbrev pub int_comparable : Comparable ℤ
int_comparable = record { same = eqb_ℤ; same_iff = eqb_ℤ_iff }

-- The values of the type.
abbrev pub InRange : ℤ → Type 0
InRange z = (pos_part z < 2 ^ 63) × (neg_part z ≤ 2 ^ 63)

-- The built-in min and max.
abbrev pub min : ℤ → ℤ → ℤ
min a b = if leb_ℤ a b then a else b

abbrev pub max : ℤ → ℤ → ℤ
max a b = if leb_ℤ a b then b else a

-- Within range nothing wraps.
pub to_int_self : (z : ℤ) → InRange z → to_int z ≡ z
unfolding to_int
to_int_self z h = ground arith

pub to_int-InRange : (z : ℤ) → InRange (to_int z)
unfolding to_int
to_int-InRange z = ground arith
