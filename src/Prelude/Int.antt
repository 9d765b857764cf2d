-- ===== src/Prelude/Int.antt =====
-- Signed integers over the native numbers, as far as `i128` needs them: sums, differences, the order
-- and the range of a width of 128 bits.
use Prim.Native.Nat.{ℕ, zero, suc, ◌+◌, ◌-◌, ◌^◌, ◌<◌, compare, Ordering}
use mathlib.Core.Path.{◌≡◌}
use mathlib.Core.Bool.{Bool, true, false}
use mathlib.Core.Option.{Option, none, some}
use native.Mathlib.Omega.{arith}
use clove1db.Prelude.Tests.{ltb, if◌then◌else◌}

-- `negsuc n` is -(n + 1).
pub data ℤ : Type 0 where
  negsuc : ℕ → ℤ
  pos : ℕ → ℤ

-- -n
abbrev pub neg_ℕ : ℕ → ℤ
neg_ℕ zero = pos zero
neg_ℕ (suc n) = negsuc n

abbrev pub opposite : ℤ → ℤ
opposite (pos n) = neg_ℕ n
opposite (negsuc n) = pos (suc n)

-- a - b for numbers
abbrev pub sub_ℕ : ℕ → ℕ → ℤ
sub_ℕ a b = if ltb a b then negsuc (b - a - 1) else pos (a - b)

infixl 65 ◌+ℤ◌ ◌-ℤ◌
unfoldable pub ◌+ℤ◌ : ℤ → ℤ → ℤ
pos a +ℤ pos b = pos (a + b)
pos a +ℤ negsuc b = sub_ℕ a (suc b)
negsuc a +ℤ pos b = sub_ℕ b (suc a)
negsuc a +ℤ negsuc b = negsuc (suc (a + b))

unfoldable pub ◌-ℤ◌ : ℤ → ℤ → ℤ
unfolding ◌+ℤ◌
a -ℤ b = a +ℤ opposite b

unfoldable pub compare_ℤ : ℤ → ℤ → Ordering
compare_ℤ (pos a) (pos b) = compare a b
compare_ℤ (pos a) (negsuc b) = Ordering.gt
compare_ℤ (negsuc a) (pos b) = Ordering.lt
compare_ℤ (negsuc a) (negsuc b) = compare b a

abbrev pub is_below_zero : ℤ → Bool
is_below_zero (pos a) = false
is_below_zero (negsuc a) = true

-- The width of `i128`.
abbrev pub i128_half : ℕ
i128_half = 2 ^ 127

abbrev pub InRange : ℤ → Type 0
InRange (pos a) = a < i128_half
InRange (negsuc a) = a < i128_half

-- A result of `checked_add` and its like, or `None` on overflow.
abbrev pub i128_of : ℤ → Option ℤ
i128_of (pos a) = if ltb a i128_half then some (pos a) else none
i128_of (negsuc a) = if ltb a i128_half then some (negsuc a) else none

unfoldable pub checked_add_i128 : ℤ → ℤ → Option ℤ
unfolding ◌+ℤ◌
checked_add_i128 a b = i128_of (a +ℤ b)

unfoldable pub checked_sub_i128 : ℤ → ℤ → Option ℤ
unfolding ◌-ℤ◌
checked_sub_i128 a b = i128_of (a -ℤ b)

pub i128_of-InRange : (a b : ℤ) → i128_of a ≡ some b → InRange b
i128_of-InRange (pos a) (pos b) h = ground arith
i128_of-InRange (pos a) (negsuc b) h = ground arith
i128_of-InRange (negsuc a) (pos b) h = ground arith
i128_of-InRange (negsuc a) (negsuc b) h = ground arith

pub checked_sub_i128-InRange : (a b : ℤ) {v : ℤ} → checked_sub_i128 a b ≡ some v → InRange v
unfolding checked_sub_i128
checked_sub_i128-InRange a b {v} h = i128_of-InRange (a -ℤ b) v h
