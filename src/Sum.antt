-- ===== src/Sum.antt =====
-- Exact sums of decimal numbers: `Accumulator` of src/query/sum.rs. The digits are kept with the lowest
-- first, without zeros at either end; an `u8` or `i8` holds every step on digits.
pub mod Digits
pub mod Order
pub mod Signed
pub mod Exact
pub mod Added
pub mod Kept
pub mod Parsed
mod Examples
use clove1db.Prelude.{
  ℕ, zero, suc, ◌+◌, ◌-◌, ◌*◌, ◌/◌, ◌%◌, Bool, true, false, ◌&&◌, ◌||◌, List, [], ◌∷◌, Option, none,
  some, length, drop, max, ltb, leb, ◌==◌, if◌then◌else◌,
}
use Prim.Native.Nat.{compare, Ordering}
use clove1db.Prelude.Bytes.{Text}
use clove1db.Prelude.Results.{Result, ok, err, decimal_sum_limit, ◌>>=◌, ◌>>◌, guard, ok_or}
use clove1db.Prelude.Int.{ℤ, pos, negsuc, ◌+ℤ◌, ◌-ℤ◌, checked_sub_i128, is_below_zero}
use clove1db.Decimal.{Decimal, parse}

abbrev pub max_sum_digits : ℕ
max_sum_digits = 4096

abbrev pub max_sum_exponent : ℕ
max_sum_exponent = 4096

pub record Accumulator : Type 0 where
  pub digits : List ℕ
  pub negative : Bool
  pub power : ℤ
  pub fractional : Bool

-- `-MAX_SUM_EXPONENT..=MAX_SUM_EXPONENT`
abbrev pub in_limits : ℤ → Bool
in_limits (pos n) = leb n max_sum_exponent
in_limits (negsuc n) = ltb n max_sum_exponent

abbrev pub is_empty : List ℕ → Bool
is_empty [] = true
is_empty (d ∷ digits) = false

-- The digits of a text, the last first.
unfoldable pub low_digits : List ℕ → Text → List ℕ
low_digits acc [] = acc
low_digits acc (c ∷ s) = low_digits ((c - b'0') ∷ acc) s

unfoldable pub padded : ℕ → List ℕ → List ℕ
padded zero digits = digits
padded (suc n) digits = 0 ∷ padded n digits

unfoldable pub add_digits : ℕ → List ℕ → List ℕ → List ℕ
add_digits carry [] [] = if ltb 0 carry then carry ∷ [] else []
add_digits carry (d ∷ left) [] = (d + 0 + carry) % 10 ∷ add_digits ((d + 0 + carry) / 10) left []
add_digits carry [] (r ∷ right) = (0 + r + carry) % 10 ∷ add_digits ((0 + r + carry) / 10) [] right
add_digits carry (d ∷ left) (r ∷ right) =
    (d + r + carry) % 10 ∷ add_digits ((d + r + carry) / 10) left right

-- The digit and the borrow of `d - (r + borrow)`.
abbrev pub digit_less : ℕ → ℕ → ℕ
digit_less d n = if ltb d n then d + 10 - n else d - n

abbrev pub borrow_of : ℕ → ℕ → ℕ
borrow_of d n = if ltb d n then 1 else 0

unfoldable pub sub_digits : ℕ → List ℕ → List ℕ → List ℕ
sub_digits borrow [] right = []
sub_digits borrow (d ∷ left) [] =
    digit_less d (0 + borrow) ∷ sub_digits (borrow_of d (0 + borrow)) left []
sub_digits borrow (d ∷ left) (r ∷ right) =
    digit_less d (r + borrow) ∷ sub_digits (borrow_of d (r + borrow)) left right

-- The order of as many digits, the highest first.
unfoldable pub compare_digits : List ℕ → List ℕ → Ordering
compare_digits (d ∷ left) (r ∷ right) = elim (compare_digits left right) [
  | Ordering.eq ↦ compare d r
  | Ordering.lt ↦ Ordering.lt
  | Ordering.gt ↦ Ordering.gt
]
compare_digits [] right = Ordering.eq
compare_digits (d ∷ left) [] = Ordering.eq

-- Whether the left is the smaller one: by length, then by the digits.
unfoldable pub is_smaller : List ℕ → List ℕ → Bool
unfolding compare_digits
is_smaller left right = elim (compare (length left) (length right)) [
  | Ordering.lt ↦ true
  | Ordering.gt ↦ false
  | Ordering.eq ↦ elim (compare_digits left right) [ Ordering.lt ↦ true | _ ↦ false ]
]

-- Without the zeros at the top.
unfoldable pub popped : List ℕ → List ℕ
popped [] = []
popped (d ∷ digits) = let rest = popped digits in if (d == 0) && is_empty rest then [] else d ∷ rest

unfoldable pub low_zeros : List ℕ → ℕ
low_zeros [] = 0
low_zeros (d ∷ digits) = let rest = low_zeros digits in if d == 0 then suc rest else 0

-- The sum of two numbers with signs; the sign of the first where they are equal.
unfoldable pub combined : Bool → List ℕ → Bool → List ℕ → Bool × List ℕ
unfolding add_digits sub_digits is_smaller
combined false left false right = (false, add_digits 0 left right)
combined true left true right = (true, add_digits 0 left right)
combined false left true right =
    if is_smaller left right
    then (true, sub_digits 0 right left)
    else (false, sub_digits 0 left right)
combined true left false right =
    if is_smaller left right
    then (false, sub_digits 0 right left)
    else (true, sub_digits 0 left right)

-- `usize::try_from`
abbrev pub usize_of : ℤ → Option ℕ
usize_of (pos n) = some n
usize_of (negsuc n) = none

abbrev pub min_ℤ : ℤ → ℤ → ℤ
min_ℤ a b = if is_below_zero (a -ℤ b) then a else b

-- The digits and the power without zeros at the ends.
unfoldable pub settled : Bool → ℤ → Bool → List ℕ → Accumulator
unfolding popped low_zeros ◌+ℤ◌
settled negative common fractional digits =
    let top = popped digits in
    record {
      digits = drop (low_zeros top) top;
      negative = negative;
      power = common +ℤ pos (low_zeros top);
      fractional = fractional;
    }

unfoldable pub add_right : Accumulator → Bool → ℤ → List ℕ → Result Accumulator
unfolding padded combined settled ◌-ℤ◌
add_right a negative power right = do
  let common = min_ℤ a.power power
  left_padding ← ok_or (usize_of (a.power -ℤ common)) decimal_sum_limit
  right_padding ← ok_or (usize_of (power -ℤ common)) decimal_sum_limit
  guard (leb (max (length a.digits + left_padding) (length right + right_padding)) max_sum_digits)
      decimal_sum_limit
  let sum = combined a.negative (padded left_padding a.digits) negative (padded right_padding right)
  let next = settled sum.0 common a.fractional sum.1
  guard (leb (length next.digits) max_sum_digits) decimal_sum_limit
  ok next

-- The first number is taken as it is.
unfoldable pub add_digits_of : Accumulator → Bool → ℤ → List ℕ → Result Accumulator
unfolding add_right
add_digits_of a negative power right =
    if is_empty a.digits
    then ok (record a { digits = right; power = power; negative = negative })
    else add_right a negative power right

unfoldable pub add_nonzero : Accumulator → Decimal → Result Accumulator
unfolding low_digits add_digits_of
add_nonzero a value = do
  power ← ok_or (checked_sub_i128 value.exponent (pos (length value.digits))) decimal_sum_limit
  guard (in_limits power && leb (length value.digits) max_sum_digits) decimal_sum_limit
  add_digits_of (record a { fractional = a.fractional || is_below_zero power }) value.negative power
      (low_digits [] value.digits)

-- After the number is read.
unfoldable pub add_decimal : Accumulator → Decimal → Result Accumulator
unfolding add_nonzero
add_decimal a value = if is_empty value.digits then ok a else add_nonzero a value

-- `Accumulator::add`
unfoldable pub add : (Text → Result Text) → Accumulator → Text → Result Accumulator
unfolding parse add_decimal
add raw_value a token = do value ← parse raw_value token; add_decimal a value
