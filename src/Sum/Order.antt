-- ===== src/Sum/Order.antt =====
-- The order of digits and the order of their numbers.
use clove1db.Prelude.{
  ℕ, suc, ◌+◌, ◌*◌, ◌^◌, ◌≤◌, ◌<◌, ◌≡◌, refl, true, false, List, [], ◌∷◌, length, arith,
  if◌then◌else◌,
}
use Prim.Native.Nat.{compare, Ordering}
use native.Mathlib.Nat.{pow-suc, pow-le-pow_right}
use clove1db.Sum.{compare_digits, is_smaller}
use clove1db.Sum.Digits.{number_of, AreDigits}

-- The highest digit is not zero.
unfoldable pub IsTopped : List ℕ → Type 0
IsTopped [] = ⊥
IsTopped (d ∷ []) = 1 ≤ d
IsTopped (d ∷ e ∷ digits) = IsTopped (e ∷ digits)

pub number_of-above : (digits : List ℕ) → AreDigits digits → number_of digits < 10 ^ length digits
unfolding number_of
number_of-above [] a = omega arith
number_of-above (d ∷ digits) a =
    grind (arith, a.0, number_of-above digits a.1, pow-suc 10 (length digits))

pub number_of-least :
    (digits : List ℕ) → IsTopped digits → 10 ^ length digits ≤ 10 * number_of digits
unfolding number_of IsTopped
number_of-least [] h = absurd h
number_of-least (d ∷ []) h = omega (arith, h)
number_of-least (d ∷ e ∷ digits) h =
    grind (arith, number_of-least (e ∷ digits) h, pow-suc 10 (length (e ∷ digits)))

-- What an order says of two numbers.
abbrev pub Says : Ordering → ℕ → ℕ → Type 0
Says Ordering.lt a b = a < b
Says Ordering.eq a b = a ≡ b
Says Ordering.gt a b = b < a

compare-Says : (a b : ℕ) → Says (compare a b) a b
compare-Says a b = ground arith

compare_digits-Says :
    (left right : List ℕ)
    → length left ≡ length right
    → AreDigits left
    → AreDigits right
    → Says (compare_digits left right) (number_of left) (number_of right)
unfolding compare_digits number_of
compare_digits-Says [] [] e a b = refl
compare_digits-Says [] (r ∷ right) e a b = absurd (omega (arith, e))
compare_digits-Says (d ∷ left) [] e a b = absurd (omega (arith, e))
compare_digits-Says (d ∷ left) (r ∷ right) e a b =
    go (compare_digits left right) (compare_digits-Says left right (omega (arith, e)) a.1 b.1)
  where
    go :
        (o : Ordering)
        → Says o (number_of left) (number_of right)
        → Says
            (elim o [
              | Ordering.eq ↦ compare d r
              | Ordering.lt ↦ Ordering.lt
              | Ordering.gt ↦ Ordering.gt
            ])
            (d + 10 * number_of left)
            (r + 10 * number_of right)
    go Ordering.lt h = omega (arith, h, a.0, b.0)
    go Ordering.gt h = omega (arith, h, a.0, b.0)
    go Ordering.eq h = first (compare d r) (compare-Says d r)
      where
        first :
            (o : Ordering)
            → Says o d r
            → Says o (d + 10 * number_of left) (r + 10 * number_of right)
        first Ordering.lt k = omega (arith, h, k)
        first Ordering.eq k = omega (arith, h, k)
        first Ordering.gt k = omega (arith, h, k)

≤-of_lt : {a b : ℕ} → a < b → a ≤ b
≤-of_lt h = omega (arith, h)

-- Fewer digits are less.
shorter :
    (left right : List ℕ)
    → AreDigits left
    → IsTopped right
    → length left < length right
    → number_of left < number_of right
shorter left right a q h =
    omega (arith, number_of-above left a, number_of-least right q, steps, pow-suc 10 (length left))
  where
    steps : 10 ^ suc (length left) ≤ 10 ^ length right
    steps = pow-le-pow_right (omega arith) (omega (arith, h))

-- The test on digits without zeros at the top is the order of the numbers.
pub is_smaller_iff :
    (left right : List ℕ)
    → AreDigits left
    → AreDigits right
    → IsTopped left
    → IsTopped right
    → (if is_smaller left right then number_of left else number_of right)
      ≤ (if is_smaller left right then number_of right else number_of left)
unfolding is_smaller
is_smaller_iff left right a b p q =
    by_length (compare (length left) (length right)) (compare-Says (length left) (length right))
  where
    by_length :
        (o : Ordering)
        → Says o (length left) (length right)
        → (if (elim o [
          | Ordering.lt ↦ true
          | Ordering.gt ↦ false
          | Ordering.eq ↦ elim (compare_digits left right) [ Ordering.lt ↦ true | _ ↦ false ]
        ])
            then number_of left
            else number_of right)
          ≤ (if (elim o [
            | Ordering.lt ↦ true
            | Ordering.gt ↦ false
            | Ordering.eq ↦ elim (compare_digits left right) [ Ordering.lt ↦ true | _ ↦ false ]
          ])
              then number_of right
              else number_of left)
    by_length Ordering.lt h = ≤-of_lt (shorter left right a q h)
    by_length Ordering.gt h = ≤-of_lt (shorter right left b p h)
    by_length Ordering.eq h =
        by_digits (compare_digits left right) (compare_digits-Says left right h a b)
      where
        by_digits :
            (o : Ordering)
            → Says o (number_of left) (number_of right)
            → (if (elim o [ Ordering.lt ↦ true | _ ↦ false ])
                then number_of left
                else number_of right)
              ≤ (if (elim o [ Ordering.lt ↦ true | _ ↦ false ])
                  then number_of right
                  else number_of left)
        by_digits Ordering.lt k = ≤-of_lt k
        by_digits Ordering.eq k = omega (arith, k)
        by_digits Ordering.gt k = ≤-of_lt k
