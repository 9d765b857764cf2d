-- ===== src/Sum/Exact.antt =====
-- Additions of digits with signs, and the units they are counted in.
use clove1db.Prelude.{
  ℕ, zero, suc, ◌+◌, ◌*◌, ◌^◌, ◌≤◌, ◌≡◌, sym, ◌∙◌, ap, Bool, true, false, List, [], ◌∷◌, Option,
  none, some, length, drop, max, leb, if◌then◌else◌, arith,
}
use clove1db.Prelude.Results.{ok, ok-injective, decimal_sum_limit, ok_or, guard, >>=-eq-ok}
use clove1db.Prelude.Int.{ℤ, pos, neg_ℕ, ◌+ℤ◌, ◌-ℤ◌}
use clove1db.Decimal.Digits.{ok_or-eq-ok}
use clove1db.Sum.Signed.{signed, neg_add, below, above, add_neg, add_sub}
use clove1db.Sum.{
  Accumulator, padded, sub_digits, is_smaller, combined, usize_of, min_ℤ, popped, low_zeros,
  settled, add_right, max_sum_digits,
}
use clove1db.Sum.Digits.{
  number_of, AreDigits, number_of-add_digits, number_of-sub_digits, number_of-padded,
  number_of-popped, number_of-low_zeros,
}
use clove1db.Sum.Order.{IsTopped, is_smaller_iff}

abbrev either : Bool → Bool × List ℕ → Bool × List ℕ → Bool × List ℕ
either smaller x y = if smaller then x else y

-- A difference, with the larger one first.
difference :
    (left right : List ℕ) (smaller : Bool)
    → AreDigits left
    → AreDigits right
    → (if smaller then number_of left else number_of right)
      ≤ (if smaller then number_of right else number_of left)
    → signed (either smaller (true, sub_digits 0 right left) (false, sub_digits 0 left right)).0 (
        number_of
          (either smaller (true, sub_digits 0 right left) (false, sub_digits 0 left right)).1)
      ≡ pos (number_of left) +ℤ neg_ℕ (number_of right)
difference left right true a b h =
    below (number_of left) (number_of right) (number_of (sub_digits 0 right left))
      (omega (arith, number_of-sub_digits 0 right left b a (omega arith) (omega (arith, h))))
difference left right false a b h =
    above (number_of left) (number_of right) (number_of (sub_digits 0 left right))
      (omega (arith, number_of-sub_digits 0 left right a b (omega arith) (omega (arith, h))))

negated :
    (left right : List ℕ) (smaller : Bool)
    → AreDigits left
    → AreDigits right
    → (if smaller then number_of left else number_of right)
      ≤ (if smaller then number_of right else number_of left)
    → signed (either smaller (false, sub_digits 0 right left) (true, sub_digits 0 left right)).0 (
        number_of
          (either smaller (false, sub_digits 0 right left) (true, sub_digits 0 left right)).1)
      ≡ neg_ℕ (number_of left) +ℤ pos (number_of right)
negated left right true a b h =
    above (number_of right) (number_of left) (number_of (sub_digits 0 right left))
      (omega (arith, number_of-sub_digits 0 right left b a (omega arith) (omega (arith, h))))
    ∙ sym (add_neg (number_of left) (number_of right))
negated left right false a b h =
    below (number_of right) (number_of left) (number_of (sub_digits 0 left right))
      (omega (arith, number_of-sub_digits 0 left right a b (omega arith) (omega (arith, h))))
    ∙ sym (add_neg (number_of left) (number_of right))

-- The sum of two numbers with signs is exact.
pub combined-exact :
    (l : Bool) (left : List ℕ) (r : Bool) (right : List ℕ)
    → AreDigits left
    → AreDigits right
    → IsTopped left
    → IsTopped right
    → signed (combined l left r right).0 (number_of (combined l left r right).1)
      ≡ signed l (number_of left) +ℤ signed r (number_of right)
unfolding combined ◌+ℤ◌
combined-exact false left false right a b p q =
    ap pos (number_of-add_digits 0 left right ∙ omega arith)
combined-exact true left true right a b p q =
    ap neg_ℕ (number_of-add_digits 0 left right ∙ omega arith)
    ∙ neg_add (number_of left) (number_of right)
combined-exact false left true right a b p q =
    difference left right (is_smaller left right) a b (is_smaller_iff left right a b p q)
combined-exact true left false right a b p q =
    negated left right (is_smaller left right) a b (is_smaller_iff left right a b p q)

padded-IsTopped : (n : ℕ) (digits : List ℕ) → IsTopped digits → IsTopped (padded n digits)
unfolding padded IsTopped
padded-IsTopped zero digits h = h
padded-IsTopped (suc n) [] h = absurd h
padded-IsTopped (suc zero) (d ∷ digits) h = h
padded-IsTopped (suc (suc n)) (d ∷ digits) h = padded-IsTopped (suc n) (d ∷ digits) h

pub padded-AreDigits : (n : ℕ) (digits : List ℕ) → AreDigits digits → AreDigits (padded n digits)
unfolding padded
padded-AreDigits zero digits a = a
padded-AreDigits (suc n) digits a = (omega arith, padded-AreDigits n digits a)

-- How many zeros a number with the power `p` has above the power `q`.
abbrev pub or_zero : Option ℕ → ℕ
or_zero none = 0
or_zero (some n) = n

abbrev pub gap : ℤ → ℤ → ℕ
gap p q = or_zero (usize_of (p -ℤ q))

-- The number with the given digits and power, in units of the power `q`.
abbrev pub value_at : ℤ → Bool → List ℕ → ℤ → ℤ
value_at q negative digits power = signed negative (number_of digits * 10 ^ gap power q)

settled-value_at :
    (negative : Bool) (common : ℤ) (fractional : Bool) (digits : List ℕ)
    → (let a : Accumulator = settled negative common fractional digits in
        value_at common a.negative a.digits a.power)
      ≡ signed negative (number_of digits)
unfolding settled
settled-value_at negative common fractional digits =
    ap
      (λ z.
        signed negative (
          number_of (drop (low_zeros (popped digits)) (popped digits)) * 10 ^ or_zero (usize_of z)))
      (add_sub common (low_zeros (popped digits)))
    ∙ ap (signed negative) (number_of-low_zeros (popped digits) ∙ number_of-popped digits)

pub add_right-value_at :
    (a b : Accumulator) (negative : Bool) (power : ℤ) (right : List ℕ)
    → AreDigits a.digits
    → IsTopped a.digits
    → AreDigits right
    → IsTopped right
    → add_right a negative power right ≡ ok b
    → value_at (min_ℤ a.power power) b.negative b.digits b.power
      ≡ value_at (min_ℤ a.power power) a.negative a.digits a.power
        +ℤ value_at (min_ℤ a.power power) negative right power
unfolding add_right ◌-ℤ◌
add_right-value_at a b negative power right da ta dr tr h =
    let common = min_ℤ a.power power in
    let (lp, hl, h1) = >>=-eq-ok (ok_or (usize_of (a.power -ℤ common)) decimal_sum_limit) _ h in
    let (rp, hr, h2) = >>=-eq-ok (ok_or (usize_of (power -ℤ common)) decimal_sum_limit) _ h1 in
    let (x, g, h3) =
      >>=-eq-ok
        (guard (leb (max (length a.digits + lp) (length right + rp)) max_sum_digits)
          decimal_sum_limit)
        _ h2 in
    let sum : Bool × List ℕ = combined a.negative (padded lp a.digits) negative (padded rp right) in
    let next : Accumulator = settled sum.0 common a.fractional sum.1 in
    let (y, g2, h4) =
      >>=-eq-ok (guard (leb (length next.digits) max_sum_digits) decimal_sum_limit) _ h3 in
    let left_gap : gap a.power common ≡ lp =
      ap or_zero (ok_or-eq-ok (usize_of (a.power -ℤ common)) decimal_sum_limit hl) in
    let right_gap : gap power common ≡ rp =
      ap or_zero (ok_or-eq-ok (usize_of (power -ℤ common)) decimal_sum_limit hr) in
    ap (λ c. value_at common c.negative c.digits c.power) (sym (ok-injective h4))
    ∙ settled-value_at sum.0 common a.fractional sum.1
    ∙ combined-exact a.negative (padded lp a.digits) negative (padded rp right)
        (padded-AreDigits lp a.digits da) (padded-AreDigits rp right dr)
        (padded-IsTopped lp a.digits ta) (padded-IsTopped rp right tr)
    ∙ ap (λ n. signed a.negative n +ℤ signed negative (number_of (padded rp right)))
        (number_of-padded lp a.digits ∙ ap (λ n. number_of a.digits * 10 ^ n) (sym left_gap))
    ∙ ap
        (λ n. signed a.negative (number_of a.digits * 10 ^ gap a.power common) +ℤ signed negative n)
        (number_of-padded rp right ∙ ap (λ n. number_of right * 10 ^ n) (sym right_gap))
