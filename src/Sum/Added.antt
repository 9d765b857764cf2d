-- ===== src/Sum/Added.antt =====
-- The value of a sum before and after `Accumulator::add` (src/query/sum.rs).
use clove1db.Prelude.{
  ℕ, ◌-◌, ◌≤◌, ◌≡◌, refl, sym, ◌∙◌, ap, ◌⊎◌, inl, inr, Bool, false, ◌&&◌, ◌||◌, List, [], ◌∷◌, some,
  if◌then◌else◌, length, All, ltb, leb, arith, Bool-cases,
}
use mathlib.Core.Path.{subst}
use clove1db.Prelude.Bytes.{Text}
use clove1db.Prelude.Results.{ok, ok-injective, decimal_sum_limit, ok_or, guard, >>=-eq-ok}
use clove1db.Prelude.Options.{some-eq, none-ne}
use clove1db.Prelude.Int.{
  ℤ, pos, negsuc, ◌+ℤ◌, ◌-ℤ◌, checked_sub_i128, i128_of, i128_half, is_below_zero,
}
use clove1db.Decimal.{Decimal}
use clove1db.Decimal.Digits.{ok_or-eq-ok, IsDigit}
use clove1db.Sum.{
  Accumulator, low_digits, is_empty, in_limits, max_sum_digits, min_ℤ, add_right, add_digits_of,
  add_nonzero, add_decimal,
}
use clove1db.Sum.Digits.{number_of, AreDigits}
use clove1db.Sum.Order.{IsTopped}
use clove1db.Sum.Signed.{signed, add_zero, zero_add, signed_zero}
use clove1db.Sum.Exact.{value_at, add_right-value_at}

-- Digits without a zero at the top, or none.
abbrev pub IsTidy : List ℕ → Type 0
IsTidy digits = AreDigits digits × ((digits ≡ []) ⊎ IsTopped digits)

-- A number as it is read: digits, and the first is not zero.
abbrev pub IsRead : Text → Type 0
IsRead [] = Unit {0}
IsRead (c ∷ s) = (b'1' ≤ c) × All IsDigit (c ∷ s)

low_digits-IsTopped : (acc : List ℕ) (s : Text) → IsTopped acc → IsTopped (low_digits acc s)
unfolding low_digits IsTopped
low_digits-IsTopped acc [] h = h
low_digits-IsTopped [] (c ∷ s) h = absurd h
low_digits-IsTopped (d ∷ acc) (c ∷ s) h = low_digits-IsTopped ((c - b'0') ∷ d ∷ acc) s h

low_digits-AreDigits :
    (acc : List ℕ) (s : Text) → AreDigits acc → All IsDigit s → AreDigits (low_digits acc s)
unfolding low_digits
low_digits-AreDigits acc [] a h = a
low_digits-AreDigits acc (c ∷ s) a h =
    low_digits-AreDigits ((c - b'0') ∷ acc) s (omega (arith, h.0), a) h.1

pub low_digits-IsRead :
    (c : ℕ) (s : Text)
    → IsRead (c ∷ s)
    → AreDigits (low_digits [] (c ∷ s)) × IsTopped (low_digits [] (c ∷ s))
unfolding low_digits IsTopped
low_digits-IsRead c s h = (
  low_digits-AreDigits ((c - b'0') ∷ []) s (omega (arith, h.1.0), tt) h.1.1,
  low_digits-IsTopped ((c - b'0') ∷ []) s (omega (arith, h.0)),
)

-- The power of the last digit.
abbrev pub power_of : Decimal → ℤ
power_of value = value.exponent -ℤ pos (length value.digits)

-- The sum, in units of the lower power of the two.
abbrev pub IsSum : Accumulator → Decimal → Accumulator → Type 0
IsSum a value b =
    value_at (min_ℤ a.power (power_of value)) b.negative b.digits b.power
    ≡ value_at (min_ℤ a.power (power_of value)) a.negative a.digits a.power
      +ℤ value_at (min_ℤ a.power (power_of value)) value.negative (low_digits [] value.digits)
          (power_of value)

value_at_none : (q : ℤ) (negative : Bool) (p : ℤ) → value_at q negative [] p ≡ pos 0
unfolding number_of
value_at_none q negative p = ap (signed negative) (omega arith) ∙ signed_zero negative

is_empty-IsTopped : (digits : List ℕ) → IsTopped digits → is_empty digits ≡ false
unfolding IsTopped
is_empty-IsTopped [] h = absurd h
is_empty-IsTopped (d ∷ digits) h = refl

pub first_taken :
    (a : Accumulator) (negative : Bool) (power : ℤ) (right : List ℕ)
    → a.digits ≡ []
    → add_digits_of a negative power right
      ≡ ok (record a { digits = right; power = power; negative = negative })
unfolding add_digits_of
first_taken a negative power right e =
    ap
      (λ l.
        if is_empty l
        then ok (record a { digits = right; power = power; negative = negative })
        else add_right a negative power right)
      e

pub later_added :
    (a : Accumulator) (negative : Bool) (power : ℤ) (right : List ℕ)
    → IsTopped a.digits
    → add_digits_of a negative power right ≡ add_right a negative power right
unfolding add_digits_of
later_added a negative power right t =
    ap
      (λ c.
        if c
        then ok (record a { digits = right; power = power; negative = negative })
        else add_right a negative power right)
      (is_empty-IsTopped a.digits t)

add_digits_of-exact :
    (a b : Accumulator) (negative : Bool) (power : ℤ) (right : List ℕ)
    → IsTidy a.digits
    → AreDigits right
    → IsTopped right
    → add_digits_of a negative power right ≡ ok b
    → value_at (min_ℤ a.power power) b.negative b.digits b.power
      ≡ value_at (min_ℤ a.power power) a.negative a.digits a.power
        +ℤ value_at (min_ℤ a.power power) negative right power
unfolding add_digits_of
add_digits_of-exact a b negative power right (da, none_yet) dr tr h = elim none_yet [
  | inl e ↦
      let taken = ok-injective (sym (first_taken a negative power right e) ∙ h) in
      let q = min_ℤ a.power power in
      ap (λ c. value_at q c.negative c.digits c.power) (sym taken)
      ∙ sym (zero_add (value_at q negative right power))
      ∙ ap (λ z. z +ℤ value_at q negative right power)
          (sym (ap (λ l. value_at q a.negative l a.power) e ∙ value_at_none q a.negative a.power))
  | inr t ↦
      add_right-value_at a b negative power right da t dr tr
        (sym (later_added a negative power right t) ∙ h)
]

i128_of_same : (a : ℤ) {b : ℤ} → i128_of a ≡ some b → a ≡ b
i128_of_same (pos n) h = elim (Bool-cases (ltb n i128_half)) [
  | inl inside ↦ some-eq (rw inside at h)
  | inr outside ↦ absurd (none-ne (rw outside at h))
]
i128_of_same (negsuc n) h = elim (Bool-cases (ltb n i128_half)) [
  | inl inside ↦ some-eq (rw inside at h)
  | inr outside ↦ absurd (none-ne (rw outside at h))
]

add_nonzero-exact :
    (a b : Accumulator) (value : Decimal)
    → IsTidy a.digits
    → AreDigits (low_digits [] value.digits)
    → IsTopped (low_digits [] value.digits)
    → add_nonzero a value ≡ ok b
    → IsSum a value b
unfolding add_nonzero checked_sub_i128
add_nonzero-exact a b value tidy dr tr h =
    let (power, hp, h1) =
      >>=-eq-ok
        (ok_or (checked_sub_i128 value.exponent (pos (length value.digits))) decimal_sum_limit) _
        h in
    let (x, g, h2) =
      >>=-eq-ok
        (guard (in_limits power && leb (length value.digits) max_sum_digits) decimal_sum_limit) _
        h1 in
    let marked : Accumulator = record a { fractional = a.fractional || is_below_zero power } in
    let same : power_of value ≡ power = i128_of_same (power_of value) (
      ok_or-eq-ok (checked_sub_i128 value.exponent (pos (length value.digits))) decimal_sum_limit
        hp) in
    subst
      (λ p.
        value_at (min_ℤ a.power p) b.negative b.digits b.power
        ≡ value_at (min_ℤ a.power p) a.negative a.digits a.power
          +ℤ value_at (min_ℤ a.power p) value.negative (low_digits [] value.digits) p)
      (sym same)
      (add_digits_of-exact marked b value.negative power (low_digits [] value.digits) tidy dr tr h2)

-- Where an addition succeeds, to an accumulator without zeros at the top, of a number that is read, the
-- new value is the old one and the number together, exactly, in units of the lower of the two powers.
pub add_decimal-exact :
    (a b : Accumulator) (value : Decimal)
    → IsTidy a.digits
    → IsRead value.digits
    → add_decimal a value ≡ ok b
    → IsSum a value b
unfolding add_decimal low_digits
add_decimal-exact a b value tidy read h = by_digits value.digits refl read
  where
    q : ℤ
    q = min_ℤ a.power (power_of value)

    by_digits : (l : Text) → value.digits ≡ l → IsRead l → IsSum a value b
    by_digits [] e r =
        let same =
          ok-injective (sym (ap (λ l. if is_empty l then ok a else add_nonzero a value) e) ∙ h) in
        ap (λ c. value_at q c.negative c.digits c.power) (sym same)
        ∙ sym (add_zero (value_at q a.negative a.digits a.power))
        ∙ ap (λ z. value_at q a.negative a.digits a.power +ℤ z)
            (sym (
              ap (λ l. value_at q value.negative (low_digits [] l) (power_of value)) e
              ∙ value_at_none q value.negative (power_of value)))
    by_digits (c ∷ s) e r =
        let (dr, tr) = low_digits-IsRead c s r in
        add_nonzero-exact a b value tidy (subst (λ l. AreDigits (low_digits [] l)) (sym e) dr)
          (subst (λ l. IsTopped (low_digits [] l)) (sym e) tr)
          (sym (ap (λ l. if is_empty l then ok a else add_nonzero a value) e) ∙ h)
