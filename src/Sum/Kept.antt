-- ===== src/Sum/Kept.antt =====
-- The digits of an accumulator after `Accumulator::add` (src/query/sum.rs).
use clove1db.Prelude.{
  ℕ, ◌+◌, ◌/◌, ◌≤◌, ◌<◌, ◌≡◌, refl, sym, ◌∙◌, ap, ◌⊎◌, inl, inr, Bool, true, false, ◌&&◌, ◌||◌,
  List, [], ◌∷◌, length, drop, max, ltb, leb, ◌==◌, if◌then◌else◌, arith, Bool-cases,
}
use mathlib.Core.Path.{subst}
use clove1db.Prelude.Bytes.{Text}
use clove1db.Prelude.Results.{ok, ok-injective, decimal_sum_limit, ok_or, guard, >>=-eq-ok}
use clove1db.Prelude.Int.{ℤ, pos, ◌-ℤ◌, checked_sub_i128, is_below_zero}
use clove1db.Decimal.{Decimal}
use clove1db.Sum.{
  Accumulator, add_digits, digit_less, borrow_of, sub_digits, padded, is_empty, popped, low_zeros,
  is_smaller, combined, settled, min_ℤ, usize_of, low_digits, in_limits, max_sum_digits, add_right,
  add_digits_of, add_nonzero, add_decimal,
}
use clove1db.Sum.Digits.{AreDigits}
use clove1db.Sum.Order.{IsTopped}
use clove1db.Sum.Exact.{padded-AreDigits}
use clove1db.Sum.Added.{
  IsTidy, IsRead, low_digits-IsRead, first_taken, later_added, IsSum, add_decimal-exact,
}

add_digits-AreDigits :
    (carry : ℕ) (left right : List ℕ)
    → carry ≤ 1
    → AreDigits left
    → AreDigits right
    → AreDigits (add_digits carry left right)
unfolding add_digits
add_digits-AreDigits carry [] [] c a b = elim (Bool-cases (ltb 0 carry)) [
  | inl t ↦ rw t (omega (arith, c), tt)
  | inr f ↦ rw f tt
]
add_digits-AreDigits carry (d ∷ left) [] c a b = (
  omega arith,
  add_digits-AreDigits ((d + 0 + carry) / 10) left [] (omega (arith, c, a.0)) a.1 tt,
)
add_digits-AreDigits carry [] (r ∷ right) c a b = (
  omega arith,
  add_digits-AreDigits ((0 + r + carry) / 10) [] right (omega (arith, c, b.0)) tt b.1,
)
add_digits-AreDigits carry (d ∷ left) (r ∷ right) c a b = (
  omega arith,
  add_digits-AreDigits ((d + r + carry) / 10) left right (omega (arith, c, a.0, b.0)) a.1 b.1,
)

digit_less-below : (d n : ℕ) → d < 10 → digit_less d n < 10
digit_less-below d n h = ground (arith, h)

sub_digits-AreDigits :
    (borrow : ℕ) (left right : List ℕ) → AreDigits left → AreDigits (sub_digits borrow left right)
unfolding sub_digits
sub_digits-AreDigits borrow [] right a = tt
sub_digits-AreDigits borrow (d ∷ left) [] a = (
  digit_less-below d (0 + borrow) a.0,
  sub_digits-AreDigits (borrow_of d (0 + borrow)) left [] a.1,
)
sub_digits-AreDigits borrow (d ∷ left) (r ∷ right) a = (
  digit_less-below d (r + borrow) a.0,
  sub_digits-AreDigits (borrow_of d (r + borrow)) left right a.1,
)

combined-AreDigits :
    (l : Bool) (left : List ℕ) (r : Bool) (right : List ℕ)
    → AreDigits left
    → AreDigits right
    → AreDigits (combined l left r right).1
unfolding combined
combined-AreDigits false left false right a b = add_digits-AreDigits 0 left right (omega arith) a b
combined-AreDigits true left true right a b = add_digits-AreDigits 0 left right (omega arith) a b
combined-AreDigits false left true right a b = elim (Bool-cases (is_smaller left right)) [
  | inl s ↦ rw s (sub_digits-AreDigits 0 right left b)
  | inr n ↦ rw n (sub_digits-AreDigits 0 left right a)
]
combined-AreDigits true left false right a b = elim (Bool-cases (is_smaller left right)) [
  | inl s ↦ rw s (sub_digits-AreDigits 0 right left b)
  | inr n ↦ rw n (sub_digits-AreDigits 0 left right a)
]

popped-AreDigits : (digits : List ℕ) → AreDigits digits → AreDigits (popped digits)
unfolding popped
popped-AreDigits [] a = tt
popped-AreDigits (d ∷ digits) a = elim (Bool-cases ((d == 0) && is_empty (popped digits))) [
  | inl t ↦ rw t tt
  | inr f ↦ rw f (a.0, popped-AreDigits digits a.1)
]

-- A digit over a number without zeros at the top.
over-IsTopped :
    (d : ℕ) (rest : List ℕ)
    → ((d == 0) && is_empty rest) ≡ false
    → (rest ≡ []) ⊎ IsTopped rest
    → IsTopped (d ∷ rest)
unfolding IsTopped
over-IsTopped d [] h o = ground (arith, h)
over-IsTopped d (e ∷ rest) h (inl p) = cc
over-IsTopped d (e ∷ rest) h (inr t) = t

popped-IsTopped : (digits : List ℕ) → (popped digits ≡ []) ⊎ IsTopped (popped digits)
unfolding popped
popped-IsTopped [] = inl refl
popped-IsTopped (d ∷ digits) = elim (Bool-cases ((d == 0) && is_empty (popped digits))) [
  | inl t ↦ rw t (inl refl)
  | inr f ↦ rw f (inr (over-IsTopped d (popped digits) f (popped-IsTopped digits)))
]

below_top :
    (d : ℕ) (digits : List ℕ)
    → (d ∷ digits ≡ []) ⊎ IsTopped (d ∷ digits)
    → (digits ≡ []) ⊎ IsTopped digits
unfolding IsTopped
below_top d [] o = inl refl
below_top d (e ∷ digits) (inl p) = cc
below_top d (e ∷ digits) (inr t) = inr t

drop-IsTidy : (digits : List ℕ) → IsTidy digits → IsTidy (drop (low_zeros digits) digits)
unfolding low_zeros IsTopped
drop-IsTidy [] t = t
drop-IsTidy (d ∷ digits) t = elim (Bool-cases (d == 0)) [
  | inl z ↦ rw z (drop-IsTidy digits (t.0.1, below_top d digits t.1))
  | inr n ↦ rw n t
]

settled-IsTidy :
    (negative : Bool) (common : ℤ) (fractional : Bool) (digits : List ℕ)
    → AreDigits digits
    → IsTidy (settled negative common fractional digits).digits
unfolding settled
settled-IsTidy negative common fractional digits a =
    drop-IsTidy (popped digits) (popped-AreDigits digits a, popped-IsTopped digits)

add_right-IsTidy :
    (a b : Accumulator) (negative : Bool) (power : ℤ) (right : List ℕ)
    → AreDigits a.digits
    → AreDigits right
    → add_right a negative power right ≡ ok b
    → IsTidy b.digits
unfolding add_right
add_right-IsTidy a b negative power right da dr h =
    let common = min_ℤ a.power power in
    let (lp, hl, h1) = >>=-eq-ok (ok_or (usize_of (a.power -ℤ common)) decimal_sum_limit) _ h in
    let (rp, hr, h2) = >>=-eq-ok (ok_or (usize_of (power -ℤ common)) decimal_sum_limit) _ h1 in
    let (x, g, h3) =
      >>=-eq-ok
        (guard (leb (max (length a.digits + lp) (length right + rp)) max_sum_digits)
          decimal_sum_limit)
        _ h2 in
    let sum : Bool × List ℕ = combined a.negative (padded lp a.digits) negative (padded rp right) in
    let next : Accumulator = settled sum.0 common a.fractional sum.1 in
    let (y, g2, h4) =
      >>=-eq-ok (guard (leb (length next.digits) max_sum_digits) decimal_sum_limit) _ h3 in
    subst (λ c. IsTidy c.digits) (ok-injective h4)
      (settled-IsTidy sum.0 common a.fractional sum.1 (
        combined-AreDigits a.negative (padded lp a.digits) negative (padded rp right)
          (padded-AreDigits lp a.digits da) (padded-AreDigits rp right dr)))

add_digits_of-IsTidy :
    (a b : Accumulator) (negative : Bool) (power : ℤ) (right : List ℕ)
    → IsTidy a.digits
    → AreDigits right
    → IsTopped right
    → add_digits_of a negative power right ≡ ok b
    → IsTidy b.digits
add_digits_of-IsTidy a b negative power right tidy dr tr h = elim (tidy.1) [
  | inl e ↦
      subst (λ c. IsTidy c.digits) (ok-injective (sym (first_taken a negative power right e) ∙ h))
        (dr, inr tr)
  | inr t ↦
      add_right-IsTidy a b negative power right tidy.0 dr
        (sym (later_added a negative power right t) ∙ h)
]

add_decimal-IsTidy :
    (a b : Accumulator) (value : Decimal)
    → IsTidy a.digits
    → IsRead value.digits
    → add_decimal a value ≡ ok b
    → IsTidy b.digits
unfolding add_decimal add_nonzero
add_decimal-IsTidy a b value tidy read h = by_digits value.digits refl read
  where
    by_digits : (l : Text) → value.digits ≡ l → IsRead l → IsTidy b.digits
    by_digits [] e r =
        subst (λ c. IsTidy c.digits)
          (ok-injective (sym (ap (λ l. if is_empty l then ok a else add_nonzero a value) e) ∙ h))
          tidy
    by_digits (c ∷ s) e r =
        let (dr, tr) = low_digits-IsRead c s r in
        let h0 = sym (ap (λ l. if is_empty l then ok a else add_nonzero a value) e) ∙ h in
        let (power, hp, h1) =
          >>=-eq-ok
            (ok_or (checked_sub_i128 value.exponent (pos (length value.digits))) decimal_sum_limit)
            _ h0 in
        let (x, g, h2) =
          >>=-eq-ok
            (guard (in_limits power && leb (length value.digits) max_sum_digits) decimal_sum_limit)
            _ h1 in
        add_digits_of-IsTidy (record a { fractional = a.fractional || is_below_zero power }) b
          value.negative power (low_digits [] value.digits) tidy
          (subst (λ l. AreDigits (low_digits [] l)) (sym e) dr)
          (subst (λ l. IsTopped (low_digits [] l)) (sym e) tr) h2

-- Where an addition of a number succeeds, to an accumulator without zeros at the top, the new value is
-- the old one and the number together, exactly, in units of the lower of the two powers; and the
-- accumulator is again without zeros at the top.
pub add_decimal_exact :
    (a b : Accumulator) (value : Decimal)
    → IsTidy a.digits
    → IsRead value.digits
    → add_decimal a value ≡ ok b
    → IsSum a value b × IsTidy b.digits
add_decimal_exact a b value tidy read h =
    (add_decimal-exact a b value tidy read h, add_decimal-IsTidy a b value tidy read h)
