-- ===== src/Sum/Digits.antt =====
-- The numbers that digits stand for: sums, differences and zeros at the ends.
use clove1db.Prelude.{
  ℕ, zero, suc, ◌+◌, ◌*◌, ◌/◌, ◌^◌, ◌≤◌, ◌<◌, ◌≡◌, refl, sym, ◌∙◌, ap, inl, inr, true, List, [],
  ◌∷◌, drop, All, ltb, ltb→lt, ◌==◌, ==_iff, arith, Bool-cases, ◌&&◌, and-true,
}
use native.Mathlib.Nat.{pow-suc}
use clove1db.Sum.{
  add_digits, digit_less, borrow_of, sub_digits, padded, popped, low_zeros, is_empty,
}

-- The number of digits, the lowest first.
unfoldable pub number_of : List ℕ → ℕ
number_of [] = 0
number_of (d ∷ digits) = d + 10 * number_of digits

abbrev pub AreDigits : List ℕ → Type 0
AreDigits = All (λ d. d < 10)

pub number_of-add_digits :
    (carry : ℕ) (left right : List ℕ)
    → number_of (add_digits carry left right) ≡ number_of left + number_of right + carry
unfolding number_of add_digits
number_of-add_digits carry [] [] = elim (Bool-cases (ltb 0 carry)) [
  | inl some_carry ↦ rw some_carry (omega arith)
  | inr none ↦ rw none (ground (arith, none))
]
number_of-add_digits carry (d ∷ left) [] =
    rw (number_of-add_digits ((d + 0 + carry) / 10) left []) (omega arith)
number_of-add_digits carry [] (r ∷ right) =
    rw (number_of-add_digits ((0 + r + carry) / 10) [] right) (omega arith)
number_of-add_digits carry (d ∷ left) (r ∷ right) =
    rw (number_of-add_digits ((d + r + carry) / 10) left right) (omega arith)

borrow_of-one : (d n : ℕ) → borrow_of d n ≤ 1
borrow_of-one d n = ground arith

step_back :
    (d n l r out : ℕ)
    → d < 10
    → n ≤ 10
    → 10 * r + n ≤ d + 10 * l
    → (r + borrow_of d n ≤ l → out + r + borrow_of d n ≡ l)
    → digit_less d n + 10 * out + 10 * r + n ≡ d + 10 * l
step_back d n l r out small few le next = elim (Bool-cases (ltb d n)) [
  | inl less ↦
      let lower : d < n = ltb→lt d n less in
      let e = (rw less at next) (omega (arith, le, lower)) in rw less (omega (arith, e, few))
  | inr more ↦
      let upper : n ≤ d = ground (arith, more) in
      let e = (rw more at next) (omega (arith, le, upper, small)) in
      rw more (omega (arith, e, upper))
]

pub number_of-sub_digits :
    (borrow : ℕ) (left right : List ℕ)
    → AreDigits left
    → AreDigits right
    → borrow ≤ 1
    → number_of right + borrow ≤ number_of left
    → number_of (sub_digits borrow left right) + number_of right + borrow ≡ number_of left
unfolding number_of sub_digits
number_of-sub_digits borrow [] right dl dr small le = omega (arith, le)
number_of-sub_digits borrow (d ∷ left) [] dl dr small le = omega (
  arith,
  step_back d (0 + borrow) (number_of left) 0
      (number_of (sub_digits (borrow_of d (0 + borrow)) left [])) dl.0 (omega (arith, small))
      (omega (arith, le))
      (λ h.
        number_of-sub_digits (borrow_of d (0 + borrow)) left [] dl.1 tt
          (borrow_of-one d (0 + borrow)) h),
)
number_of-sub_digits borrow (d ∷ left) (r ∷ right) dl dr small le = omega (
  arith,
  step_back d (r + borrow) (number_of left) (number_of right)
      (number_of (sub_digits (borrow_of d (r + borrow)) left right)) dl.0
      (omega (arith, small, dr.0)) (omega (arith, le))
      (λ h.
        number_of-sub_digits (borrow_of d (r + borrow)) left right dl.1 dr.1
          (borrow_of-one d (r + borrow)) h),
)

scale : (a p : ℕ) → 0 + 10 * (a * p) ≡ a * (p * 10)
scale a p = grind arith

pub number_of-padded :
    (n : ℕ) (digits : List ℕ) → number_of (padded n digits) ≡ number_of digits * 10 ^ n
unfolding number_of padded
number_of-padded zero digits = omega arith
number_of-padded (suc n) digits =
    rw (number_of-padded n digits, pow-suc 10 n) (scale (number_of digits) (10 ^ n))

empty_is : (l : List ℕ) → is_empty l ≡ true → l ≡ []
empty_is [] h = refl
empty_is (d ∷ l) h = cc

pub number_of-popped : (digits : List ℕ) → number_of (popped digits) ≡ number_of digits
unfolding number_of popped
number_of-popped [] = refl
number_of-popped (d ∷ digits) = elim (Bool-cases ((d == 0) && is_empty (popped digits))) [
  | inl none ↦
      let (z, e) = and-true (d == 0) (is_empty (popped digits)) none in
      rw none (
        omega (
          arith,
          (==_iff d 0).0 z,
          number_of-popped digits,
          ap number_of (empty_is (popped digits) e),
        ))
  | inr other ↦ rw other (omega (arith, number_of-popped digits))
]

pub number_of-low_zeros :
    (digits : List ℕ)
    → number_of (drop (low_zeros digits) digits) * 10 ^ low_zeros digits ≡ number_of digits
unfolding number_of low_zeros
number_of-low_zeros [] = refl
number_of-low_zeros (d ∷ digits) = elim (Bool-cases (d == 0)) [
  | inl none ↦ rw none (
      ap (λ p. number_of (drop (low_zeros digits) digits) * p) (pow-suc 10 (low_zeros digits))
      ∙ sym (scale (number_of (drop (low_zeros digits) digits)) (10 ^ low_zeros digits))
      ∙ omega (arith, (==_iff d 0).0 none, number_of-low_zeros digits))
  | inr other ↦ rw other (omega arith)
]
