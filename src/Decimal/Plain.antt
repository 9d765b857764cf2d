-- ===== src/Decimal/Plain.antt =====
-- A reader of numbers for the tests: JSON texts of digits alone.
use clove1db.Prelude.{
  ℕ, ◌≡◌, refl, sym, Bool, true, false, [], ◌∷◌, none, All, inl, inr, Bool-cases, ◌==◌, ◌&&◌, ◌||◌,
  if◌then◌else◌, arith,
}
use mathlib.Core.Path.{subst}
use mathlib.Core.List.{append-nil}
use clove1db.Prelude.Bytes.{Text}
use clove1db.Prelude.Results.{Result, ok, err, ClError, validation, ok-injective}
use clove1db.Decimal.{
  is_digit, split_once, strip_sign, mantissa_and_exponent, integer_and_fraction, token_digits,
}
use clove1db.Decimal.Digits.{IsDigit, IsJson}

unfoldable pub all_digits : Text → Bool
all_digits [] = true
all_digits (c ∷ s) = is_digit c && all_digits s

unfoldable pub only_digits : Text → Result Text
only_digits token = if all_digits token then ok token else err (validation "no digits")

digits-IsDigit : (s : Text) → all_digits s ≡ true → All IsDigit s
unfolding all_digits
digits-IsDigit [] h = tt
digits-IsDigit (c ∷ s) h = (ground (arith, h), digits-IsDigit s (ground (arith, h)))

split-none :
    (wanted : ℕ → Bool) (s : Text)
    → ((c : ℕ) → is_digit c ≡ true → wanted c ≡ false)
    → all_digits s ≡ true
    → split_once wanted s ≡ none
unfolding all_digits split_once
split-none wanted [] f h = refl
split-none wanted (c ∷ s) f h =
    rw (f c (ground (arith, h)), split-none wanted s f (ground (arith, h))) refl

digits_no_sign : (s : Text) → all_digits s ≡ true → strip_sign s ≡ s
unfolding all_digits
digits_no_sign [] h = refl
digits_no_sign (c ∷ s) h = ground (arith, h)

token_digits-digits : (s : Text) → all_digits s ≡ true → token_digits s ≡ s
unfolding token_digits mantissa_and_exponent integer_and_fraction
token_digits-digits s h =
    rw
      (
        digits_no_sign s h,
        split-none (λ c. (c == b'e') || (c == b'E')) s (λ c d. ground (arith, d)) h,
        split-none (λ c. c == b'.') s (λ c d. ground (arith, d)) h,
      )
      (append-nil s)

pub only_digits-IsJson : IsJson only_digits
unfolding only_digits
only_digits-IsJson token raw h starts = elim (Bool-cases (all_digits token)) [
  | inl d ↦
      let same : token ≡ raw = ok-injective (rw d at h) in
      subst (λ x. All IsDigit (token_digits x)) same
        (subst (All IsDigit) (sym (token_digits-digits token d)) (digits-IsDigit token d))
  | inr n ↦ absurd (err-ne (rw n at h))
]
  where
    err-ne : {A : Type 0} {a : A} {e : ClError} → err e ≡ ok a → ⊥
    err-ne p = cc
