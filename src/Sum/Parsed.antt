-- ===== src/Sum/Parsed.antt =====
-- `Accumulator::add` (src/query/sum.rs) with the numbers that `Decimal::parse` (src/fields/codec.rs)
-- reads.
use clove1db.Prelude.{
  ◌≡◌, sym, ◌∙◌, ap, inl, inr, Bool, ◌&&◌, [], ◌∷◌, All, ◌==◌, arith, Bool-cases,
}
use mathlib.Core.Path.{subst}
use clove1db.Prelude.Bytes.{Text}
use clove1db.Prelude.Results.{Result, ok, ok-injective, ok_or, guard, guard-ok, ◌>>=◌, >>=-eq-ok}
use clove1db.Prelude.Int.{ℤ}
use clove1db.Decimal.{
  Decimal, decimal_of, trim_start, trim_end, trim, is_nil, is_negative, too_large, exponent_of,
  token_digits, starts_number, parse_raw, parse,
}
use clove1db.Decimal.Digits.{IsDigit, IsJson, trim_end-IsDigit}
use clove1db.Sum.{Accumulator, add_decimal, add}
use clove1db.Sum.Added.{IsTidy, IsRead, IsSum}
use clove1db.Sum.Kept.{add_decimal_exact}

trim_start-IsRead : (s : Text) → All IsDigit s → IsRead (trim_start s)
unfolding trim_start
trim_start-IsRead [] a = tt
trim_start-IsRead (c ∷ s) a = elim (Bool-cases (c == b'0')) [
  | inl z ↦ rw z (trim_start-IsRead s a.1)
  | inr other ↦ rw other (ground (arith, other, a.0), a)
]

trim_end-IsRead : (s : Text) → IsRead s → IsRead (trim_end s)
unfolding trim_end
trim_end-IsRead [] h = tt
trim_end-IsRead (c ∷ s) h = elim (Bool-cases ((c == b'0') && is_nil (trim_end s))) [
  | inl z ↦ rw z tt
  | inr other ↦ rw other (h.0, (h.1.0, trim_end-IsDigit s h.1.1))
]

decimal_of-IsRead :
    (negative : Bool) (s : Text) (e : ℤ) → IsRead s → IsRead (decimal_of negative s e).digits
decimal_of-IsRead negative [] e h = tt
decimal_of-IsRead negative (c ∷ s) e h = h

parse_raw-IsRead :
    (raw : Text) (d : Decimal)
    → All IsDigit (token_digits raw)
    → parse_raw raw ≡ ok d
    → IsRead d.digits
unfolding parse_raw trim
parse_raw-IsRead raw d a h =
    let (exponent, he, hd) = >>=-eq-ok (ok_or (exponent_of raw) too_large) _ h in
    subst (λ x. IsRead x.digits) (ok-injective hd)
      (decimal_of-IsRead (is_negative raw) (trim (token_digits raw)) exponent
        (trim_end-IsRead (trim_start (token_digits raw)) (trim_start-IsRead (token_digits raw) a)))

module _ (raw_value : Text → Result Text) (json : IsJson raw_value) where
  parse-IsRead : (token : Text) (d : Decimal) → parse raw_value token ≡ ok d → IsRead d.digits
  unfolding parse
  parse-IsRead token d h =
      let (raw, hraw, h1) = >>=-eq-ok (raw_value token) _ h in
      let (x, hg, h2) = >>=-eq-ok (guard (starts_number raw) _) _ h1 in
      parse_raw-IsRead raw d (json token raw hraw (guard-ok _ _ x hg)) h2

  -- Where a JSON number is added with success to an accumulator without zeros at the top, the new value
  -- is the old value and the number together, exactly, in units of the lower of their two powers of
  -- ten; and the accumulator is again without zeros at the top.
  pub add_exact :
      (a b : Accumulator) (token : Text) (value : Decimal)
      → IsTidy a.digits
      → parse raw_value token ≡ ok value
      → add raw_value a token ≡ ok b
      → IsSum a value b × IsTidy b.digits
  unfolding add
  add_exact a b token value tidy hp h =
      add_decimal_exact a b value tidy (parse-IsRead token value hp)
        (sym (ap (λ r. r >>= add_decimal a) hp) ∙ h)
