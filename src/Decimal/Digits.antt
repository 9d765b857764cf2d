-- ===== src/Decimal/Digits.antt =====
-- What a parsed number looks like.
use clove1db.Prelude.{
  ℕ, ◌≤◌, ◌≡◌, Bool, true, ◌&&◌, [], ◌∷◌, Option, none, some, ◌==◌, All, arith, inl, inr,
  Bool-cases,
}
use mathlib.Core.Path.{subst}
use clove1db.Prelude.Bytes.{Text}
use clove1db.Prelude.Options.{◌>>=◌ as bind}
use clove1db.Prelude.Results.{Result, ok, ClError, ok_or, guard, guard-ok, >>=-eq-ok}
use clove1db.Prelude.Int.{ℤ, InRange, checked_add_i128, checked_sub_i128-InRange}
use clove1db.Decimal.{
  Decimal, decimal_of, trim_start, trim_end, trim, is_nil, is_negative, too_large, parse_i128,
  exponent_of, token_digits, starts_number, parse_raw, parse,
}

abbrev pub IsDigit : ℕ → Type 0
IsDigit c = (b'0' ≤ c) × (c ≤ b'9')

-- The documented form of a JSON number: around a point there are digits.
abbrev pub IsJson : (Text → Result Text) → Type 0
IsJson raw_value =
    (token raw : Text)
    → raw_value token ≡ ok raw
    → starts_number raw ≡ true
    → All IsDigit (token_digits raw)

pub record IsDecimal (d : Decimal) : Type 0 where
  pub digits_are : All IsDigit d.digits
  pub exponent_in : InRange d.exponent

trim_start-IsDigit : (s : Text) → All IsDigit s → All IsDigit (trim_start s)
unfolding trim_start
trim_start-IsDigit [] a = tt
trim_start-IsDigit (c ∷ s) a = elim (Bool-cases (c == b'0')) [
  | inl zero ↦ rw zero (trim_start-IsDigit s a.1)
  | inr other ↦ rw other a
]

pub trim_end-IsDigit : (s : Text) → All IsDigit s → All IsDigit (trim_end s)
unfolding trim_end
trim_end-IsDigit [] a = tt
trim_end-IsDigit (c ∷ s) a = elim (Bool-cases ((c == b'0') && is_nil (trim_end s))) [
  | inl zero ↦ rw zero tt
  | inr other ↦ rw other (a.0, trim_end-IsDigit s a.1)
]

trim-IsDigit : (s : Text) → All IsDigit s → All IsDigit (trim s)
unfolding trim
trim-IsDigit s a = trim_end-IsDigit (trim_start s) (trim_start-IsDigit s a)

decimal_of-IsDecimal :
    (negative : Bool) (s : Text) (e : ℤ)
    → All IsDigit s
    → InRange e
    → IsDecimal (decimal_of negative s e)
decimal_of-IsDecimal negative [] e a r = record { digits_are = tt; exponent_in = omega arith }
decimal_of-IsDecimal negative (c ∷ s) e a r = record { digits_are = a; exponent_in = r }

pub ok_or-eq-ok {ℓ} :
    {A : Type ℓ} (o : Option A) (e : ClError) {a : A} → ok_or o e ≡ ok a → o ≡ some a
ok_or-eq-ok none e h = cc
ok_or-eq-ok (some b) e h = cc

decimal-eq : (d e : Decimal) → Result.ok d ≡ ok e → d ≡ e
decimal-eq d e h = cc

bind-InRange :
    {A : Type 0} (o : Option A) (f : A → Option ℤ) {e : ℤ}
    → ((a : A) (v : ℤ) → f a ≡ some v → InRange v)
    → bind o f ≡ some e
    → InRange e
bind-InRange none f h eq = cc
bind-InRange (some a) f h eq = h a _ eq

exponent_of-InRange : (raw : Text) {e : ℤ} → exponent_of raw ≡ some e → InRange e
unfolding exponent_of
exponent_of-InRange raw h =
    bind-InRange (parse_i128 _) _
      (λ a v. bind-InRange (checked_add_i128 a _) _ (λ b w. checked_sub_i128-InRange b _)) h

parse_raw-IsDecimal :
    (raw : Text) {d : Decimal} → All IsDigit (token_digits raw) → parse_raw raw ≡ ok d → IsDecimal d
unfolding parse_raw
parse_raw-IsDecimal raw {d} a h =
    let (exponent, he, hd) = >>=-eq-ok (ok_or (exponent_of raw) too_large) _ h in
    subst IsDecimal (decimal-eq _ d hd) (
      decimal_of-IsDecimal (is_negative raw) (trim (token_digits raw)) exponent
        (trim-IsDigit (token_digits raw) a)
        (exponent_of-InRange raw (ok_or-eq-ok (exponent_of raw) too_large he)))

module _ (raw_value : Text → Result Text) (json : IsJson raw_value) where
  pub parse-IsDecimal : (token : Text) {d : Decimal} → parse raw_value token ≡ ok d → IsDecimal d
  unfolding parse
  parse-IsDecimal token h =
      let (raw, hraw, h1) = >>=-eq-ok (raw_value token) _ h in
      let (x, hg, h2) = >>=-eq-ok (guard (starts_number raw) _) _ h1 in
      parse_raw-IsDecimal raw (json token raw hraw (guard-ok _ _ x hg)) h2
