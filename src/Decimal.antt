-- ===== src/Decimal.antt =====
-- Exact decimal numbers: `Decimal` of src/fields/codec.rs. Texts are UTF-8 bytes. What serde_json
-- takes for a JSON text is the parameter `raw_value`, a text in and the text without the blanks
-- around it out.
pub mod Digits
pub mod Plain
use clove1db.Prelude.{
  ℕ, zero, suc, ◌+◌, ◌-◌, ◌*◌, Bool, true, false, ◌||◌, ◌&&◌, List, [], ◌∷◌, ◌++◌, Option, none,
  some, length, ltb, ◌==◌, if◌then◌else◌,
}
use clove1db.Prelude.Bytes.{Text, between}
use clove1db.Prelude.Options.{◌>>=◌ as bind}
use clove1db.Prelude.Results.{Result, ok, err, ClError, validation, ◌>>=◌, ◌>>◌, guard, ok_or}
use clove1db.Prelude.Int.{
  ℤ, pos, negsuc, neg_ℕ, i128_of, checked_add_i128, checked_sub_i128, is_below_zero,
}

pub record Decimal : Type 0 where
  pub negative : Bool
  -- the decimal places after "0.", in ASCII; none for zero
  pub digits : Text
  pub exponent : ℤ

abbrev pub is_nil : Text → Bool
is_nil [] = true
is_nil (c ∷ s) = false

abbrev pub is_digit : ℕ → Bool
is_digit = between b'0' b'9'

-- `str::parse::<i128>`
unfoldable pub read_digits : ℕ → Text → Option ℕ
read_digits acc [] = some acc
read_digits acc (c ∷ s) =
    let rest = read_digits (acc * 10 + (c - b'0')) s in if is_digit c then rest else none

unfoldable pub read_magnitude : Text → Option ℕ
read_magnitude [] = none
read_magnitude (c ∷ s) = read_digits 0 (c ∷ s)

abbrev pub signed_magnitude : Bool → ℕ → Option ℤ
signed_magnitude true n = i128_of (neg_ℕ n)
signed_magnitude false n = i128_of (pos n)

unfoldable pub parse_i128 : Text → Option ℤ
parse_i128 [] = none
parse_i128 (c ∷ s) =
    if c == b'-'
    then bind (read_magnitude s) (signed_magnitude true)
    else bind (read_magnitude (if c == b'+' then s else c ∷ s)) (signed_magnitude false)

-- `split_once` at the first character that is wanted.
unfoldable pub split_once : (ℕ → Bool) → Text → Option (Text × Text)
split_once wanted [] = none
split_once wanted (c ∷ s) =
    let later = bind (split_once wanted s) (λ p. some (c ∷ p.0, p.1)) in
    if wanted c then some ([], s) else later

abbrev pub or_whole : Option (Text × Text) → Text × Text → Text × Text
or_whole none whole = whole
or_whole (some parts) whole = parts

-- `trim_start_matches('0')`
unfoldable pub trim_start : Text → Text
trim_start [] = []
trim_start (c ∷ s) = let rest = trim_start s in if c == b'0' then rest else c ∷ s

unfoldable pub trim_end : Text → Text
trim_end [] = []
trim_end (c ∷ s) = let rest = trim_end s in if (c == b'0') && is_nil rest then [] else c ∷ rest

-- `trim_matches('0')`
unfoldable pub trim : Text → Text
unfolding trim_start trim_end
trim s = trim_end (trim_start s)

abbrev pub too_large : ClError
too_large = validation "numeric exponent exceeds i128"

abbrev pub is_negative : Text → Bool
is_negative [] = false
is_negative (c ∷ s) = c == b'-'

abbrev pub strip_sign : Text → Text
strip_sign [] = []
strip_sign (c ∷ s) = if c == b'-' then s else c ∷ s

unfoldable pub starts_number : Text → Bool
starts_number [] = false
starts_number (c ∷ s) = (c == b'-') || is_digit c

-- The mantissa and the exponent of a token without its sign.
unfoldable pub mantissa_and_exponent : Text → Text × Text
unfolding split_once
mantissa_and_exponent token =
    or_whole (split_once (λ c. (c == b'e') || (c == b'E')) token) (token, b'0' ∷ [])

unfoldable pub integer_and_fraction : Text → Text × Text
unfolding split_once
integer_and_fraction mantissa = or_whole (split_once (λ c. c == b'.') mantissa) (mantissa, [])

-- The digits of a JSON number, zeros around them included.
unfoldable pub token_digits : Text → Text
unfolding mantissa_and_exponent integer_and_fraction
token_digits raw =
    let parts = integer_and_fraction (mantissa_and_exponent (strip_sign raw)).0 in
    parts.0 ++ parts.1

abbrev pub decimal_of : Bool → Text → ℤ → Decimal
decimal_of negative [] exponent = record { negative = false; digits = []; exponent = pos 0 }
decimal_of negative (c ∷ s) exponent = record {
  negative = negative;
  digits = c ∷ s;
  exponent = exponent;
}

-- The exponent of "0.digits", or `None` where it leaves `i128`.
unfoldable pub exponent_of : Text → Option ℤ
unfolding mantissa_and_exponent integer_and_fraction trim_start token_digits
exponent_of raw =
    let (mantissa, exp) = mantissa_and_exponent (strip_sign raw) in
    let integer = (integer_and_fraction mantissa).0 in
    let digits = token_digits raw in
    let leading = length digits - length (trim_start digits) in
    bind (parse_i128 exp) (λ e.
      bind (checked_add_i128 e (pos (length integer))) (λ v. checked_sub_i128 v (pos leading)))

unfoldable pub parse_raw : Text → Result Decimal
unfolding exponent_of trim token_digits
parse_raw raw = do
  exponent ← ok_or (exponent_of raw) too_large
  ok (decimal_of (is_negative raw) (trim (token_digits raw)) exponent)

module _ (raw_value : Text → Result Text) where
  -- `Decimal::parse`
  unfoldable pub parse : Text → Result Decimal
  unfolding starts_number
  parse token = do
    raw ← raw_value token
    guard (starts_number raw) (validation "expected a finite JSON number")
    parse_raw raw
