-- ===== src/Codec.antt =====
-- Keys whose order as byte strings is the order of values: `encode` and its like of
-- src/fields/codec.rs. The functions that push bytes to a vector are the bytes that they push.
pub mod Compare
pub mod Spec
pub mod Parts
pub mod Order
mod Examples
use clove1db.Prelude.{
  ℕ, ◌+◌, ◌-◌, ◌%◌, ◌^◌, Bool, true, false, List, [], ◌∷◌, ◌++◌, map, ◌==◌, if◌then◌else◌,
}
use clove1db.Prelude.Bytes.{Text, to_be}
use clove1db.Prelude.Int.{ℤ, pos, negsuc}
use clove1db.Prelude.Results.{Result, ok, err, validation, ◌>>=◌}
use clove1db.Values.{
  Value, missing, null, bool, number, time, string, array, object, Items, none, item, Members, end,
  member,
}
use clove1db.Decimal.{Decimal, parse}

-- `value as u128`
abbrev pub as_u128 : ℤ → ℕ
as_u128 (pos n) = n
as_u128 (negsuc n) = 2 ^ 128 - 1 - n

-- `^ (1u128 << 127)`: the highest bit is turned over.
abbrev pub flip_top : ℕ → ℕ
flip_top n = (n + 2 ^ 127) % 2 ^ 128

unfoldable pub signed : ℤ → List ℕ
signed v = to_be 16 (flip_top (as_u128 v))

unfoldable pub text : Text → List ℕ
text [] = 0 ∷ 0 ∷ []
text (b ∷ bytes) = let rest = text bytes in if b == 0 then 0 ∷ 255 ∷ rest else b ∷ rest

-- `!b` of every byte
abbrev pub complement : List ℕ → List ℕ
complement = map (λ b. 255 - b)

unfoldable pub digits_part : Text → ℤ → List ℕ
unfolding signed
digits_part digits exponent = signed exponent ++ (digits ++ 0 ∷ [])

unfoldable pub magnitude : Bool → Text → ℤ → List ℕ
unfolding digits_part
magnitude negative [] exponent = 1 ∷ []
magnitude true (d ∷ digits) exponent = 0 ∷ complement (digits_part (d ∷ digits) exponent)
magnitude false (d ∷ digits) exponent = 2 ∷ digits_part (d ∷ digits) exponent

-- What follows the 5 of a number.
unfoldable pub decimal_bytes : Decimal → List ℕ
unfolding magnitude
decimal_bytes n = magnitude n.negative n.digits n.exponent

module _ (raw_value : Text → Result Text) where
  -- Objects are refused unless `objects`.
  unfoldable mutual
    pub append : Bool → Value → Result (List ℕ)
    append objects missing = ok (1 ∷ [])
    append objects null = ok (2 ∷ [])
    append objects (bool false) = ok (3 ∷ [])
    append objects (bool true) = ok (4 ∷ [])
    append objects (number token) = parse raw_value token >>= λ n. ok (5 ∷ decimal_bytes n)
    append objects (time n) = ok (6 ∷ signed n)
    append objects (string v) = ok (7 ∷ text v)
    append objects (array vs) = append_items objects vs >>= λ bytes. ok (8 ∷ (bytes ++ 0 ∷ []))
    append true (object ms) = append_members ms >>= λ bytes. ok (9 ∷ (bytes ++ 0 ∷ []))
    append false (object ms) =
        err (validation "objects support canonical equality only, not ordering")

    pub append_items : Bool → Items → Result (List ℕ)
    append_items objects none = ok []
    append_items objects (item v vs) =
        append objects v >>= λ first. append_items objects vs >>= λ rest. ok (first ++ rest)

    pub append_members : Members → Result (List ℕ)
    append_members end = ok []
    append_members (member key v ms) = append true v >>= λ first.
        append_members ms >>= λ rest. ok (7 ∷ (text key ++ first ++ rest))

  unfoldable pub encode : Value → Result (List ℕ)
  unfolding append
  encode = append false

  unfoldable pub encode_equality : Value → Result (List ℕ)
  unfolding append
  encode_equality = append true

  unfoldable pub encode_tuple : Items → Result (List ℕ)
  unfolding encode
  encode_tuple values = encode (array values)
