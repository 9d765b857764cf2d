-- ===== src/Codec/Examples.antt =====
-- Keys at concrete values; numbers are texts of digits.
use clove1db.Prelude.{ℕ, ◌≡◌, refl, List, [], ◌∷◌, arith}
use clove1db.Prelude.Bytes.{to_be}
use clove1db.Prelude.Int.{negsuc, checked_add_i128, checked_sub_i128}
use clove1db.Prelude.Results.{Result, ok, err}
use clove1db.Values.{Value, number, time, string, array, Items, item}
use clove1db.Decimal.{parse_raw, parse_i128, read_magnitude, read_digits, split_once, parse}
use clove1db.Decimal.Plain.{all_digits, only_digits, only_digits-IsJson}
use clove1db.Codec.{encode, text, signed}
use clove1db.Codec.Compare.{compare_bytes}
use clove1db.Codec.Spec.{compare_values, FitsI128}
use clove1db.Codec.Order.{encode-order}

-- The number 12 and a time before zero, and the number 9 and a text
abbrev left : Value
left = array (item (number (49 ∷ 50 ∷ [])) (item (time (negsuc 0)) Items.none))

abbrev right : Value
right = array (item (number (57 ∷ [])) (item (string (0 ∷ 65 ∷ [])) Items.none))

abbrev bytes_of : Result (List ℕ) → List ℕ
bytes_of (ok bytes) = bytes
bytes_of (err e) = []

abbrev left_key : List ℕ
unfolding encode only_digits all_digits
left_key = bytes_of (encode only_digits left)

abbrev right_key : List ℕ
unfolding encode only_digits all_digits
right_key = bytes_of (encode only_digits right)

encode-order_example : compare_bytes left_key right_key ≡ compare_values only_digits left right
unfolding encode only_digits all_digits FitsI128 parse text signed to_be split_once parse_raw
    parse_i128 read_magnitude read_digits checked_add_i128 checked_sub_i128
encode-order_example =
    encode-order only_digits only_digits-IsJson left right (tt, (omega arith, tt)) (tt, (tt, tt))
      refl refl
