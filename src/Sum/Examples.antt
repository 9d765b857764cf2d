-- ===== src/Sum/Examples.antt =====
-- A sum at concrete numbers.
use clove1db.Prelude.{refl, inr, false, true, [], ◌∷◌, arith}
use clove1db.Prelude.Int.{pos, checked_add_i128, checked_sub_i128}
use clove1db.Decimal.{
  Decimal, parse_raw, parse_i128, read_magnitude, read_digits, split_once, parse,
}
use clove1db.Decimal.Plain.{all_digits, only_digits, only_digits-IsJson}
use clove1db.Sum.{Accumulator, add}
use clove1db.Sum.Added.{IsTidy, IsSum}
use clove1db.Sum.Order.{IsTopped}
use clove1db.Sum.Parsed.{add_exact}

-- -5
abbrev minus_five : Accumulator
minus_five = record { digits = 5 ∷ []; negative = true; power = pos 0; fractional = false }

-- 7
abbrev seven : Accumulator
seven = record { digits = 7 ∷ []; negative = false; power = pos 0; fractional = false }

abbrev twelve : Decimal
twelve = record { negative = false; digits = 49 ∷ 50 ∷ []; exponent = pos 2 }

add_exact_example : IsSum minus_five twelve seven × IsTidy seven.digits
unfolding add parse only_digits all_digits parse_raw parse_i128 read_magnitude read_digits
    split_once checked_add_i128 checked_sub_i128 IsTopped
add_exact_example =
    add_exact only_digits only_digits-IsJson minus_five seven (49 ∷ 50 ∷ []) twelve
      ((omega arith, tt), inr (omega arith)) refl refl
