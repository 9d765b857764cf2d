-- ===== src/Codec/Spec.antt =====
-- The order of values that keys keep: missing, null, false, true, numbers, times, strings,
-- arrays. Numbers are compared by sign, exponent and digits, strings by bytes, arrays by items.
use Prim.Native.Nat.{compare, Ordering}
use Prim.Native.Nat.Ordering.{lt, eq, gt}
use clove1db.Prelude.{ℕ, Bool, true, false, [], ◌∷◌}
use clove1db.Prelude.Bytes.{Text}
use clove1db.Prelude.Int.{ℤ, compare_ℤ, InRange}
use clove1db.Prelude.Results.{Result, ok}
use clove1db.Values.{
  Value, missing, null, bool, number, time, string, array, object, Items, none, item,
}
use clove1db.Decimal.{Decimal, parse}
use clove1db.Codec.Compare.{then_cmp, reverse, compare_bytes}

-- 0 below zero, 1 for zero, 2 above.
abbrev pub sign : Bool → Text → ℕ
sign negative [] = 1
sign true (d ∷ s) = 0
sign false (d ∷ s) = 2

abbrev pub compare_size : Text → ℤ → Text → ℤ → Ordering
compare_size s x t y = then_cmp (compare_ℤ x y) (compare_bytes s t)

-- Numbers of one sign.
abbrev pub compare_signed : Bool → Text → ℤ → Text → ℤ → Ordering
compare_signed negative [] x t y = eq
compare_signed true (d ∷ s) x t y = reverse (compare_size (d ∷ s) x t y)
compare_signed false (d ∷ s) x t y = compare_size (d ∷ s) x t y

unfoldable pub compare_decimals : Decimal → Decimal → Ordering
compare_decimals n m =
    then_cmp (compare (sign n.negative n.digits) (sign m.negative m.digits))
      (compare_signed n.negative n.digits n.exponent m.digits m.exponent)

abbrev pub compare_parsed : Result Decimal → Result Decimal → Ordering
compare_parsed (ok n) (ok m) = compare_decimals n m
compare_parsed _ _ = eq

abbrev pub rank : Value → ℕ
rank missing = 1
rank null = 2
rank (bool false) = 3
rank (bool true) = 4
rank (number s) = 5
rank (time n) = 6
rank (string s) = 7
rank (array vs) = 8
rank (object ms) = 9

module _ (raw_value : Text → Result Text) where
  unfoldable mutual
    pub compare_values : Value → Value → Ordering
    compare_values (number s) (number t) = compare_parsed (parse raw_value s) (parse raw_value t)
    compare_values (time n) (time m) = compare_ℤ n m
    compare_values (string s) (string t) = compare_bytes s t
    compare_values (array vs) (array ws) = compare_items vs ws
    compare_values v w = compare (rank v) (rank w)

    pub compare_items : Items → Items → Ordering
    compare_items none none = eq
    compare_items none (item w ws) = lt
    compare_items (item v vs) none = gt
    compare_items (item v vs) (item w ws) = then_cmp (compare_values v w) (compare_items vs ws)

-- The times in a value are `i128` numbers.
unfoldable mutual
  pub FitsI128 : Value → Type 0
  FitsI128 (time n) = InRange n
  FitsI128 (array vs) = FitItems vs
  FitsI128 _ = Unit {0}

  pub FitItems : Items → Type 0
  FitItems none = Unit {0}
  FitItems (item v vs) = FitsI128 v × FitItems vs
