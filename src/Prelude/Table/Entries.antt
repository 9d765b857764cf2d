-- ===== src/Prelude/Table/Entries.antt =====
-- What the operations of a table do to its entries.
use Prim.Native.Nat.{ℕ}
use Prim.Native.String.{String}
use text.Mathlib.Text.{◌==◌ as str_eq}
use mathlib.Core.List.{List, [], ◌∷◌}
use mathlib.Core.Option.{Option, none, some}
use clove1db.Prelude.Tests.{ltb, ◌==◌, if◌then◌else◌}

module _ {ℓ} {V : Type ℓ} where
  unfoldable pub find : String → List (String × V) → Option V
  find k [] = none
  find k ((j, v) ∷ l) = if str_eq j k then some v else find k l

  unfoldable pub replace : String → V → List (String × V) → List (String × V)
  replace k v [] = []
  replace k v ((j, w) ∷ l) = (j, if str_eq j k then v else w) ∷ replace k v l

  unfoldable pub without : String → List (String × V) → List (String × V)
  without k [] = []
  without k ((j, w) ∷ l) = let rest = without k l in if str_eq j k then rest else (j, w) ∷ rest

  unfoldable pub find_number : ℕ → List (ℕ × V) → Option V
  find_number k [] = none
  find_number k ((j, v) ∷ l) = if j == k then some v else find_number k l

  unfoldable pub insert_number : ℕ → V → List (ℕ × V) → List (ℕ × V)
  insert_number k v [] = (k, v) ∷ []
  insert_number k v ((j, w) ∷ l) =
      if ltb k j
      then (k, v) ∷ (j, w) ∷ l
      else if j == k
      then (k, v) ∷ l
      else (j, w) ∷ insert_number k v l

  -- the entries with a greater key
  unfoldable pub after : ℕ → List (ℕ × V) → List (ℕ × V)
  after k [] = []
  after k ((j, v) ∷ l) = let rest = after k l in if ltb k j then (j, v) ∷ rest else rest
