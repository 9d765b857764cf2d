-- ===== src/Prelude/Dict.antt =====
-- A table as the list of its entries, for tables whose order no code depends on. Keys are compared by
-- a test that is equality.
use mathlib.Core.Path.{◌≡◌, refl}
use mathlib.Core.Logic.{◌↔◌}
use mathlib.Core.Bool.{Bool, true, false, ◌&&◌, ◌||◌}
use mathlib.Core.List.{List, [], ◌∷◌}
use mathlib.Core.Option.{Option, none, some}
use native.Mathlib.Omega.{arith}
use Prim.Native.Nat.{ℕ}
use clove1db.Prelude.Tests.{if◌then◌else◌, list_eq, list_eq_iff}

pub record Eq (K : Type 0) : Type 0 where
  pub same : K → K → Bool
  pub same_iff : (a b : K) → (same a b ≡ true) ↔ (a ≡ b)

instance abbrev pub text_eq : Eq (List ℕ)
text_eq = record { same = list_eq; same_iff = list_eq_iff }

abbrev pub pair_same : List ℕ × List ℕ → List ℕ × List ℕ → Bool
pair_same a b = list_eq a.0 b.0 && list_eq a.1 b.1

pub pair_same_iff : (a b : List ℕ × List ℕ) → (pair_same a b ≡ true) ↔ (a ≡ b)
pair_same_iff (a, b) (c, d) = ground (arith, list_eq_iff a c, list_eq_iff b d)

instance abbrev pub pair_eq : Eq (List ℕ × List ℕ)
pair_eq = record { same = pair_same; same_iff = pair_same_iff }

module _ {K : Type 0} ⦃e : Eq K⦄ where
  unfoldable pub has : K → List K → Bool
  has k [] = false
  has k (j ∷ l) = e.same j k || has k l

  module _ {V : Type 0} where
    unfoldable pub get : K → List (K × V) → Option V
    get k [] = none
    get k ((j, v) ∷ m) = if e.same j k then some v else get k m

    unfoldable pub put : K → V → List (K × V) → List (K × V)
    put k v [] = (k, v) ∷ []
    put k v ((j, w) ∷ m) = let rest = put k v m in if e.same j k then (k, v) ∷ m else (j, w) ∷ rest

    unfoldable pub remove : K → List (K × V) → List (K × V)
    remove k [] = []
    remove k ((j, w) ∷ m) = let rest = remove k m in if e.same j k then rest else (j, w) ∷ rest

    pub get-put :
        (k j : K) (v : V) (m : List (K × V))
        → get j (put k v m) ≡ (if e.same k j then some v else get j m)
    unfolding get put
    get-put k j v [] = refl
    get-put k j v ((i, w) ∷ m) =
        ground (arith, e.same_iff i k, e.same_iff i j, e.same_iff k j, get-put k j v m)

    pub get-remove :
        (k j : K) (m : List (K × V)) → get j (remove k m) ≡ (if e.same k j then none else get j m)
    unfolding get remove
    get-remove k j [] = ground arith
    get-remove k j ((i, w) ∷ m) =
        ground (arith, e.same_iff i k, e.same_iff i j, e.same_iff k j, get-remove k j m)

  pub same_refl : (k : K) → e.same k k ≡ true
  same_refl k = (e.same_iff k k).1 refl
