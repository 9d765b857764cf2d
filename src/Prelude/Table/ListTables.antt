-- ===== src/Prelude/Table/ListTables.antt =====
-- Tables that are their list of entries: the interfaces can be met.
use Prim.Native.Nat.{ℕ}
use Prim.Native.String.{String}
use mathlib.Core.Path.{◌≡◌, refl, sym}
use mathlib.Core.Bool.{Bool, true, false}
use mathlib.Core.List.{List, [], ◌∷◌, ◌++◌, append-nil}
use mathlib.Core.Option.{Option, none, some}
use native.Mathlib.Omega.{arith}
use clove1db.Prelude.Tests.{if◌then◌else◌, list_eq, list_eq_iff}
use clove1db.Prelude.Table.{NameTable, NumberTable, Catalog}
use clove1db.Prelude.Table.Entries.{find, replace, without, insert_number, find_number, after}

module _ {V : Type 0} where
  -- An old key keeps its place, a new one comes last.
  abbrev pub put_name : List (String × V) → String → V → List (String × V)
  put_name l k v = elim (find k l) [ none ↦ l ++ (k, v) ∷ [] | some w ↦ replace k v l ]

  pub put_name_old :
      (l : List (String × V)) (k : String) (v : V) {w : V}
      → find k l ≡ some w
      → put_name l k v ≡ replace k v l
  put_name_old l k v h = rw (h, put_name)

  pub put_name_new :
      (l : List (String × V)) (k : String) (v : V)
      → find k l ≡ none
      → (front : List (String × V)) × (back : List (String × V)) × (l ≡ front ++ back)
        × (put_name l k v ≡ front ++ (k, v) ∷ back)
  put_name_new l k v h = (l, [], sym (append-nil l), rw (h, put_name))

  abbrev pub pop : List (ℕ × V) → Option ((ℕ × V) × List (ℕ × V))
  pop [] = none
  pop (e ∷ rest) = some (e, rest)

  pub pop_nil : (l : List (ℕ × V)) → l ≡ [] → pop l ≡ none
  pop_nil l h = rw h

  pub pop_cons :
      (l : List (ℕ × V)) {e : ℕ × V} {rest : List (ℕ × V)}
      → l ≡ e ∷ rest
      → (u : List (ℕ × V)) × (pop l ≡ some (e, u)) × (u ≡ rest)
  pop_cons l {e} {rest} h = (rest, rw h, refl)

abbrev pub name_table : (V : Type 0) → NameTable V
name_table V = record {
  Table = List (String × V);
  iter = λ t. t;
  get = λ t k. find k t;
  insert = put_name;
  remove = λ t k. without k t;
  get_law = λ t k. refl;
  insert_old = put_name_old;
  insert_new = put_name_new;
  remove_law = λ t k. refl;
}

abbrev pub number_table : (V : Type 0) → NumberTable V
number_table V = record {
  Table = List (ℕ × V);
  iter = λ t. t;
  get = λ t k. find_number k t;
  insert = λ t k v. insert_number k v t;
  pop_first = pop;
  range_after = λ t k. after k t;
  get_law = λ t k. refl;
  insert_law = λ t k v. refl;
  pop_none = pop_nil;
  pop_some = pop_cons;
  range_law = λ t k. refl;
}

abbrev pub has_name : List (List ℕ) → List ℕ → Bool
has_name [] m = false
has_name (n ∷ l) m = if list_eq n m then true else has_name l m

abbrev pub drop_name : List (List ℕ) → List ℕ → List (List ℕ)
drop_name [] n = []
drop_name (m ∷ l) n = let rest = drop_name l n in if list_eq n m then rest else m ∷ rest

pub drop_name_law :
    (l : List (List ℕ)) (n m : List ℕ)
    → has_name (drop_name l n) m ≡ (if list_eq n m then false else has_name l m)
drop_name_law [] n m = ground arith
drop_name_law (x ∷ l) n m =
    ground (arith, list_eq_iff n x, list_eq_iff x m, list_eq_iff n m, drop_name_law l n m)

abbrev pub list_catalog : Catalog
list_catalog = record {
  Names = List (List ℕ);
  has_table = has_name;
  delete_table = drop_name;
  delete_law = drop_name_law;
}
