-- ===== src/Prelude/Table.antt =====
-- The tables of the database engine (redb), as far as the program relies on them. The engine is not
-- part of this repository, so its tables are interfaces: operations, and its documented behaviour as
-- laws over `iter`, the entries in key order. Errors of the engine itself abort a transaction and
-- are not part of the model.
pub mod Entries
pub mod Laws
pub mod ListTables
use Prim.Native.Nat.{ℕ}
use Prim.Native.String.{String}
use mathlib.Core.Path.{◌≡◌}
use mathlib.Core.List.{List, [], ◌∷◌, ◌++◌}
use mathlib.Core.Option.{Option, none, some}
use mathlib.Core.Bool.{Bool, false}
use clove1db.Prelude.Tests.{list_eq, if◌then◌else◌}
use clove1db.Prelude.Table.Entries.{find, replace, without, insert_number, find_number, after}

-- A table with `&str` keys.
pub record NameTable (V : Type 0) : Type 1 where
  pub Table : Type 0
  pub iter : Table → List (String × V)
  pub get : Table → String → Option V
  pub insert : Table → String → V → Table
  pub remove : Table → String → Table
  pub get_law : (t : Table) (k : String) → get t k ≡ find k (iter t)
  -- an old key keeps its place
  pub insert_old :
      (t : Table) (k : String) (v : V) {w : V}
      → find k (iter t) ≡ some w
      → iter (insert t k v) ≡ replace k v (iter t)
  -- a new key goes somewhere between the others
  pub insert_new :
      (t : Table) (k : String) (v : V)
      → find k (iter t) ≡ none
      → (front : List (String × V)) × (back : List (String × V)) × (iter t ≡ front ++ back)
        × (iter (insert t k v) ≡ front ++ (k, v) ∷ back)
  pub remove_law : (t : Table) (k : String) → iter (remove t k) ≡ without k (iter t)

-- A table with `u64` keys.
pub record NumberTable (V : Type 0) : Type 1 where
  pub Table : Type 0
  pub iter : Table → List (ℕ × V)
  pub get : Table → ℕ → Option V
  pub insert : Table → ℕ → V → Table
  -- the entry with the least key, and the table without it
  pub pop_first : Table → Option ((ℕ × V) × Table)
  -- `range((Excluded(k), Unbounded))`
  pub range_after : Table → ℕ → List (ℕ × V)
  pub get_law : (t : Table) (k : ℕ) → get t k ≡ find_number k (iter t)
  pub insert_law : (t : Table) (k : ℕ) (v : V) → iter (insert t k v) ≡ insert_number k v (iter t)
  pub pop_none : (t : Table) → iter t ≡ [] → pop_first t ≡ none
  pub pop_some :
      (t : Table) {e : ℕ × V} {rest : List (ℕ × V)}
      → iter t ≡ e ∷ rest
      → (u : Table) × (pop_first t ≡ some (e, u)) × (iter u ≡ rest)
  pub range_law : (t : Table) (k : ℕ) → range_after t k ≡ after k (iter t)

-- The tables of a database by name, for the ones that are made and deleted at run time.
pub record Catalog : Type 1 where
  pub Names : Type 0
  pub has_table : Names → List ℕ → Bool
  pub delete_table : Names → List ℕ → Names
  pub delete_law :
      (c : Names) (n m : List ℕ)
      → has_table (delete_table c n) m ≡ (if list_eq n m then false else has_table c m)
