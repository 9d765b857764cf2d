-- ===== src/LastWrite.antt =====
-- The number of the last write of every row (src/lastwrite.rs). The key of a row in `__lastwrite` is
-- the JSON of its table and its key: `key` and `parse` are parameters.
pub mod Laws
mod Examples
use clove1db.Prelude.{
  ℕ, Bool, true, false, not, List, [], ◌∷◌, Option, none, some, list_eq, if◌then◌else◌,
}
use clove1db.Prelude.Bytes.{Text}
use clove1db.Journal.Row.{ChangeKind, upsert, delete, table_reset, blob_put, blob_delete}

abbrev pub Writes : Type 0
Writes = List (List ℕ × ℕ)

unfoldable pub number_at : List ℕ → Writes → Option ℕ
number_at k [] = none
number_at k ((j, v) ∷ m) = if list_eq j k then some v else number_at k m

unfoldable pub put : List ℕ → ℕ → Writes → Writes
put k v [] = (k, v) ∷ []
put k v ((j, w) ∷ m) = let rest = put k v m in if list_eq j k then (k, v) ∷ m else (j, w) ∷ rest

unfoldable pub retain : (List ℕ → Bool) → Writes → Writes
retain keep [] = []
retain keep ((j, w) ∷ m) = let rest = retain keep m in if keep j then (j, w) ∷ rest else rest

abbrev pub or_zero : Option ℕ → ℕ
or_zero none = 0
or_zero (some v) = v

module _ (key : Text → Text → List ℕ) (parse : List ℕ → Option (Text × Text)) where
  unfoldable pub last_write : Text → Text → Writes → ℕ
  last_write table row m = or_zero (number_at (key table row) m)

  -- A key of another table, or none that can be read.
  unfoldable pub is_other : Text → List ℕ → Bool
  is_other table k = other (parse k)
    where
      other : Option (Text × Text) → Bool
      other none = true
      other (some (name, row)) = not (list_eq name table)

  unfoldable pub put_all : Text → ℕ → List Text → Writes → Writes
  put_all table seq [] m = m
  put_all table seq (row ∷ rows) m = put_all table seq rows (put (key table row) seq m)

  -- `rows` are the keys of the rows that the table has in the transaction.
  unfoldable pub apply : (Text → List Text) → ChangeKind → ℕ → Writes → Writes
  apply rows (upsert table row value) seq m = put (key table row) seq m
  apply rows (delete table row) seq m = retain (λ k. not (list_eq k (key table row))) m
  apply rows (table_reset table snapshot) seq m =
      put_all table seq (rows table) (retain (is_other table) m)
  apply rows _ seq m = m
