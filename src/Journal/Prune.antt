-- ===== src/Journal/Prune.antt =====
-- Removing the rows of `__changes` that no consumer needs any more: `prune` of src/journal.rs.
pub mod Rows
pub mod Laws
use clove1db.Prelude.{
  ℕ, zero, suc, ◌+◌, ◌-◌, Bool, true, false, List, [], ◌∷◌, ◌++◌, Option, none, some, length, leb,
  ◌==◌, if◌then◌else◌, get_elem?,
}
use clove1db.Prelude.Bytes.{Text}
use clove1db.Prelude.Results.{Result, ok, err, validation, ◌>>=◌, ◌>>◌, guard, ok_or}
use clove1db.Memory.{Allocator}
use clove1db.Journal.Row.{ChangeKind, upsert, delete, table_reset, blob_put, blob_delete, decode}
use clove1db.Journal.Store.{Engine, Tx, number, put_number, floor_of}

abbrev pub has_byte : List ℕ → ℕ → ℕ → Bool
has_byte row i b = elim (get_elem? row i) [ none ↦ false | some x ↦ x == b ]

abbrev pub snapshot_name : ChangeKind → Option Text
snapshot_name (table_reset _ snapshot) = some snapshot
snapshot_name _ = none

-- "_blobs"
abbrev pub blobs_suffix : Text
blobs_suffix = b'_' ∷ b'b' ∷ b'l' ∷ b'o' ∷ b'b' ∷ b's' ∷ []

-- The snapshot table that a row keeps alive, if it is a table reset.
unfoldable pub snapshot_of : Allocator → List ℕ → Result (Option Text)
snapshot_of granted row = do
  guard (has_byte row 0 1) (validation "unsupported journal row")
  if has_byte row 1 2 then (do c ← decode granted row; ok (snapshot_name c)) else ok none

module _ (granted : Allocator) (e : Engine) where
  pub record Pruned : Type 0 where
    pub bytes : ℕ
    pub changes : e.changes.Table
    pub catalog : e.catalog.Names

  -- `rows.first()?.is_some_and(|(key, _)| key.value() <= through)`
  unfoldable pub due : ℕ → e.changes.Table → Bool
  due through changes = elim (e.changes.iter changes) [ [] ↦ false | row ∷ _ ↦ leb row.0 through ]

  unfoldable pub delete_snapshot : e.catalog.Names → Option Text → e.catalog.Names
  delete_snapshot names none = names
  delete_snapshot names (some snapshot) =
      e.catalog.delete_table (e.catalog.delete_table names snapshot) (snapshot ++ blobs_suffix)

  -- One round of the loop: the first row is taken out and accounted for.
  unfoldable pub prune_row : Pruned → Result Pruned
  prune_row s = do
    ((k, row), rest) ← ok_or (e.changes.pop_first s.changes) (validation "journal row disappeared")
    snapshot ← snapshot_of granted row
    guard (leb (8 + length row) s.bytes) (validation "invalid journal byte accounting")
    ok (record {
      bytes = s.bytes - (8 + length row);
      changes = rest;
      catalog = delete_snapshot s.catalog snapshot;
    })

  -- The loop, on as much fuel as there are rows.
  unfoldable pub prune_rows : ℕ → ℕ → Pruned → Result Pruned
  prune_rows zero through s = ok s
  prune_rows (suc fuel) through s = elim (due through s.changes) [
    | true ↦ prune_row s >>= prune_rows fuel through
    | false ↦ ok s
  ]

  unfoldable pub prune : Tx e → ℕ → Result (Tx e)
  prune tx through = do
    bytes ← number e tx "journal_bytes"
    let start : Pruned = record { bytes = bytes; changes = tx.changes; catalog = tx.catalog }
    done ← prune_rows (length (e.changes.iter tx.changes)) through start
    let counted =
        put_number e (record tx { changes = done.changes; catalog = done.catalog }) "journal_bytes"
          done.bytes
    head ← number e counted "head"
    ok (put_number e counted "floor" (floor_of (e.changes.iter done.changes) head))
