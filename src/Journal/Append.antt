-- ===== src/Journal/Append.antt =====
-- Appending effects and the write transaction of src/journal.rs: `append_effects` and `write_with_sink`.
-- The checks that other modules make inside the transaction are an interface, `RowChecks`.
pub mod Rows
pub mod Laws
use clove1db.Prelude.{
  ℕ, ◌+◌, Bool, true, false, List, [], ◌∷◌, ◌++◌, Option, none, some, length, ltb, if◌then◌else◌,
}
use clove1db.Prelude.Bytes.{Text, u64_mod}
use clove1db.Prelude.Results.{Result, ok, err, validation, ◌>>=◌, ◌>>◌, guard}
use clove1db.Memory.{Allocator}
use clove1db.Journal.Row.{ChangeKind, encode}
use clove1db.Journal.Store.{Engine, Tx, number, put_number, floor_of}
use clove1db.Journal.Retention.{Retention, LibraryEvent, prune_acked, enforce}

-- The tables of user data that id_contract.rs, unique.rs and lastwrite.rs keep in the same transaction.
pub record RowChecks : Type 1 where
  pub Data : Type 0
  pub id_contract : Data → List ChangeKind → Result (Unit {0})
  pub unique : Data → List ChangeKind → Result Data
  pub last_write : Data → ChangeKind → ℕ → Result Data

-- `checked_add` of a `u64`
abbrev pub checked_add : ℕ → ℕ → Option ℕ
checked_add a b = if ltb (a + b) u64_mod then some (a + b) else none

module _ (granted : Allocator) (e : Engine) where
  pub record Appended : Type 0 where
    pub head : ℕ
    pub bytes : ℕ
    pub changes : e.changes.Table

  -- One effect gets the next number and is written.
  unfoldable pub append_effect : Appended → ChangeKind → Result Appended
  append_effect s effect = do
    guard (ltb (s.head + 1) u64_mod) (validation "journal sequence exhausted")
    row ← encode granted effect
    guard (ltb (s.bytes + (8 + length row)) u64_mod) (validation "journal size overflow")
    ok (record {
      head = s.head + 1;
      bytes = s.bytes + (8 + length row);
      changes = e.changes.insert s.changes (s.head + 1) row;
    })

  unfoldable pub append_effects : Appended → List ChangeKind → Result Appended
  append_effects s [] = ok s
  append_effects s (effect ∷ effects) = append_effect s effect >>= λ t. append_effects t effects

  module _ (checks : RowChecks) where
    pub record WriteTx : Type 0 where
      pub journal : Tx e
      pub rows : checks.Data

    -- `lastwrite::apply` of each effect under its number.
    unfoldable pub apply_last_writes : checks.Data → ℕ → List ChangeKind → Result checks.Data
    apply_last_writes rows head [] = ok rows
    apply_last_writes rows head (effect ∷ effects) = do
      guard (ltb (head + 1) u64_mod) (validation "sequence exhausted")
      next ← checks.last_write rows effect (head + 1)
      apply_last_writes next (head + 1) effects

    -- The part of `write_with_sink` between the caller's closure and the commit.
    unfoldable pub finish_write :
        Retention → WriteTx → List ChangeKind → Result (WriteTx × List LibraryEvent)
    finish_write retention w effects = do
      checks.id_contract w.rows effects
      unique_rows ← checks.unique w.rows effects
      head ← number e w.journal "head"
      bytes ← number e w.journal "journal_bytes"
      rows ← apply_last_writes unique_rows head effects
      let start : Appended = record { head = head; bytes = bytes; changes = w.journal.changes }
      appended ← append_effects start effects
      let floored =
          put_number e (record (w.journal) { changes = appended.changes }) "floor"
            (floor_of (e.changes.iter appended.changes) appended.head)
      let headed = put_number e floored "head" appended.head
      let counted = put_number e headed "journal_bytes" appended.bytes
      pruned ← prune_acked granted e counted
      (kept, events) ← enforce granted e retention pruned
      ok (record { journal = kept; rows = rows }, events)
