-- ===== src/Journal/Invariant.antt =====
-- What holds of the journal between transactions: rows are numbered without a gap up to the head,
-- every row is one that `encode` wrote, and the counters agree with the rows.
use clove1db.Prelude.{ℕ, ◌+◌, ◌≤◌, ◌<◌, ◌≡◌, true, List, [], ◌∷◌, length, All}
use clove1db.Prelude.Bytes.{u64_mod}
use clove1db.Prelude.Results.{ok}
use clove1db.Journal.Row.{ChangeKind, IsWellFormed, parts}
use clove1db.Journal.Row.RoundTrip.{row_bytes}
use clove1db.Journal.Store.{Engine, Tx, Consumer, number}

pub data IsRow (row : List ℕ) : Type 0 where
  wrote : (c : ChangeKind) → IsWellFormed c → row ≡ row_bytes (parts c) → IsRow row

-- The rows have the numbers next, next + 1, ..., head.
abbrev pub Numbered : ℕ → List (ℕ × List ℕ) → ℕ → Type 0
Numbered next [] head = next ≡ head + 1
Numbered next ((k, row) ∷ rows) head = (k ≡ next) × IsRow row × Numbered (next + 1) rows head

-- What the rows cost: eight bytes for the number, and the row.
abbrev pub row_cost : List (ℕ × List ℕ) → ℕ
row_cost [] = 0
row_cost ((k, row) ∷ rows) = 8 + length row + row_cost rows

-- An active consumer has acknowledged nothing beyond the head, and the rows after what it has
-- acknowledged are all there.
pub record IsServed (floor head : ℕ) (c : Consumer) : Type 0 where
  pub kept : c.active ≡ true → floor ≤ c.acked_seq + 1
  pub reached : c.active ≡ true → c.acked_seq ≤ head

pub record IsJournal (e : Engine) (tx : Tx e) (floor head : ℕ) : Type 0 where
  pub head_read : number e tx "head" ≡ ok head
  pub floor_read : number e tx "floor" ≡ ok floor
  pub bytes_read : number e tx "journal_bytes" ≡ ok (row_cost (e.changes.iter tx.changes))
  pub rows : Numbered floor (e.changes.iter tx.changes) head
  pub head_fits : head + 1 < u64_mod
  pub bytes_fit : row_cost (e.changes.iter tx.changes) < u64_mod
  pub consumers : All (λ c. IsServed floor head c.1) (e.consumers.iter tx.consumers)
