-- ===== src/Journal/Prune/Laws.antt =====
-- `prune` keeps the journal in order (src/journal.rs).
use clove1db.Prelude.{
  ℕ, ◌+◌, ◌≤◌, ◌<◌, ◌≡◌, refl, ap, ◌∙◌, true, List, [], ◌∷◌, ◌++◌, arith, length, max, All,
  All-both, ltb, Bool-cases, inl, inr,
}
use clove1db.Prelude.Bytes.{u64_mod}
use clove1db.Prelude.Results.{ok}
use clove1db.Prelude.Table.Entries.{after}
use clove1db.Memory.{Allocator, Grants}
use clove1db.Journal.Store.{Engine, Tx, Consumer, read_word, write_word, floor_of}
use clove1db.Journal.Store.Counters.{read_word-write_word}
use clove1db.Journal.Invariant.{Numbered, row_cost, IsServed, IsJournal}
use clove1db.Journal.Prune.{prune}
use clove1db.Journal.Prune.Rows.{prune_rows_lem, Numbered-after, after-Numbered_all}

pub row_cost-after :
    (through : ℕ) (rows : List (ℕ × List ℕ)) → row_cost (after through rows) ≤ row_cost rows
unfolding after
row_cost-after through [] = omega arith
row_cost-after through ((k, row) ∷ rows) = ground (arith, row_cost-after through rows)

-- The first row, or one past the head, is where the numbering starts.
pub floor_of-Numbered :
    (next head : ℕ) (rows : List (ℕ × List ℕ))
    → head + 1 < u64_mod
    → Numbered next rows head
    → floor_of rows head ≡ next
unfolding floor_of
floor_of-Numbered next head [] h n = omega arith
floor_of-Numbered next head ((k, row) ∷ rows) h n = n.0

pub Numbered-floor :
    (next head : ℕ) (rows : List (ℕ × List ℕ)) → Numbered next rows head → next ≤ head + 1
Numbered-floor next head [] n = omega arith
Numbered-floor next head ((k, row) ∷ rows) n =
    omega (arith, Numbered-floor (next + 1) head rows n.2)

-- What stays is the end of the rows.
pub after-Numbered_end :
    (next head through : ℕ) (rows : List (ℕ × List ℕ))
    → Numbered next rows head
    → (gone : List (ℕ × List ℕ)) × (rows ≡ gone ++ after through rows)
unfolding after
after-Numbered_end next head through [] n = ([], refl)
after-Numbered_end next head through ((k, row) ∷ rows) n = elim (Bool-cases (ltb through k)) [
  | inl later ↦ (
    [],
    rw (later, after-Numbered_all (next + 1) head through rows (ground (arith, n.0)) n.2) refl,
  )
  | inr due_row ↦
      let (gone, split) = after-Numbered_end (next + 1) head through rows n.2 in
      ((k, row) ∷ gone, rw due_row (ap (λ l. (k, row) ∷ l) split))
]

IsServed-later :
    {floor head through : ℕ} (c : Consumer)
    → IsServed floor head c
    → (c.active ≡ true → through ≤ c.acked_seq)
    → IsServed (max floor (through + 1)) head c
IsServed-later c s later = record {
  kept = λ a. omega (arith, s.kept a, later a);
  reached = s.reached;
}

module _ (granted : Allocator) (e : Engine) (g : Grants granted) where
  -- Up to the head, pruning what every active consumer has acknowledged succeeds: it removes
  -- exactly those rows, and the journal stays in order.
  pub prune-IsJournal :
      (tx : Tx e) (floor head through : ℕ)
      → IsJournal e tx floor head
      → through ≤ head
      → All (λ c. c.1.active ≡ true → through ≤ c.1.acked_seq) (e.consumers.iter tx.consumers)
      → (tx' : Tx e) × (prune granted e tx through ≡ ok tx')
        × IsJournal e tx' (max floor (through + 1)) head
        × (e.changes.iter tx'.changes ≡ after through (e.changes.iter tx.changes))
        × (tx'.consumers ≡ tx.consumers)
  unfolding prune
  prune-IsJournal tx floor head through j h acked =
      let rows = e.changes.iter tx.changes in
      let cost : row_cost (after through rows) < u64_mod =
        omega (arith, row_cost-after through rows, j.bytes_fit) in
      let (done, ran, left, counted) =
        prune_rows_lem granted e g (length rows) through floor head
          (record { bytes = row_cost rows; changes = tx.changes; catalog = tx.catalog }) rows refl
          (omega arith) j.rows refl in
      let start = max floor (through + 1) in
      let numbered = Numbered-after floor head through rows h j.rows in
      let fits : done.bytes < u64_mod = omega arith in
      let fits_start : start < u64_mod =
        omega (arith, Numbered-floor floor head rows j.rows, j.head_fits) in
      let seq₁ = write_word e tx.seq "journal_bytes" done.bytes in
      let head_read : read_word e seq₁ "head" ≡ ok head =
        read_word-write_word e tx.seq "journal_bytes" "head" done.bytes fits ∙ j.head_read in
      let is_start : floor_of (e.changes.iter done.changes) head ≡ start =
        rw left (floor_of-Numbered start head (after through rows) j.head_fits numbered) in
      (
        record {
          seq = write_word e seq₁ "floor" start;
          changes = done.changes;
          consumers = tx.consumers;
          catalog = done.catalog;
        },
        rw (j.bytes_read, ran, head_read, is_start),
        record {
          head_read = read_word-write_word e seq₁ "floor" "head" start fits_start ∙ head_read;
          floor_read = read_word-write_word e seq₁ "floor" "floor" start fits_start;
          bytes_read =
              read_word-write_word e seq₁ "floor" "journal_bytes" start fits_start
              ∙ read_word-write_word e tx.seq "journal_bytes" "journal_bytes" done.bytes fits
              ∙ ap ok (rw left counted);
          rows = rw left numbered;
          head_fits = j.head_fits;
          bytes_fit = rw left cost;
          consumers =
              All-both _ _ _ (e.consumers.iter tx.consumers) (λ c. IsServed-later c.1) j.consumers
                acked;
        },
        left,
        refl,
      )
