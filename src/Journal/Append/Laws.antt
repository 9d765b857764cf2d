-- ===== src/Journal/Append/Laws.antt =====
-- A write transaction keeps the journal in order and within its limit (src/journal.rs).
use clove1db.Prelude.{
  ℕ, ◌+◌, ◌≤◌, ◌<◌, ◌≡◌, refl, sym, ap, ◌∙◌, List, ◌++◌, arith, length, All, All-map,
}
use mathlib.Core.Path.{subst}
use clove1db.Prelude.Bytes.{u64_mod}
use clove1db.Prelude.Results.{ok}
use clove1db.Memory.{Allocator, Grants}
use clove1db.Journal.Row.{ChangeKind, IsWellFormed}
use clove1db.Journal.Store.{Engine, Tx, Consumer, put_number, write_word, floor_of}
use clove1db.Journal.Store.Counters.{read_word-write_word}
use clove1db.Journal.Invariant.{IsServed, IsJournal, Numbered, row_cost}
use clove1db.Journal.Prune.Laws.{Numbered-floor, floor_of-Numbered, after-Numbered_end}
use clove1db.Journal.Retention.{Retention, LibraryEvent, max_bytes}
use clove1db.Journal.Retention.Limit.{prune_acked-IsJournal}
use clove1db.Journal.Retention.Bounded.{IsBounded, IsBounded-earlier, enforce-IsBounded}
use clove1db.Journal.Append.{RowChecks, Appended, WriteTx, apply_last_writes, finish_write}
use clove1db.Journal.Append.Rows.{new_rows, row_cost-append, append_effects_lem}

IsServed-grow :
    {floor head head' : ℕ} (c : Consumer)
    → head ≤ head'
    → IsServed floor head c
    → IsServed floor head' c
IsServed-grow c h s = record { kept = s.kept; reached = λ a. omega (arith, s.reached a) }

module _ (granted : Allocator) (e : Engine) (g : Grants granted) where
  -- The counters that `write_with_sink` writes after the rows.
  abbrev counted : Tx e → Appended granted e → Tx e
  counted tx t =
      let floored =
        put_number e (record tx { changes = t.changes }) "floor"
          (floor_of (e.changes.iter t.changes) t.head) in
      put_number e (put_number e floored "head" t.head) "journal_bytes" t.bytes

  counted-IsJournal :
      (tx : Tx e) (t : Appended granted e) (floor head : ℕ)
      → IsJournal e tx floor head
      → head ≤ t.head
      → t.head + 1 < u64_mod
      → t.bytes < u64_mod
      → Numbered floor (e.changes.iter t.changes) t.head
      → t.bytes ≡ row_cost (e.changes.iter t.changes)
      → IsJournal e (counted tx t) floor t.head
  counted-IsJournal tx t floor head j grown hf bf n b =
      let rows = e.changes.iter t.changes in
      let start = floor_of-Numbered floor t.head rows hf n in
      let floor_fits : floor_of rows t.head < u64_mod =
        omega (arith, Numbered-floor floor t.head rows n) in
      let seq₁ = write_word e tx.seq "floor" (floor_of rows t.head) in
      let seq₂ = write_word e seq₁ "head" t.head in
      let head_fits : t.head < u64_mod = omega arith in
      record {
        head_read =
            read_word-write_word e seq₂ "journal_bytes" "head" t.bytes bf
            ∙ read_word-write_word e seq₁ "head" "head" t.head head_fits;
        floor_read =
            read_word-write_word e seq₂ "journal_bytes" "floor" t.bytes bf
            ∙ read_word-write_word e seq₁ "head" "floor" t.head head_fits
            ∙ read_word-write_word e tx.seq "floor" "floor" (floor_of rows t.head) floor_fits
            ∙ ap ok start;
        bytes_read =
            read_word-write_word e seq₂ "journal_bytes" "journal_bytes" t.bytes bf ∙ ap ok b;
        rows = n;
        head_fits = hf;
        bytes_fit = omega arith;
        consumers =
            All-map _ _ (e.consumers.iter tx.consumers) (λ c. IsServed-grow c.1 grown) j.consumers;
      }

  module _ (checks : RowChecks) where
    -- In a journal in order, for effects that are well formed, where memory is granted, the counters
    -- have room and the other modules' checks pass, a write transaction succeeds under every retention. The journal
    -- stays in order. Its rows are the last ones of the old rows followed by the encoding of each
    -- effect, in order, under the next numbers. Under a limit they cost no more than the limit, and at
    -- most as many consumers are evicted as were active and behind; without a limit none is.
    pub finish_write-IsBounded :
        (retention : Retention) (floor head : ℕ) (w : WriteTx granted e checks)
        (effects : List ChangeKind) (unique_rows rows : checks.Data)
        → IsJournal e w.journal floor head
        → All IsWellFormed effects
        → head + length effects + 1 < u64_mod
        → row_cost (e.changes.iter (w.journal).changes) + row_cost (new_rows head effects) < u64_mod
        → checks.id_contract w.rows effects ≡ ok tt
        → checks.unique w.rows effects ≡ ok unique_rows
        → apply_last_writes granted e checks unique_rows head effects ≡ ok rows
        → (w' : WriteTx granted e checks) × (events : List LibraryEvent) × (finish_write granted e
              checks retention w effects
            ≡ ok (w', events))
          × (w'.rows ≡ rows)
          × IsBounded e
              (max_bytes retention)
              (head + length effects)
              (e.changes.iter (w.journal).changes ++ new_rows head effects)
              (e.consumers.iter (w.journal).consumers)
              w'.journal
              events
    unfolding finish_write
    finish_write-IsBounded retention floor head w effects unique_rows rows j f hf bf i u l =
        let start : Appended granted e = record {
          head = head;
          bytes = row_cost (e.changes.iter (w.journal).changes);
          changes = (w.journal).changes;
        } in
        let (t, ran, at_head, listed, cost, numbered) =
          append_effects_lem granted e g effects start floor f j.rows refl (omega arith) bf in
        let fits : t.bytes < u64_mod = omega (
          arith,
          cost,
          ap row_cost listed,
          row_cost-append (e.changes.iter (w.journal).changes) (new_rows head effects),
        ) in
        let k =
          counted-IsJournal w.journal t floor head j (omega arith) (omega arith) fits numbered
            cost in
        let (pruned, ran₂, k₂, left, same) = prune_acked-IsJournal granted e g _ floor t.head k in
        let (kept, events, ran₃, b, _) =
          enforce-IsBounded granted e g retention _ t.head pruned k₂ in
        (
          record { journal = kept; rows = rows },
          events,
          rw (i, u, j.head_read, j.bytes_read, l, ran, ran₂, ran₃),
          refl,
          subst
              (λ n.
                IsBounded e (max_bytes retention) n
                  (e.changes.iter (w.journal).changes ++ new_rows head effects)
                  (e.consumers.iter (w.journal).consumers) kept events)
              at_head
              (IsBounded-earlier e _ _ _ _ (counted w.journal t) pruned kept events (sym listed)
                (after-Numbered_end floor t.head _ _ numbered) left same b),
        )
