-- ===== src/Journal/Consumers/Reading.antt =====
-- A consumer reads every change after what it acknowledged, without a gap (src/journal.rs).
use clove1db.Prelude.{
  ℕ, zero, suc, ◌+◌, ◌-◌, ◌≤◌, ◌≡◌, refl, false, List, [], ◌∷◌, arith, length, take, map, min, max,
  ltb,
}
use clove1db.Prelude.Results.{ok}
use clove1db.Prelude.Table.Entries.{after}
use clove1db.Prelude.Table.Laws.{All-get}
use clove1db.Memory.{Allocator, Grants, reserve_one}
use clove1db.Journal.Row.{parts}
use clove1db.Journal.Row.RoundTrip.{row_bytes, decode-row}
use clove1db.Journal.Store.{Engine, Tx, Consumer}
use clove1db.Journal.Invariant.{wrote, IsServed, IsJournal, Numbered}
use clove1db.Journal.Prune.Rows.{Numbered-after}
use clove1db.Journal.Prune.Laws.{Numbered-floor}
use clove1db.Journal.Consumers.Tokens.{token_consumer_cases}
use clove1db.Journal.Consumers.{ConsumerToken, Change, token_consumer, decode_rows, read_changes}

-- Consecutive changes from number `next` on.
abbrev pub Sequential : ℕ → List Change → Type 0
Sequential next [] = Unit {0}
Sequential next (c ∷ cs) = (c.seq ≡ next) × Sequential (next + 1) cs

-- The row under which a change is stored.
abbrev pub stored : Change → ℕ × List ℕ
stored c = (c.seq, row_bytes (parts c.kind))

module _ (granted : Allocator) (e : Engine) (g : Grants granted) where
  decode_rows_lem :
      (limit next head : ℕ) (rows : List (ℕ × List ℕ))
      → Numbered next rows head
      → (cs : List Change) × (decode_rows granted e (take limit rows) ≡ ok cs)
        × (map stored cs ≡ take limit rows)
        × Sequential next cs
        × (length cs ≡ min limit (head + 1 - next))
  unfolding decode_rows reserve_one
  decode_rows_lem zero next head rows n = ([], refl, refl, tt, omega arith)
  decode_rows_lem (suc limit) next head [] n = ([], refl, refl, tt, omega arith)
  decode_rows_lem (suc limit) next head ((k, row) ∷ rows) (same, wrote c w written, n) =
      let (cs, ran, kept, seqs, count) = decode_rows_lem limit (next + 1) head rows n in
      (
        record { seq = k; kind = c } ∷ cs,
        rw (written, decode-row granted c g w, g, ran),
        rw (written, kept),
        (same, seqs),
        omega (arith, count, Numbered-floor (next + 1) head rows n),
      )

  -- What an active consumer has not acknowledged it can read: from `after` on, which may be what it
  -- acknowledged or any later number up to the head, `read_changes` never answers that the consumer
  -- expired. It returns the stored changes after + 1, after + 2, ... without a gap, as many as the
  -- limit allows up to the head.
  pub read_changes_complete :
      (tx : Tx e) (floor head from limit : ℕ) (token : ConsumerToken) (c : Consumer)
      → IsJournal e tx floor head
      → token_consumer granted e token tx ≡ ok c
      → c.acked_seq ≤ from
      → from ≤ head
      → (cs : List Change) × (read_changes granted e token from limit tx ≡ ok cs)
        × Sequential (from + 1) cs
        × (length cs ≡ min limit (head - from))
        × (map stored cs ≡ take limit (after from (e.changes.iter tx.changes)))
  unfolding read_changes
  read_changes_complete tx floor head from limit token c j valid acked reached =
      let (found, accepted) = token_consumer_cases granted e token tx c valid in
      let served =
        All-get e.consumers (IsServed floor head) tx.consumers token.name j.consumers found in
      let kept = served.kept accepted.active in
      let rows = e.changes.iter tx.changes in
      let start : max floor (from + 1) ≡ from + 1 = omega arith in
      let numbered : Numbered (from + 1) (after from rows) head =
        rw start at (Numbered-after floor head from rows reached j.rows) in
      let (cs, ran, same, seqs, count) =
        decode_rows_lem limit (from + 1) head (after from rows) numbered in
      let not_early : ltb from (floor - 1) ≡ false = ground arith in
      let not_ahead : ltb head from ≡ false = ground arith in
      (
        cs,
        rw (valid, j.floor_read, not_early, j.head_read, not_ahead, e.changes.range_law) ran,
        seqs,
        omega (arith, count),
        same,
      )
