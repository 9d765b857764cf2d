-- ===== src/Journal/Consumers.antt =====
-- Consumers of the journal in src/journal.rs: registration, tokens, acknowledgements and reading.
pub mod Reading
pub mod Tokens
pub mod Acks
use Prim.Native.String.{String}
use text.Mathlib.Text.{◌==◌ as str_eq}
use clove1db.Prelude.{
  ℕ, ◌+◌, ◌-◌, Bool, true, false, not, ◌&&◌, ◌||◌, List, [], ◌∷◌, ◌++◌, Option, none, some, length,
  take, ltb, ◌==◌, if◌then◌else◌, list_eq,
}
use clove1db.Prelude.Bytes.{u64_mod}
use clove1db.Prelude.Results.{
  Result, ok, err, ClError, validation, consumer_expired, consumer_needs_rebuild, ◌>>=◌, ◌>>◌,
  guard, ok_or,
}
use clove1db.Memory.{Allocator, reserve_one}
use clove1db.Journal.Row.{ChangeKind, decode}
use clove1db.Journal.Store.{Engine, Tx, Consumer, number, put_number}
use clove1db.Journal.Retention.{prune_acked}

pub record ConsumerToken : Type 0 where
  pub database_uuid : List ℕ
  pub name : String
  pub generation : ℕ

-- One committed effect.
pub record Change : Type 0 where
  pub seq : ℕ
  pub kind : ChangeKind

unfoldable pub check_token : ConsumerToken → List ℕ → Option Consumer → Result Consumer
check_token token uuid none = err consumer_expired
check_token token uuid (some c) =
    if not (list_eq token.database_uuid uuid)
      || (not (token.generation == c.generation) || not c.active)
    then err consumer_expired
    else if c.needs_rebuild
    then err consumer_needs_rebuild
    else ok c

module _ (granted : Allocator) (e : Engine) where
  unfoldable pub database_uuid : Tx e → Result (List ℕ)
  database_uuid tx = ok_or (e.seq.get tx.seq "db_uuid") (validation "missing database uuid")

  -- `get(name)?.is_some_and(|c| c.internal)`
  unfoldable pub is_internal : Tx e → String → Bool
  is_internal tx name = elim (e.consumers.get tx.consumers name) [
    | none ↦ false
    | some c ↦ c.internal
  ]

  -- What `register_journal_consumer` does inside its write transaction; `now` is the clock.
  unfoldable pub register : String → Bool → ℕ → Tx e → Result (ConsumerToken × Tx e)
  register name internal now tx = do
    guard (not (str_eq name "")) (validation "empty consumer name")
    guard (internal || not (is_internal tx name))
        (validation "internal consumer is managed by the library")
    last ← number e tx "consumer_generation"
    guard (ltb (last + 1) u64_mod) (validation "consumer generation exhausted")
    let counted = put_number e tx "consumer_generation" (last + 1)
    head ← number e counted "head"
    uuid ← database_uuid counted
    let c : Consumer = record {
      generation = last + 1;
      acked_seq = head;
      registered_at = now;
      active = true;
      internal = internal;
      needs_rebuild = false;
    }
    ok (
      record { database_uuid = uuid; name = name; generation = last + 1 },
      record counted { consumers = e.consumers.insert counted.consumers name c },
    )

  -- The consumer of a token, as `journal_read` and `ack` look it up.
  unfoldable pub token_consumer : ConsumerToken → Tx e → Result Consumer
  token_consumer token tx = do
    uuid ← database_uuid tx
    check_token token uuid (e.consumers.get tx.consumers token.name)

  -- What `ack` does inside its write transaction.
  unfoldable pub ack : ConsumerToken → ℕ → Tx e → Result (Tx e)
  ack token seq tx = do
    c ← token_consumer token tx
    head ← number e tx "head"
    guard (not (ltb seq c.acked_seq || ltb head seq)) (validation "invalid acknowledgement")
    prune_acked granted e (record tx {
      consumers = e.consumers.insert tx.consumers token.name (record c { acked_seq = seq });
    })

  -- What `unregister_consumer` does inside its write transaction.
  unfoldable pub unregister : String → Tx e → Result (Tx e)
  unregister name tx = do
    guard (not (is_internal tx name)) (validation "internal consumer is managed by the library")
    prune_acked granted e (record tx { consumers = e.consumers.remove tx.consumers name })

  unfoldable pub decode_rows : List (ℕ × List ℕ) → Result (List Change)
  decode_rows [] = ok []
  decode_rows ((k, row) ∷ rows) = do
    kind ← decode granted row
    reserve_one granted "journal.read_rows"
    rest ← decode_rows rows
    ok (record { seq = k; kind = kind } ∷ rest)

  -- On the snapshot of a read transaction; `floor - 1` is `saturating_sub`.
  unfoldable pub read_changes : ConsumerToken → ℕ → ℕ → Tx e → Result (List Change)
  read_changes token after limit tx = do
    _ ← token_consumer token tx
    floor ← number e tx "floor"
    guard (not (ltb after (floor - 1))) consumer_expired
    head ← number e tx "head"
    guard (not (ltb head after)) (validation "sequence is ahead of journal")
    decode_rows (take limit (e.changes.range_after tx.changes after))
