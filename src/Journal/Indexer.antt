-- ===== src/Journal/Indexer.antt =====
-- The journal's figures, and the consumer that the library keeps for its indexes (src/journal.rs).
pub mod Laws
use Prim.Native.String.{String}
use clove1db.Prelude.{ℕ, Bool, true, false, not, ◌&&◌, List, Option, none, some, if◌then◌else◌}
use clove1db.Prelude.Results.{Result, ok, ◌>>=◌}
use clove1db.Memory.{Allocator}
use clove1db.Journal.Store.{Engine, Tx, Consumer, number}
use clove1db.Journal.Consumers.{ConsumerToken, database_uuid, register}

pub record JournalStats : Type 0 where
  pub head : ℕ
  pub floor : ℕ
  pub journal_bytes : ℕ
  pub database_uuid : List ℕ

abbrev pub indexer : String
indexer = "__indexer"

-- The consumer is the library's own, is served, and does not ask for a rebuild.
abbrev pub can_resume : Consumer → Bool
can_resume c = c.internal && (c.active && not c.needs_rebuild)

module _ (granted : Allocator) (e : Engine) where
  unfoldable pub journal_stats : Tx e → Result JournalStats
  journal_stats tx = do
    uuid ← database_uuid granted e tx
    head ← number e tx "head"
    floor ← number e tx "floor"
    bytes ← number e tx "journal_bytes"
    ok (record { head = head; floor = floor; journal_bytes = bytes; database_uuid = uuid })

  -- The token of the index consumer, the state with it, and whether the indexes begin anew.
  unfoldable pub resume_index_consumer : ℕ → Tx e → Result ((ConsumerToken × Tx e) × Bool)
  resume_index_consumer now tx = do
    uuid ← database_uuid granted e tx
    let anew = register granted e indexer true now tx >>= λ r. ok (r, true)
    existing (e.consumers.get tx.consumers indexer) uuid anew
    where
      resumed : Consumer → List ℕ → ConsumerToken
      resumed c uuid = record { database_uuid = uuid; name = indexer; generation = c.generation }

      existing :
          Option Consumer
          → List ℕ
          → Result ((ConsumerToken × Tx e) × Bool)
          → Result ((ConsumerToken × Tx e) × Bool)
      existing none uuid anew = anew
      existing (some c) uuid anew = if can_resume c then ok ((resumed c uuid, tx), false) else anew

  -- What `disable_index_consumer` does inside its write transaction.
  unfoldable pub disable_index_consumer : Tx e → Tx e
  disable_index_consumer tx = disable (e.consumers.get tx.consumers indexer)
    where
      inactive : Consumer → Tx e
      inactive c = record tx {
        consumers = e.consumers.insert tx.consumers indexer (record c { active = false });
      }

      disable : Option Consumer → Tx e
      disable none = tx
      disable (some c) = if c.internal then inactive c else tx
