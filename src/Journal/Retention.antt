-- ===== src/Journal/Retention.antt =====
-- What bounds the journal: `prune_acked` and `enforce` of src/journal.rs.
pub mod Limit
pub mod Evict
pub mod Bounded
use Prim.Native.String.{String}
use clove1db.Prelude.{
  ℕ, zero, suc, ◌+◌, ◌*◌, Bool, true, false, ◌&&◌, List, [], ◌∷◌, ◌++◌, Option, none, some, length,
  min, ltb, leb, ◌==◌, if◌then◌else◌,
}
use clove1db.Prelude.Results.{Result, ok, err, validation, ◌>>=◌, ◌>>◌, ok_or}
use clove1db.Memory.{Allocator}
use clove1db.Journal.Store.{Engine, Tx, Consumer, number}
use clove1db.Journal.Prune.{prune}

pub data Retention : Type 0 where
  unlimited : Retention
  default : Retention
  limit : ℕ → Retention

abbrev pub default_journal_max_bytes : ℕ
default_journal_max_bytes = 256 * 1024 * 1024

unfoldable pub max_bytes : Retention → Option ℕ
max_bytes unlimited = none
max_bytes default = some default_journal_max_bytes
max_bytes (limit n) = some n

-- The events of events.rs that `enforce` reports.
pub data LibraryEvent : Type 0 where
  index_rebuild_required : String → ℕ → LibraryEvent
  consumer_expired : String → ℕ → LibraryEvent

-- One element of `filter(active).map(acked_seq).min()`.
unfoldable pub least_step : Bool → ℕ → Option ℕ → Option ℕ
least_step false acked rest = rest
least_step true acked none = some acked
least_step true acked (some m) = some (min acked m)

-- The least acknowledged number among the active consumers.
unfoldable pub least_acked : List (String × Consumer) → Option ℕ
least_acked [] = none
least_acked ((name, c) ∷ l) = least_step c.active c.acked_seq (least_acked l)

-- `….min().unwrap_or(number(tx, "head")?)`
unfoldable pub acked_limit : List (String × Consumer) → ℕ → ℕ
acked_limit l head = elim (least_acked l) [ none ↦ head | some m ↦ m ]

-- One element of `filter(…).min_by_key(generation)`: of two with one generation the first counts.
unfoldable pub oldest_step :
    Bool → String × Consumer → Option (String × Consumer) → Option (String × Consumer)
oldest_step false entry rest = rest
oldest_step true entry none = some entry
oldest_step true entry (some other) =
    if ltb other.1.generation entry.1.generation then some other else some entry

-- Of the active consumers that acknowledged `m`, the first with the least generation.
unfoldable pub oldest : ℕ → List (String × Consumer) → Option (String × Consumer)
oldest m [] = none
oldest m ((name, c) ∷ l) = oldest_step (c.active && c.acked_seq == m) (name, c) (oldest m l)

-- The consumer that holds the rows back loses them: an index is marked for a rebuild at the head,
-- any other consumer expires.
unfoldable pub evicted : ℕ → Consumer → Consumer
evicted head c =
    if c.internal
    then record c { needs_rebuild = true; acked_seq = head }
    else record c { active = false }

unfoldable pub eviction_event : String → Consumer → LibraryEvent
eviction_event name c =
    if c.internal
    then index_rebuild_required name c.acked_seq
    else consumer_expired name c.acked_seq

module _ (granted : Allocator) (e : Engine) where
  unfoldable pub prune_acked : Tx e → Result (Tx e)
  prune_acked tx = do
    head ← number e tx "head"
    prune granted e tx (acked_limit (e.consumers.iter tx.consumers) head)

  unfoldable pub evict : Tx e → Result (Tx e × LibraryEvent)
  evict tx = do
    head ← number e tx "head"
    let all = e.consumers.iter tx.consumers
    (name, c) ← ok_or (oldest (acked_limit all head) all) (validation "journal cannot be pruned")
    ok (
      record tx { consumers = e.consumers.insert tx.consumers name (evicted head c) },
      eviction_event name c,
    )

  -- The loop of `enforce`, on fuel. What a `let` binds is computed only where it is used.
  unfoldable pub enforce_loop : ℕ → ℕ → Tx e → List LibraryEvent → Result (Tx e × List LibraryEvent)
  enforce_loop zero max tx events = ok (tx, events)
  enforce_loop (suc fuel) max tx events =
      let prune_more = do
        pruned ← prune_acked tx
        left ← number e pruned "journal_bytes"
        let evict_one = do
          (next, event) ← evict pruned
          enforce_loop fuel max next (events ++ event ∷ [])
        if leb left max then ok (pruned, events) else evict_one
      in do
        bytes ← number e tx "journal_bytes"
        if leb bytes max then ok (tx, events) else prune_more

  -- Each round of the loop takes an active consumer behind the head away, so one round more than
  -- there are consumers is enough.
  unfoldable pub enforce : Retention → Tx e → Result (Tx e × List LibraryEvent)
  enforce retention tx = elim (max_bytes retention) [
    | none ↦ ok (tx, [])
    | some max ↦ enforce_loop (length (e.consumers.iter tx.consumers) + 1) max tx []
  ]
