-- ===== src/Journal/Store.antt =====
-- The state of the journal inside a write transaction, and its counters (src/journal.rs). The values
-- of `__consumers` stand as records where the program stores their JSON.
pub mod Counters
use Prim.Native.String.{String}
use clove1db.Prelude.{
  ℕ, ◌+◌, Bool, true, false, List, [], ◌∷◌, Option, none, some, length, ◌==◌, if◌then◌else◌, min,
}
use clove1db.Prelude.Bytes.{Text, to_be, from_be, u64_mod}
use clove1db.Prelude.Results.{Result, ok, err, validation, ◌>>=◌, ◌>>◌, guard, ok_or}
use clove1db.Prelude.Table.{NameTable, NumberTable, Catalog}

pub record Consumer : Type 0 where
  pub generation : ℕ
  pub acked_seq : ℕ
  pub registered_at : ℕ
  pub active : Bool
  pub internal : Bool
  pub needs_rebuild : Bool

-- The engine's tables that the journal uses.
pub record Engine : Type 1 where
  pub seq : NameTable (List ℕ)
  pub changes : NumberTable (List ℕ)
  pub consumers : NameTable Consumer
  pub catalog : Catalog

-- A write transaction. A failed one is dropped, so an error carries no state.
pub record Tx (e : Engine) : Type 0 where
  pub seq : e.seq.Table
  pub changes : e.changes.Table
  pub consumers : e.consumers.Table
  pub catalog : e.catalog.Names

-- `u64::saturating_add`
abbrev pub saturating_add : ℕ → ℕ → ℕ
saturating_add a b = min (a + b) 0xffff_ffff_ffff_ffff

module _ (e : Engine) where
  unfoldable pub read_word : e.seq.Table → String → Result ℕ
  read_word table key = do
    v ← ok_or (e.seq.get table key) (validation "missing journal metadata")
    guard (length v == 8) (validation "corrupt journal metadata")
    ok (from_be v)

  unfoldable pub write_word : e.seq.Table → String → ℕ → e.seq.Table
  write_word table key value = e.seq.insert table key (to_be 8 value)

  abbrev pub number : Tx e → String → Result ℕ
  number tx key = read_word tx.seq key

  abbrev pub put_number : Tx e → String → ℕ → Tx e
  put_number tx key value = record tx { seq = write_word tx.seq key value }

  unfoldable pub mark_adoption_due : Tx e → Tx e
  mark_adoption_due tx = elim (e.seq.get tx.seq "head") [
    | none ↦ record tx { seq = e.seq.insert tx.seq "blob_adopt_due" (1 ∷ []) }
    | some _ ↦ tx
  ]

  -- The entries that a new log begins with.
  unfoldable pub fresh : List ℕ → Tx e → Tx e
  fresh uuid tx =
      let heads = put_number tx "head" 0 in
      let bytes = put_number heads "journal_bytes" 0 in
      let floors = put_number bytes "floor" 1 in
      let resets = put_number floors "reset_generation" 0 in
      let all = put_number resets "consumer_generation" 0 in
      record all { seq = e.seq.insert all.seq "db_uuid" uuid }

  unfoldable pub initialize : List ℕ → Tx e → Tx e
  initialize uuid tx = elim (e.seq.get tx.seq "head") [ none ↦ fresh uuid tx | some _ ↦ tx ]

-- The key of the first entry, or one past `head` (both places that compute the floor).
unfoldable pub floor_of : List (ℕ × List ℕ) → ℕ → ℕ
floor_of [] head = saturating_add head 1
floor_of ((k, _) ∷ _) head = k
