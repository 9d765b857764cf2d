-- ===== src/Journal/Indexer/Laws.antt =====
-- A new journal is well-formed, and taking the index consumer out of service keeps it so.
use Prim.Native.String.{String}
use text.Mathlib.Text.{◌==◌ as str_eq}
use clove1db.Prelude.{
  ℕ, ◌<◌, ◌≡◌, refl, sym, ◌∙◌, ap, true, false, List, [], arith, Bool, none, some, All, Option,
  if◌then◌else◌,
}
use mathlib.Core.Path.{subst}
use clove1db.Prelude.Bytes.{u64_mod}
use clove1db.Prelude.Results.{ok}
use clove1db.Prelude.Table.Laws.{All-insert, get-insert}
use clove1db.Memory.{Allocator}
use clove1db.Journal.Store.{Engine, Tx, Consumer, read_word, write_word, fresh, initialize}
use clove1db.Journal.Store.Counters.{read_word-write_word}
use clove1db.Journal.Invariant.{IsServed, IsJournal, Numbered, row_cost}
use clove1db.Journal.Indexer.{indexer, disable_index_consumer}

module _ (e : Engine) where
  -- Another entry of `__seq` leaves a counter as it is.
  read_word-insert :
      (t : e.seq.Table) (k j : String) (v : List ℕ)
      → str_eq k j ≡ false
      → read_word e (e.seq.insert t k v) j ≡ read_word e t j
  unfolding read_word
  read_word-insert t k j v h = rw (get-insert e.seq, h)

  skip :
      (t : e.seq.Table) (k j : String) (v : ℕ)
      → v < u64_mod
      → str_eq k j ≡ false
      → read_word e (write_word e t k v) j ≡ read_word e t j
  skip t k j v h other = read_word-write_word e t k j v h ∙ rw other

  here :
      (t : e.seq.Table) (k : String) (v : ℕ)
      → v < u64_mod
      → str_eq k k ≡ true
      → read_word e (write_word e t k v) k ≡ ok v
  here t k v h same = read_word-write_word e t k k v h ∙ rw same

  fresh-IsJournal :
      (uuid : List ℕ) (tx : Tx e)
      → e.changes.iter tx.changes ≡ []
      → e.consumers.iter tx.consumers ≡ []
      → IsJournal e (fresh e uuid tx) 1 0
  unfolding fresh
  fresh-IsJournal uuid tx empty alone =
      let heads = write_word e tx.seq "head" 0 in
      let bytes = write_word e heads "journal_bytes" 0 in
      let floors = write_word e bytes "floor" 1 in
      let resets = write_word e floors "reset_generation" 0 in
      let all = write_word e resets "consumer_generation" 0 in
      let zero_fits : 0 < u64_mod = omega arith in
      let one_fits : 1 < u64_mod = omega arith in
      record {
        head_read =
            read_word-insert all "db_uuid" "head" uuid refl
            ∙ skip resets "consumer_generation" "head" 0 zero_fits refl
            ∙ skip floors "reset_generation" "head" 0 zero_fits refl
            ∙ skip bytes "floor" "head" 1 one_fits refl
            ∙ skip heads "journal_bytes" "head" 0 zero_fits refl
            ∙ here tx.seq "head" 0 zero_fits refl;
        floor_read =
            read_word-insert all "db_uuid" "floor" uuid refl
            ∙ skip resets "consumer_generation" "floor" 0 zero_fits refl
            ∙ skip floors "reset_generation" "floor" 0 zero_fits refl
            ∙ here bytes "floor" 1 one_fits refl;
        bytes_read =
            read_word-insert all "db_uuid" "journal_bytes" uuid refl
            ∙ skip resets "consumer_generation" "journal_bytes" 0 zero_fits refl
            ∙ skip floors "reset_generation" "journal_bytes" 0 zero_fits refl
            ∙ skip bytes "floor" "journal_bytes" 1 one_fits refl
            ∙ here heads "journal_bytes" 0 zero_fits refl
            ∙ ap (λ l. ok (row_cost l)) (sym empty);
        rows = subst (λ l. Numbered 1 l 0) (sym empty) refl;
        head_fits = omega arith;
        bytes_fit = subst (λ l. row_cost l < u64_mod) (sym empty) zero_fits;
        consumers = subst (All (λ c. IsServed 1 0 c.1)) (sym alone) tt;
      }

  initialize-new :
      (uuid : List ℕ) (tx : Tx e)
      → e.seq.get tx.seq "head" ≡ none
      → initialize e uuid tx ≡ fresh e uuid tx
  unfolding initialize fresh
  initialize-new uuid tx new = rw (new, initialize)

  -- In a database without a log, `initialize` makes one that is well-formed: no row, the head at
  -- zero and the floor at one.
  pub initialize-IsJournal :
      (uuid : List ℕ) (tx : Tx e)
      → e.seq.get tx.seq "head" ≡ none
      → e.changes.iter tx.changes ≡ []
      → e.consumers.iter tx.consumers ≡ []
      → IsJournal e (initialize e uuid tx) 1 0
  initialize-IsJournal uuid tx new empty alone =
      subst (λ t. IsJournal e t 1 0) (sym (initialize-new uuid tx new))
        (fresh-IsJournal uuid tx empty alone)

module _ (granted : Allocator) (e : Engine) where
  -- Out of service, the index consumer holds no row back; the journal stays well-formed.
  pub disable_index_consumer-IsJournal :
      (tx : Tx e) (floor head : ℕ)
      → IsJournal e tx floor head
      → IsJournal e (disable_index_consumer granted e tx) floor head
  unfolding disable_index_consumer
  disable_index_consumer-IsJournal tx floor head j = go (e.consumers.get tx.consumers indexer)
    where
      inactive : Consumer → Tx e
      inactive c = record tx {
        consumers = e.consumers.insert tx.consumers indexer (record c { active = false });
      }

      inactive-IsJournal : (c : Consumer) → IsJournal e (inactive c) floor head
      inactive-IsJournal c = record {
        head_read = j.head_read;
        floor_read = j.floor_read;
        bytes_read = j.bytes_read;
        rows = j.rows;
        head_fits = j.head_fits;
        bytes_fit = j.bytes_fit;
        consumers =
            All-insert e.consumers (IsServed floor head) tx.consumers indexer
              (record c { active = false }) (record { kept = λ a. cc a; reached = λ a. cc a })
              j.consumers;
      }

      go :
          (o : Option Consumer)
          → IsJournal e
              (elim o [ none ↦ tx | some c ↦ if c.internal then inactive c else tx ])
              floor
              head
      go none = j
      go (some c) = choose c.internal
        where
          choose : (b : Bool) → IsJournal e (if b then inactive c else tx) floor head
          choose true = inactive-IsJournal c
          choose false = j
