-- ===== src/Journal/Examples.antt =====
-- The journal on concrete inputs: tests of journal.rs, and its theorems at inputs that meet them.
use clove1db.Prelude.{
  ℕ, ◌+◌, ◌≡◌, refl, true, false, List, [], ◌∷◌, ◌++◌, arith, list_eq, length, min, max, map, take,
  drop, ◌-◌, inl, inr, some, none, ◌⊎◌,
}
use clove1db.Prelude.Bytes.{to_be, from_be, is_utf8}
use clove1db.Prelude.Results.{ok, err, consumer_expired, consumer_needs_rebuild, ◌>>=◌}
use clove1db.Prelude.Table.Entries.{find, replace, after}
use clove1db.Prelude.Table.ListTables.{name_table, number_table, list_catalog}
use clove1db.Memory.{Allocator, Grants, vec_with_capacity}
use clove1db.Journal.Row.{
  ChangeKind, upsert, delete, parts, encode, decode, put_part, IsWellFormed, bad,
}
use clove1db.Journal.Row.RoundTrip.{row_bytes, decode-encode}
use clove1db.Journal.Row.Damage.{decode_damaged}
use clove1db.Journal.Store.{
  initialize, Engine, Tx, Consumer, read_word, write_word, floor_of, number,
}
use clove1db.Journal.Invariant.{wrote, IsJournal}
use clove1db.Journal.Prune.{prune, prune_rows, prune_row, due, snapshot_of, delete_snapshot}
use clove1db.Journal.Prune.Laws.{prune-IsJournal}
use clove1db.Journal.Retention.{
  limit, max_bytes, enforce, enforce_loop, LibraryEvent, consumer_expired as reader_expired,
  acked_limit, least_acked, least_step, oldest, oldest_step, evict, evicted, eviction_event,
  prune_acked,
}
use clove1db.Journal.Retention.Bounded.{IsBounded, IsSpared, enforce-IsBounded}
use clove1db.Journal.Append.{RowChecks, WriteTx, apply_last_writes, finish_write}
use clove1db.Journal.Append.Rows.{new_rows}
use clove1db.Journal.Append.Laws.{finish_write-IsBounded}
use clove1db.Journal.Consumers.{
  ConsumerToken, Change, check_token, database_uuid, is_internal, register, token_consumer, ack,
  unregister, read_changes,
}
use clove1db.Journal.Consumers.Tokens.{evict_refuses}
use clove1db.Journal.Consumers.Acks.{ack-IsJournal, register-IsJournal, unregister-IsJournal}
use clove1db.Journal.Indexer.Laws.{initialize-IsJournal}
use clove1db.Journal.Consumers.Reading.{Sequential, stored, read_changes_complete}

abbrev all_granted : Allocator
all_granted site bytes = true

all_granted-Grants : Grants all_granted
all_granted-Grants site bytes = refl

-- upsert("notes", "a", [0, 255]) and delete("notes", "é")
abbrev notes : List ℕ
notes = b'n' ∷ b'o' ∷ b't' ∷ b'e' ∷ b's' ∷ []

abbrev first_change : ChangeKind
first_change = upsert notes (b'a' ∷ []) (0 ∷ 255 ∷ [])

abbrev second_change : ChangeKind
second_change = delete notes (0xc3 ∷ 0xa9 ∷ [])

first_change-IsWellFormed : IsWellFormed first_change
unfolding parts is_utf8
first_change-IsWellFormed = record {
  table_fits = omega arith;
  key_fits = omega arith;
  payload_fits = omega arith;
  size_fits = omega arith;
  table_text = refl;
  key_text = refl;
  payload_text = inl refl;
}

second_change-IsWellFormed : IsWellFormed second_change
unfolding parts is_utf8
second_change-IsWellFormed = record {
  table_fits = omega arith;
  key_fits = omega arith;
  payload_fits = omega arith;
  size_fits = omega arith;
  table_text = refl;
  key_text = refl;
  payload_text = inr refl;
}

decode-encode_example : (encode all_granted second_change >>= decode all_granted) ≡ ok second_change
decode-encode_example =
    decode-encode all_granted second_change all_granted-Grants second_change-IsWellFormed

abbrev list_engine : Engine
list_engine = record {
  seq = name_table (List ℕ);
  changes = number_table (List ℕ);
  consumers = name_table Consumer;
  catalog = list_catalog;
}

abbrev reader : ℕ → Consumer
reader acked = record {
  generation = 1;
  acked_seq = acked;
  registered_at = 0;
  active = true;
  internal = false;
  needs_rebuild = false;
}

-- Two rows, numbered 4 and 5, and a consumer that acknowledged number 4.
abbrev sample : Tx list_engine
sample = record {
  seq =
      ("head", to_be 8 5)
      ∷ ("floor", to_be 8 4)
      ∷ ("journal_bytes", to_be 8 99)
      ∷ ("consumer_generation", to_be 8 1)
      ∷ ("db_uuid", 7 ∷ [])
      ∷ [];
  changes = (4, row_bytes (parts first_change)) ∷ (5, row_bytes (parts second_change)) ∷ [];
  consumers = ("reader", reader 4) ∷ [];
  catalog = [];
}

sample-IsJournal : IsJournal list_engine sample 4 5
unfolding parts read_word find to_be from_be
sample-IsJournal = record {
  head_read = refl;
  floor_read = refl;
  bytes_read = refl;
  rows = (
    refl,
    wrote first_change first_change-IsWellFormed refl,
    (refl, wrote second_change second_change-IsWellFormed refl, refl),
  );
  head_fits = omega arith;
  bytes_fit = omega arith;
  consumers = (record { kept = λ a. omega arith; reached = λ a. omega arith }, tt);
}

decode_damaged_example :
    (decode all_granted (1 ∷ 1 ∷ []) ≡ err bad)
    × ((more : List ℕ) (y : ℕ)
        → decode all_granted
            (((1 ∷ 1 ∷ []) ++ 0 ∷ drop 3 (row_bytes (parts second_change))) ++ y ∷ more)
          ≡ err bad)
decode_damaged_example =
    decode_damaged all_granted second_change (1 ∷ 1 ∷ []) (drop 3 (row_bytes (parts second_change)))
      0 all_granted-Grants second_change-IsWellFormed encoded
  where
    encoded :
        encode all_granted second_change
        ≡ ok ((1 ∷ 1 ∷ []) ++ 0 ∷ drop 3 (row_bytes (parts second_change)))
    encoded = unfold encode parts put_part vec_with_capacity to_be in refl

prune-IsJournal_example :
    (tx' : Tx list_engine) × (prune all_granted list_engine sample 4 ≡ ok tx')
    × IsJournal list_engine tx' (max 4 (4 + 1)) 5
    × (list_engine.changes.iter tx'.changes ≡ after 4 (list_engine.changes.iter sample.changes))
    × (tx'.consumers ≡ sample.consumers)
prune-IsJournal_example =
    prune-IsJournal all_granted list_engine all_granted-Grants sample 4 5 4 sample-IsJournal
      (omega arith) ((λ a. omega arith), tt)

enforce-IsBounded_example :
    (tx' : Tx list_engine) × (events : List LibraryEvent) × (enforce all_granted list_engine
        (limit 20)
        sample
      ≡ ok (tx', events))
    × IsBounded list_engine (max_bytes (limit 20)) 5 (sample.changes) (sample.consumers) tx' events
    × IsSpared {e = list_engine} (max_bytes (limit 20)) sample tx'
enforce-IsBounded_example =
    enforce-IsBounded all_granted list_engine all_granted-Grants (limit 20) 4 5 sample
      sample-IsJournal

-- No row fits twenty bytes, so the reader expires.
expires :
    enforce all_granted list_engine (limit 20) sample
    ≡ ok (
      record sample {
        seq =
            ("head", to_be 8 5)
            ∷ ("floor", to_be 8 6)
            ∷ ("journal_bytes", to_be 8 0)
            ∷ ("consumer_generation", to_be 8 1)
            ∷ ("db_uuid", 7 ∷ [])
            ∷ [];
        changes = [];
        consumers = ("reader", record (reader 4) { active = false }) ∷ [];
      },
      reader_expired "reader" 4 ∷ [],
    )
unfolding enforce enforce_loop max_bytes prune_acked prune prune_rows prune_row due snapshot_of
    delete_snapshot acked_limit least_acked least_step oldest oldest_step evict evicted
    eviction_event read_word write_word find replace to_be from_be floor_of parts
expires = refl

abbrev no_checks : RowChecks
no_checks = record {
  Data = Unit {0};
  id_contract = λ d effects. ok tt;
  unique = λ d effects. ok tt;
  last_write = λ d effect seq. ok tt;
}

abbrev two_effects : List ChangeKind
two_effects = first_change ∷ second_change ∷ []

finish_write-IsBounded_example :
    (w' : WriteTx all_granted list_engine no_checks) × (events : List LibraryEvent) × (finish_write
        all_granted list_engine no_checks
        (limit 60)
        (record { journal = sample; rows = tt })
        two_effects
      ≡ ok (w', events))
    × (w'.rows ≡ tt)
    × IsBounded list_engine
        (max_bytes (limit 60))
        (5 + 2)
        (sample.changes ++ new_rows 5 two_effects)
        (sample.consumers)
        w'.journal
        events
finish_write-IsBounded_example =
    finish_write-IsBounded all_granted list_engine all_granted-Grants no_checks (limit 60) 4 5
      (record { journal = sample; rows = tt }) two_effects tt tt sample-IsJournal
      (first_change-IsWellFormed, (second_change-IsWellFormed, tt)) (omega arith)
      (unfold parts to_be in omega arith) refl refl (unfold apply_last_writes in refl)

abbrev reader_token : ConsumerToken
reader_token = record { database_uuid = 7 ∷ []; name = "reader"; generation = 1 }

reader_accepted : token_consumer all_granted list_engine reader_token sample ≡ ok (reader 4)
unfolding token_consumer database_uuid check_token find list_eq
reader_accepted = refl

read_changes_complete_example :
    (cs : List Change) × (read_changes all_granted list_engine reader_token 4 10 sample ≡ ok cs)
    × Sequential (4 + 1) cs
    × (length cs ≡ min 10 (5 - 4))
    × (map stored cs ≡ take 10 (after 4 (list_engine.changes.iter sample.changes)))
read_changes_complete_example =
    read_changes_complete all_granted list_engine all_granted-Grants sample 4 5 4 10 reader_token
      (reader 4) sample-IsJournal reader_accepted (omega arith) (omega arith)

abbrev left : Tx list_engine
left = record sample { consumers = ("reader", record (reader 4) { active = false }) ∷ [] }

reader_evicted :
    evict all_granted list_engine sample ≡ ok (left, LibraryEvent.consumer_expired "reader" 4)
unfolding evict read_word find to_be from_be acked_limit least_acked least_step oldest oldest_step
    evicted eviction_event replace
reader_evicted = refl

abbrev writer_token : ConsumerToken
writer_token = record { database_uuid = 7 ∷ []; name = "writer"; generation = 1 }

evict_refuses_example :
    ((token_consumer all_granted list_engine reader_token left ≡ err consumer_expired)
      ⊎ (token_consumer all_granted list_engine reader_token left ≡ err consumer_needs_rebuild))
    × (token_consumer all_granted list_engine writer_token left
        ≡ token_consumer all_granted list_engine writer_token sample)
evict_refuses_example =
    evict_refuses all_granted list_engine sample left (LibraryEvent.consumer_expired "reader" 4)
      reader_token writer_token (7 ∷ []) reader_evicted (unfold database_uuid find in refl) refl
      refl

ack-IsJournal_example :
    (tx' : Tx list_engine) × (floor' : ℕ) × (ack all_granted list_engine reader_token 5 sample
      ≡ ok tx')
    × IsJournal list_engine tx' floor' 5
    × (list_engine.consumers.get tx'.consumers "reader" ≡ some (reader 5))
ack-IsJournal_example =
    ack-IsJournal all_granted list_engine all_granted-Grants sample 4 5 5 reader_token (reader 4)
      sample-IsJournal reader_accepted (omega arith) (omega arith)

register-IsJournal_example :
    (token : ConsumerToken) × (tx' : Tx list_engine) × (c : Consumer) × (register all_granted
        list_engine "reader" false 9 sample
      ≡ ok (token, tx'))
    × IsJournal list_engine tx' 4 5
    × (token_consumer all_granted list_engine token tx' ≡ ok c)
    × (c.acked_seq ≡ 5)
    × (token.generation ≡ 1 + 1)
    × (number list_engine tx' "consumer_generation" ≡ ok token.generation)
register-IsJournal_example =
    register-IsJournal all_granted list_engine all_granted-Grants sample 4 5 1 9 (7 ∷ []) "reader"
      false sample-IsJournal (unfold read_word find to_be from_be in refl) (omega arith)
      (unfold find in refl) refl (unfold is_internal find in refl)

unregister-IsJournal_example :
    (tx' : Tx list_engine) × (floor' : ℕ) × (unregister all_granted list_engine "reader" sample
      ≡ ok tx')
    × IsJournal list_engine tx' floor' 5
    × (list_engine.consumers.get tx'.consumers "reader" ≡ none)
unregister-IsJournal_example =
    unregister-IsJournal all_granted list_engine all_granted-Grants sample 4 5 "reader"
      sample-IsJournal (unfold is_internal find in refl)

abbrev empty : Tx list_engine
empty = record { seq = []; changes = []; consumers = []; catalog = [] }

initialize-IsJournal_example : IsJournal list_engine (initialize list_engine (7 ∷ []) empty) 1 0
initialize-IsJournal_example = initialize-IsJournal list_engine (7 ∷ []) empty no_head refl refl
  where
    no_head : list_engine.seq.get empty.seq "head" ≡ none
    no_head = unfold find in refl
