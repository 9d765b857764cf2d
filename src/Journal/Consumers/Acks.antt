-- ===== src/Journal/Consumers/Acks.antt =====
-- What acknowledging, registering and unregistering do to the journal (src/journal.rs).
use Prim.Native.String.{String}
use text.Mathlib.Text.{◌==◌ as str_eq}
use text.Mathlib.TextPositions.{eq_refl}
use clove1db.Prelude.{
  ℕ, ◌+◌, ◌≤◌, ◌<◌, ◌≡◌, refl, ◌∙◌, true, false, not, ◌||◌, List, arith, ltb, Bool, none, some,
  lt→ltb, list_eq_refl,
}
use clove1db.Prelude.Bytes.{u64_mod}
use clove1db.Prelude.Results.{ok}
use clove1db.Prelude.Table.Laws.{All-get, All-insert, All-remove, get-insert, get-remove}
use clove1db.Memory.{Allocator, Grants}
use clove1db.Journal.Store.{Engine, Tx, Consumer, number, put_number}
use clove1db.Journal.Store.Counters.{read_word-write_word, get-write_word}
use clove1db.Journal.Invariant.{IsServed, IsJournal}
use clove1db.Journal.Prune.Laws.{Numbered-floor}
use clove1db.Journal.Retention.Limit.{prune_acked-IsJournal}
use clove1db.Journal.Consumers.{
  ConsumerToken, check_token, database_uuid, is_internal, register, token_consumer, ack, unregister,
}
use clove1db.Journal.Consumers.Tokens.{token_consumer_cases}

module _ (granted : Allocator) (e : Engine) (g : Grants granted) where
  -- With an accepted token, a number between the last acknowledged one and the head is acknowledged:
  -- the consumer's position becomes that number, and the journal stays in order.
  pub ack-IsJournal :
      (tx : Tx e) (floor head seq : ℕ) (token : ConsumerToken) (c : Consumer)
      → IsJournal e tx floor head
      → token_consumer granted e token tx ≡ ok c
      → c.acked_seq ≤ seq
      → seq ≤ head
      → (tx' : Tx e) × (floor' : ℕ) × (ack granted e token seq tx ≡ ok tx')
        × IsJournal e tx' floor' head
        × (e.consumers.get tx'.consumers token.name ≡ some (record c { acked_seq = seq }))
  unfolding ack
  ack-IsJournal tx floor head seq token c j valid lo hi =
      let (found, accepted) = token_consumer_cases granted e token tx c valid in
      let before =
        All-get e.consumers (IsServed floor head) tx.consumers token.name j.consumers found in
      let c' : Consumer = record c { acked_seq = seq } in
      let served : IsServed floor head c' = record {
        kept = λ a. omega (arith, before.kept a);
        reached = λ a. hi;
      } in
      let moved : Tx e = record tx { consumers = e.consumers.insert tx.consumers token.name c' } in
      let k : IsJournal e moved floor head = record {
        head_read = j.head_read;
        floor_read = j.floor_read;
        bytes_read = j.bytes_read;
        rows = j.rows;
        head_fits = j.head_fits;
        bytes_fit = j.bytes_fit;
        consumers =
            All-insert e.consumers (IsServed floor head) tx.consumers token.name c' served
              j.consumers;
      } in
      let (tx', ran, k', rows, same) = prune_acked-IsJournal granted e g moved floor head k in
      let allowed : (ltb seq c.acked_seq || ltb head seq) ≡ false = ground arith in
      (
        tx',
        _,
        rw (valid, j.head_read, allowed) ran,
        k',
        rw same (rw (get-insert e.consumers) (rw (eq_refl token.name))),
      )

  -- On a journal in order, with room for a generation, registering a name that is not empty and not
  -- the library's own, unless the library does it, hands out a token that is accepted at once, with a
  -- position at the head, under the generation after the counter's. The counter then stands at that
  -- generation, so the next registration gives another one, and the journal stays in order.
  pub register-IsJournal :
      (tx : Tx e) (floor head last now : ℕ) (uuid : List ℕ) (name : String) (internal : Bool)
      → IsJournal e tx floor head
      → number e tx "consumer_generation" ≡ ok last
      → last + 1 < u64_mod
      → e.seq.get tx.seq "db_uuid" ≡ some uuid
      → str_eq name "" ≡ false
      → (internal || not (is_internal granted e tx name)) ≡ true
      → (token : ConsumerToken) × (tx' : Tx e) × (c : Consumer) × (register granted e name internal
            now tx
          ≡ ok (token, tx'))
        × IsJournal e tx' floor head
        × (token_consumer granted e token tx' ≡ ok c)
        × (c.acked_seq ≡ head)
        × (token.generation ≡ last + 1)
        × (number e tx' "consumer_generation" ≡ ok token.generation)
  unfolding register token_consumer check_token database_uuid
  register-IsJournal tx floor head last now uuid name internal j generation fits identity named
        free =
      let counted = put_number e tx "consumer_generation" (last + 1) in
      let head_read =
        read_word-write_word e tx.seq "consumer_generation" "head" (last + 1) fits ∙ j.head_read in
      let same_uuid =
        get-write_word e tx.seq "consumer_generation" "db_uuid" (last + 1) ∙ identity in
      let c : Consumer = record {
        generation = last + 1;
        acked_seq = head;
        registered_at = now;
        active = true;
        internal = internal;
        needs_rebuild = false;
      } in
      let tx' : Tx e = record counted { consumers = e.consumers.insert tx.consumers name c } in
      let served : IsServed floor head c = record {
        kept = λ a. Numbered-floor floor head (e.changes.iter tx.changes) j.rows;
        reached = λ a. omega arith;
      } in
      (
        record { database_uuid = uuid; name = name; generation = last + 1 },
        tx',
        c,
        rw (named, free, generation, lt→ltb _ _ fits, head_read, same_uuid),
        record {
          head_read = head_read;
          floor_read =
              read_word-write_word e tx.seq "consumer_generation" "floor" (last + 1) fits
              ∙ j.floor_read;
          bytes_read =
              read_word-write_word e tx.seq "consumer_generation" "journal_bytes" (last + 1) fits
              ∙ j.bytes_read;
          rows = j.rows;
          head_fits = j.head_fits;
          bytes_fit = j.bytes_fit;
          consumers =
              All-insert e.consumers (IsServed floor head) tx.consumers name c served j.consumers;
        },
        rw (same_uuid, get-insert e.consumers, eq_refl name, list_eq_refl uuid) (ground arith),
        refl,
        refl,
        read_word-write_word e tx.seq "consumer_generation" "consumer_generation" (last + 1) fits,
      )

  -- A consumer that is not the library's own can be removed by name; the journal stays in order, and
  -- a token of that name finds no consumer any more.
  pub unregister-IsJournal :
      (tx : Tx e) (floor head : ℕ) (name : String)
      → IsJournal e tx floor head
      → is_internal granted e tx name ≡ false
      → (tx' : Tx e) × (floor' : ℕ) × (unregister granted e name tx ≡ ok tx')
        × IsJournal e tx' floor' head
        × (e.consumers.get tx'.consumers name ≡ none)
  unfolding unregister
  unregister-IsJournal tx floor head name j external =
      let removed : Tx e = record tx { consumers = e.consumers.remove tx.consumers name } in
      let k : IsJournal e removed floor head = record {
        head_read = j.head_read;
        floor_read = j.floor_read;
        bytes_read = j.bytes_read;
        rows = j.rows;
        head_fits = j.head_fits;
        bytes_fit = j.bytes_fit;
        consumers = All-remove e.consumers (IsServed floor head) tx.consumers name j.consumers;
      } in
      let (tx', ran, k', rows, same) = prune_acked-IsJournal granted e g removed floor head k in
      (tx', _, rw external ran, k', rw same (rw (get-remove e.consumers) (rw (eq_refl name))))
