-- ===== src/Journal/Retention/Bounded.antt =====
-- `enforce` ends, never fails and leaves a journal within the size that the retention allows
-- (src/journal.rs).
use clove1db.Prelude.{
  ℕ, zero, suc, ◌+◌, ◌≤◌, ◌<◌, ◌≡◌, refl, ◌∙◌, true, false, List, [], ◌∷◌, ◌++◌, arith, some, max,
  Bool-cases, inl, inr, leb, leb→le, leb→lt, length, length-append, Option, none, ap, sym,
}
use Prim.Native.String.{String}
use mathlib.Core.List.{append_assoc}
use mathlib.Core.Path.{subst}
use clove1db.Prelude.Table.Entries.{after}
use clove1db.Prelude.Results.{ok}
use clove1db.Memory.{Allocator, Grants}
use clove1db.Journal.Store.{Engine, Tx, Consumer, number}
use clove1db.Journal.Invariant.{IsJournal, Numbered, row_cost}
use clove1db.Journal.Prune.Laws.{Numbered-floor, after-Numbered_end}
use clove1db.Journal.Retention.{
  Retention, unlimited, default, limit, default_journal_max_bytes, LibraryEvent, max_bytes,
  acked_limit, prune_acked, evict, enforce_loop, enforce,
}
use clove1db.Journal.Retention.Limit.{prune_acked-IsJournal}
use clove1db.Journal.Retention.Evict.{behind, behind-le-length, evict-IsJournal}

-- No row is left where the numbering starts after the head.
Numbered-none :
    (next head : ℕ) (rows : List (ℕ × List ℕ))
    → head < next
    → Numbered next rows head
    → row_cost rows ≡ 0
Numbered-none next head [] h n = refl
Numbered-none next head ((k, row) ∷ rows) h n =
    absurd (omega (arith, Numbered-floor (next + 1) head rows n.2))

module _ (granted : Allocator) (e : Engine) where
  loop_within :
      (fuel bound bytes : ℕ) (tx : Tx e) (events : List LibraryEvent)
      → number e tx "journal_bytes" ≡ ok bytes
      → leb bytes bound ≡ true
      → enforce_loop granted e (suc fuel) bound tx events ≡ ok (tx, events)
  unfolding enforce_loop
  loop_within fuel bound bytes tx events read fits = rw read (rw fits)

  loop_pruned :
      (fuel bound bytes left : ℕ) (tx pruned : Tx e) (events : List LibraryEvent)
      → number e tx "journal_bytes" ≡ ok bytes
      → leb bytes bound ≡ false
      → prune_acked granted e tx ≡ ok pruned
      → number e pruned "journal_bytes" ≡ ok left
      → leb left bound ≡ true
      → enforce_loop granted e (suc fuel) bound tx events ≡ ok (pruned, events)
  unfolding enforce_loop
  loop_pruned fuel bound bytes left tx pruned events read over ran again fits =
      rw read (rw over (rw ran (rw again (rw fits))))

  loop_evicted :
      (fuel bound bytes left : ℕ) (tx pruned next : Tx e) (events : List LibraryEvent)
      (event : LibraryEvent)
      → number e tx "journal_bytes" ≡ ok bytes
      → leb bytes bound ≡ false
      → prune_acked granted e tx ≡ ok pruned
      → number e pruned "journal_bytes" ≡ ok left
      → leb left bound ≡ false
      → evict granted e pruned ≡ ok (next, event)
      → enforce_loop granted e (suc fuel) bound tx events
        ≡ enforce_loop granted e fuel bound next (events ++ event ∷ [])
  unfolding enforce_loop
  loop_evicted fuel bound bytes left tx pruned next events event read over ran again still gone =
      rw read (rw over (rw ran (rw again (rw still (rw gone)))))

-- The rows fit the limit, if there is one.
abbrev pub IsWithin : Option ℕ → ℕ → Type 0
IsWithin none cost = Unit {0}
IsWithin (some bound) cost = cost ≤ bound

-- Without a limit nobody is evicted; with one, at most the consumers that held rows back.
abbrev pub IsFair :
    Option ℕ → ℕ → List (String × Consumer) → List (String × Consumer) → List LibraryEvent → Type 0
IsFair none head before now events = (now ≡ before) × (events ≡ [])
IsFair (some bound) head before now events = length events ≤ behind head before

-- Without a limit the transaction is left alone.
abbrev pub IsSpared : {e : Engine} → Option ℕ → Tx e → Tx e → Type 0
IsSpared none before now = now ≡ before
IsSpared (some bound) before now = Unit {0}

-- What a run promises of the rows and the consumers that it found: the journal is in order, the
-- rows left are the last ones, unchanged, they fit the limit, and evictions are few.
pub record IsBounded (e : Engine) (allowed : Option ℕ) (head : ℕ) (rows : List (ℕ × List ℕ))
    (before : List (String × Consumer)) (tx : Tx e) (events : List LibraryEvent) : Type 0 where
  pub floor : ℕ
  pub ordered : IsJournal e tx floor head
  pub gone : List (ℕ × List ℕ)
  pub split : rows ≡ gone ++ e.changes.iter tx.changes
  pub within : IsWithin allowed (row_cost (e.changes.iter tx.changes))
  pub fair : IsFair allowed head before (e.consumers.iter tx.consumers) events

-- A promise about what pruning left is one about what pruning found.
pub IsBounded-earlier :
    (e : Engine) (allowed : Option ℕ) (head through : ℕ) (rows : List (ℕ × List ℕ))
    (found pruned tx : Tx e) (events : List LibraryEvent) {all : List (ℕ × List ℕ)}
    → all ≡ rows
    → (gone : List (ℕ × List ℕ)) × (rows ≡ gone ++ after through rows)
    → e.changes.iter pruned.changes ≡ after through rows
    → pruned.consumers ≡ found.consumers
    → IsBounded e allowed head
        (e.changes.iter pruned.changes)
        (e.consumers.iter pruned.consumers)
        tx
        events
    → IsBounded e allowed head all (e.consumers.iter found.consumers) tx events
IsBounded-earlier e allowed head through rows found pruned tx events listed (gone, split) left same
      b =
    record {
      floor = b.floor;
      ordered = b.ordered;
      gone = gone ++ b.gone;
      split =
          listed
          ∙ split
          ∙ ap (λ l. gone ++ l) (sym left ∙ b.split)
          ∙ sym (append_assoc gone b.gone (e.changes.iter tx.changes));
      within = b.within;
      fair =
          subst
            (λ c. IsFair allowed head (e.consumers.iter c) (e.consumers.iter tx.consumers) events)
            same b.fair;
    }

module _ (granted : Allocator) (e : Engine) (g : Grants granted) where
  -- Where rows are left, some active consumer is behind the head.
  rows_left :
      (floor head acked : ℕ) (rows : List (ℕ × List ℕ))
      → Numbered (max floor (acked + 1)) rows head
      → 0 < row_cost rows
      → acked < head
  rows_left floor head acked rows n some_left = elim (Bool-cases (leb head acked)) [
    | inl all_gone ↦
        absurd (omega (arith, Numbered-none (max floor (acked + 1)) head rows (ground arith) n))
    | inr low ↦ leb→lt head acked low
  ]

  -- With a round for each consumer that holds rows back, and one more, the loop ends by its tests.
  enforce_loop-IsBounded :
      (fuel bound floor head : ℕ) (tx : Tx e) (events : List LibraryEvent)
      → IsJournal e tx floor head
      → behind head (e.consumers.iter tx.consumers) < fuel
      → (tx' : Tx e) × (events' : List LibraryEvent) × (floor' : ℕ) × (gone : List (ℕ × List ℕ))
        × (enforce_loop granted e fuel bound tx events ≡ ok (tx', events'))
        × IsJournal e tx' floor' head
        × (e.changes.iter tx.changes ≡ gone ++ e.changes.iter tx'.changes)
        × (row_cost (e.changes.iter tx'.changes) ≤ bound)
        × (length events' ≤ length events + behind head (e.consumers.iter tx.consumers))
  enforce_loop-IsBounded zero bound floor head tx events j h = elim h [ ]
  enforce_loop-IsBounded (suc fuel) bound floor head tx events j h =
      elim (Bool-cases (leb (row_cost (e.changes.iter tx.changes)) bound)) [
        | inl fits ↦ (
          tx,
          events,
          floor,
          [],
          loop_within granted e fuel bound _ tx events j.bytes_read fits,
          j,
          refl,
          leb→le _ _ fits,
          omega arith,
        )
        | inr over ↦
            let acked = acked_limit (e.consumers.iter tx.consumers) head in
            let (pruned, ran, k, rows, same) = prune_acked-IsJournal granted e g tx floor head j in
            let start = max floor (acked + 1) in
            let (gone, split) =
              after-Numbered_end floor head acked (e.changes.iter tx.changes) j.rows in
            let split₁ : e.changes.iter tx.changes ≡ gone ++ e.changes.iter pruned.changes =
              split ∙ ap (λ l. gone ++ l) (sym rows) in
            elim (Bool-cases (leb (row_cost (e.changes.iter pruned.changes)) bound)) [
              | inl fits ↦ (
                pruned,
                events,
                start,
                gone,
                loop_pruned granted e fuel bound _ _ tx pruned events j.bytes_read over ran
                    k.bytes_read fits,
                k,
                split₁,
                leb→le _ _ fits,
                omega arith,
              )
              | inr still ↦
                  let left : 0 < row_cost (e.changes.iter pruned.changes) =
                    omega (arith, leb→lt _ _ still) in
                  let low =
                    rows_left floor head acked (e.changes.iter pruned.changes) k.rows left in
                  let behind_head : acked_limit (e.consumers.iter pruned.consumers) head < head =
                    rw same low in
                  let start_fits =
                    Numbered-floor start head (e.changes.iter pruned.changes) k.rows in
                  let (next, event, out, k', fewer, kept) =
                    evict-IsJournal granted e pruned start head k start_fits behind_head in
                  let less : behind head (e.consumers.iter next.consumers)
                      < behind head (e.consumers.iter tx.consumers) =
                    rw same at fewer in
                  let (tx', events', floor', gone', done, ordered, split', within, few) =
                    enforce_loop-IsBounded fuel bound start head next (events ++ event ∷ []) k'
                      (omega arith) in
                  (
                    tx',
                    events',
                    floor',
                    gone ++ gone',
                    loop_evicted granted e fuel bound _ _ tx pruned next events event j.bytes_read
                          over ran k.bytes_read still out
                        ∙ done,
                    ordered,
                    split₁
                        ∙ ap (λ l. gone ++ l) (sym kept ∙ split')
                        ∙ sym (append_assoc gone gone' (e.changes.iter tx'.changes)),
                    within,
                    omega (arith, length-append events (event ∷ [])),
                  )
            ]
      ]

  enforce_within :
      (bound floor head : ℕ) (tx : Tx e)
      → IsJournal e tx floor head
      → (tx' : Tx e) × (events : List LibraryEvent) × (enforce_loop granted e
            (length (e.consumers.iter tx.consumers) + 1)
            bound
            tx
            []
          ≡ ok (tx', events))
        × IsBounded e
            (some bound)
            head
            (e.changes.iter tx.changes)
            (e.consumers.iter tx.consumers)
            tx'
            events
  enforce_within bound floor head tx j =
      let all = e.consumers.iter tx.consumers in
      let (tx', events, floor', gone, ran, ordered, split, within, few) =
        enforce_loop-IsBounded (length all + 1) bound floor head tx [] j
          (omega (arith, behind-le-length head all)) in
      (
        tx',
        events,
        ran,
        record {
          floor = floor';
          ordered = ordered;
          gone = gone;
          split = split;
          within = within;
          fair = omega (arith, few);
        },
      )

  -- On a journal in order, with memory granted, `enforce` succeeds under every retention: the error
  -- "journal cannot be pruned" and an endless loop are impossible. The journal stays in order, and its
  -- rows are the last ones of those before, unchanged. Under a limit they cost no more than the limit,
  -- and at most as many consumers are evicted as were active and behind the head. Without a limit
  -- nothing changes.
  pub enforce-IsBounded :
      (retention : Retention) (floor head : ℕ) (tx : Tx e)
      → IsJournal e tx floor head
      → (tx' : Tx e) × (events : List LibraryEvent) × (enforce granted e retention tx
          ≡ ok (tx', events))
        × IsBounded e
            (max_bytes retention)
            head
            (e.changes.iter tx.changes)
            (e.consumers.iter tx.consumers)
            tx'
            events
        × IsSpared (max_bytes retention) tx tx'
  unfolding enforce max_bytes
  enforce-IsBounded unlimited floor head tx j = (
    tx,
    [],
    refl,
    record {
      floor = floor;
      ordered = j;
      gone = [];
      split = refl;
      within = tt;
      fair = (refl, refl);
    },
    refl,
  )
  enforce-IsBounded default floor head tx j =
      let (tx', events, ran, b) = enforce_within default_journal_max_bytes floor head tx j in
      (tx', events, ran, b, tt)
  enforce-IsBounded (limit n) floor head tx j =
      let (tx', events, ran, b) = enforce_within n floor head tx j in (tx', events, ran, b, tt)
