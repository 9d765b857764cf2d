-- ===== src/Journal/Consumers/Tokens.antt =====
-- Which tokens are accepted, and what registering and acknowledging do (src/journal.rs).
use Prim.Native.String.{String}
use text.Mathlib.Text.{◌==◌ as str_eq}
use mathlib.Core.Path.{subst}
use clove1db.Prelude.{
  ℕ, ◌≡◌, refl, sym, ap, ◌∙◌, Bool, true, false, not, ◌||◌, ◌⊎◌, List, arith, inl, inr, ◌==◌,
  if◌then◌else◌, Option, none, some, Bool-cases, list_eq,
}
use clove1db.Prelude.Results.{
  Result, ok, err, consumer_expired, consumer_needs_rebuild, Result-cases, >>=-eq-ok, ok-injective,
  ok_or,
}
use clove1db.Prelude.Table.Laws.{get-insert}
use clove1db.Memory.{Allocator}
use clove1db.Journal.Store.{Engine, Tx, Consumer, number}
use clove1db.Journal.Retention.{
  LibraryEvent, index_rebuild_required, evicted, eviction_event, oldest, evict,
}
use clove1db.Journal.Consumers.{ConsumerToken, check_token, database_uuid, token_consumer}

-- What an accepted token says of its consumer.
pub record IsAccepted (token : ConsumerToken) (c : Consumer) : Type 0 where
  pub active : c.active ≡ true
  pub served : c.needs_rebuild ≡ false
  pub current : token.generation ≡ c.generation

check_token_cases :
    (token : ConsumerToken) (uuid : List ℕ) (o : Option Consumer) (c : Consumer)
    → check_token token uuid o ≡ ok c
    → (o ≡ some c) × IsAccepted token c
unfolding check_token
check_token_cases token uuid none c h = cc
check_token_cases token uuid (some d) c h = ground arith

module _ (granted : Allocator) (e : Engine) where
  pub token_consumer_cases :
      (token : ConsumerToken) (tx : Tx e) (c : Consumer)
      → token_consumer granted e token tx ≡ ok c
      → (e.consumers.get tx.consumers token.name ≡ some c) × IsAccepted token c
  unfolding token_consumer
  token_consumer_cases token tx c h = elim (Result-cases (database_uuid granted e tx)) [
    | inl (uuid, read) ↦
        check_token_cases token uuid (e.consumers.get tx.consumers token.name) c (rw read at h)
    | inr (x, failed) ↦ cc (rw failed at h)
  ]

abbrev expired : Result Consumer
expired = err consumer_expired

abbrev rebuild : Result Consumer
rebuild = err consumer_needs_rebuild

-- No token is given a consumer that was evicted.
check_token-evicted :
    (token : ConsumerToken) (uuid : List ℕ) (head : ℕ) (c : Consumer)
    → (check_token token uuid (some (evicted head c)) ≡ err consumer_expired)
      ⊎ (check_token token uuid (some (evicted head c)) ≡ err consumer_needs_rebuild)
unfolding check_token evicted
check_token-evicted token uuid head c = elim (Bool-cases c.internal) [
  | inl own ↦ rw own (
      go (
        not (list_eq token.database_uuid uuid)
        || (not (token.generation == c.generation) || not c.active)))
  | inr external ↦ inl (
      rw
        (
          external,
          all_true (not (list_eq token.database_uuid uuid))
              (not (token.generation == c.generation)),
        )
        refl)
]
  where
    all_true : (x y : Bool) → (x || (y || true)) ≡ true
    all_true x y = ground arith

    go :
        (t : Bool)
        → ((if t then expired else rebuild) ≡ expired)
          ⊎ ((if t then expired else rebuild) ≡ rebuild)
    go true = inl refl
    go false = inr refl

-- The consumer that an event is about.
abbrev pub event_name : LibraryEvent → String
event_name (index_rebuild_required name acked) = name
event_name (LibraryEvent.consumer_expired name acked) = name

event_name-eviction_event :
    (name : String) (c : Consumer) → event_name (eviction_event name c) ≡ name
unfolding eviction_event
event_name-eviction_event name c = elim (Bool-cases c.internal) [
  | inl own ↦ rw own refl
  | inr external ↦ rw external refl
]

module _ (granted : Allocator) (e : Engine) where
  evicted_tx : Tx e → String → ℕ → Consumer → Tx e
  evicted_tx tx name head c = record tx {
    consumers = e.consumers.insert tx.consumers name (evicted head c);
  }

  evicted_tx-refuses :
      (tx : Tx e) (name : String) (head : ℕ) (c : Consumer) (token : ConsumerToken) (uuid : List ℕ)
      → database_uuid granted e tx ≡ ok uuid
      → str_eq name token.name ≡ true
      → (token_consumer granted e token (evicted_tx tx name head c) ≡ err consumer_expired)
        ⊎ (token_consumer granted e token (evicted_tx tx name head c) ≡ err consumer_needs_rebuild)
  unfolding token_consumer database_uuid evicted_tx
  evicted_tx-refuses tx name head c token uuid read named =
      rw (read, get-insert e.consumers, named) (check_token-evicted token uuid head c)

  evicted_tx-others :
      (tx : Tx e) (name : String) (head : ℕ) (c : Consumer) (other : ConsumerToken)
      → str_eq name other.name ≡ false
      → token_consumer granted e other (evicted_tx tx name head c)
        ≡ token_consumer granted e other tx
  unfolding token_consumer database_uuid evicted_tx
  evicted_tx-others tx name head c other apart = rw (get-insert e.consumers, apart) refl

  -- After an eviction, on a database with an identity, no token of the evicted consumer's name is
  -- accepted, whatever its generation: it is told to rebuild or that it expired. A token of another
  -- name is answered as before.
  pub evict_refuses :
      (tx tx' : Tx e) (event : LibraryEvent) (token other : ConsumerToken) (uuid : List ℕ)
      → evict granted e tx ≡ ok (tx', event)
      → database_uuid granted e tx ≡ ok uuid
      → str_eq (event_name event) token.name ≡ true
      → str_eq (event_name event) other.name ≡ false
      → ((token_consumer granted e token tx' ≡ err consumer_expired)
          ⊎ (token_consumer granted e token tx' ≡ err consumer_needs_rebuild))
        × (token_consumer granted e other tx' ≡ token_consumer granted e other tx)
  unfolding evict evicted_tx
  evict_refuses tx tx' event token other uuid ran read named apart =
      let (head, hh, h1) = >>=-eq-ok (number e tx "head") _ ran in
      let ((name, c), ho, h2) =
        >>=-eq-ok (ok_or (oldest _ (e.consumers.iter tx.consumers)) _) _ h1 in
      let both = ok-injective h2 in
      let same : name ≡ event_name event =
        sym (event_name-eviction_event name c) ∙ ap (λ p. event_name p.1) both in
      subst
        (λ p.
          ((token_consumer granted e token p.0 ≡ err consumer_expired)
            ⊎ (token_consumer granted e token p.0 ≡ err consumer_needs_rebuild))
          × (token_consumer granted e other p.0 ≡ token_consumer granted e other tx))
        both
        (
          evicted_tx-refuses tx name head c token uuid read
              (ap (λ n. str_eq n token.name) same ∙ named),
          evicted_tx-others tx name head c other (ap (λ n. str_eq n other.name) same ∙ apart),
        )
