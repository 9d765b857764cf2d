-- ===== src/Journal/Retention/Evict.antt =====
-- Evicting the consumer that holds the rows back (`enforce` of src/journal.rs).
use Prim.Native.String.{String}
use text.Mathlib.Text.{◌==◌ as str_eq}
use text.Mathlib.TextEquality.{eq_iff}
use mathlib.Core.Path.{subst}
use clove1db.Prelude.{
  Bool, ℕ, ◌+◌, ◌≤◌, ◌<◌, ◌≡◌, refl, ap, true, false, ◌&&◌, List, [], ◌∷◌, arith, Option, none,
  some, ◌⊎◌, Bool-cases, inl, inr, if◌then◌else◌, ltb, ◌==◌, length,
}
use clove1db.Prelude.Results.{ok}
use clove1db.Prelude.Table.Entries.{find, replace}
use clove1db.Prelude.Table.Laws.{All-insert}
use clove1db.Memory.{Allocator}
use clove1db.Journal.Store.{Engine, Tx, Consumer}
use clove1db.Journal.Invariant.{IsServed, IsJournal}
use clove1db.Journal.Retention.{
  least_step, least_acked, acked_limit, oldest_step, oldest, evicted, eviction_event, evict,
  LibraryEvent,
}

-- Whether a consumer holds rows back that the head has passed.
abbrev pub is_behind : ℕ → Consumer → Bool
is_behind head c = c.active && ltb c.acked_seq head

-- How many consumers hold rows back.
unfoldable pub behind : ℕ → List (String × Consumer) → ℕ
behind head [] = 0
behind head ((name, c) ∷ l) = (if is_behind head c then 1 else 0) + behind head l

pub behind-le-length : (head : ℕ) (l : List (String × Consumer)) → behind head l ≤ length l
unfolding behind
behind-le-length head [] = omega arith
behind-le-length head ((name, c) ∷ l) = ground (arith, behind-le-length head l)

oldest_step_cases :
    (b : Bool) (entry : String × Consumer) (o : Option (String × Consumer)) (p : String × Consumer)
    → oldest_step b entry o ≡ some p
    → (o ≡ some p) ⊎ ((b ≡ true) × (entry ≡ p))
unfolding oldest_step
oldest_step_cases false entry o p h = inl h
oldest_step_cases true entry none p h = inr (refl, cc)
oldest_step_cases true entry (some other) p h =
    elim (Bool-cases (ltb other.1.generation entry.1.generation)) [
      | inl before ↦ inl (rw before at h)
      | inr later ↦ let e : some entry ≡ some p = rw later at h in inr (refl, cc e)
    ]

-- What `oldest` returns is active and acknowledged `m`.
oldest_active :
    (m : ℕ) (l : List (String × Consumer)) (p : String × Consumer)
    → oldest m l ≡ some p
    → (p.1.active ≡ true) × (p.1.acked_seq ≡ m)
unfolding oldest
oldest_active m [] p h = cc
oldest_active m ((name, c) ∷ l) p h =
    elim (oldest_step_cases (c.active && c.acked_seq == m) (name, c) (oldest m l) p h) [
      | inl rest ↦ oldest_active m l p rest
      | inr (test, same) ↦
          subst (λ q. (q.1.active ≡ true) × (q.1.acked_seq ≡ m)) same (ground arith)
    ]

-- It stands in the list under its name.
oldest_listed :
    (m : ℕ) (l : List (String × Consumer)) (p : String × Consumer)
    → oldest m l ≡ some p
    → (w : Consumer) × (find p.0 l ≡ some w)
unfolding oldest find
oldest_listed m [] p h = cc
oldest_listed m ((name, c) ∷ l) p h =
    elim (oldest_step_cases (c.active && c.acked_seq == m) (name, c) (oldest m l) p h) [
      | inl rest ↦
          let (w, found) = oldest_listed m l p rest in
          elim (Bool-cases (str_eq name p.0)) [
            | inl same ↦ (c, rw same)
            | inr other ↦ (w, rw other found)
          ]
      | inr (test, same) ↦ (c, rw ((eq_iff name p.0).1 (ap (λ q. q.0) same)))
    ]

behind-replace-le :
    (head : ℕ) (name : String) (c : Consumer) (l : List (String × Consumer))
    → is_behind head c ≡ false
    → behind head (replace name c l) ≤ behind head l
unfolding behind replace
behind-replace-le head name c [] h = omega arith
behind-replace-le head name c ((n, d) ∷ l) h = elim (Bool-cases (str_eq n name)) [
  | inl same ↦ rw (same, h) (ground (arith, behind-replace-le head name c l h))
  | inr other ↦ rw other (omega (arith, behind-replace-le head name c l h))
]

-- Evicting it leaves fewer consumers that hold rows back.
behind-replace-lt :
    (head m : ℕ) (c : Consumer) (l : List (String × Consumer)) (p : String × Consumer)
    → is_behind head c ≡ false
    → m < head
    → oldest m l ≡ some p
    → behind head (replace p.0 c l) < behind head l
unfolding behind replace oldest
behind-replace-lt head m c [] p h lt o = cc
behind-replace-lt head m c ((n, d) ∷ l) p h lt o =
    elim (oldest_step_cases (d.active && d.acked_seq == m) (n, d) (oldest m l) p o) [
      | inl rest ↦ elim (Bool-cases (str_eq n p.0)) [
        | inl same ↦ rw (same, h) (ground (arith, behind-replace-lt head m c l p h lt rest))
        | inr other ↦ rw other (omega (arith, behind-replace-lt head m c l p h lt rest))
      ]
      | inr (test, same) ↦
          let named : str_eq n p.0 ≡ true = (eq_iff n p.0).1 (ap (λ q. q.0) same) in
          let was : is_behind head d ≡ true = ground arith in
          rw (named, h, was) (omega (arith, behind-replace-le head p.0 c l h))
    ]

least_step_cases :
    (active : Bool) (acked : ℕ) (o : Option ℕ) (m : ℕ)
    → least_step active acked o ≡ some m
    → ((active ≡ true) × (acked ≡ m)) ⊎ (o ≡ some m)
unfolding least_step
least_step_cases false acked o m h = inr h
least_step_cases true acked none m h = inl (refl, cc)
least_step_cases true acked (some k) m h = ground arith

oldest_step_test :
    (entry : String × Consumer) (o : Option (String × Consumer))
    → (p : String × Consumer) × (oldest_step true entry o ≡ some p)
unfolding oldest_step
oldest_step_test entry none = (entry, refl)
oldest_step_test entry (some other) =
    elim (Bool-cases (ltb other.1.generation entry.1.generation)) [
      | inl before ↦ (other, rw before)
      | inr later ↦ (entry, rw later)
    ]

oldest_step_rest :
    (b : Bool) (entry p : String × Consumer)
    → (q : String × Consumer) × (oldest_step b entry (some p) ≡ some q)
oldest_step_rest true entry p = oldest_step_test entry (some p)
oldest_step_rest false entry p = (p, unfold oldest_step in refl)

-- Where some consumer is active, there is one to evict.
oldest-some :
    (l : List (String × Consumer)) (m : ℕ)
    → least_acked l ≡ some m
    → (p : String × Consumer) × (oldest m l ≡ some p)
unfolding least_acked oldest
oldest-some [] m h = cc
oldest-some ((n, d) ∷ l) m h = elim (least_step_cases d.active d.acked_seq (least_acked l) m h) [
  | inl (active, acked) ↦
      let test : (d.active && d.acked_seq == m) ≡ true = ground arith in
      rw test (oldest_step_test (n, d) (oldest m l))
  | inr rest ↦
      let (p, found) = oldest-some l m rest in
      rw found (oldest_step_rest (d.active && d.acked_seq == m) (n, d) p)
]

least_acked-limit :
    (l : List (String × Consumer)) (head : ℕ)
    → acked_limit l head < head
    → least_acked l ≡ some (acked_limit l head)
unfolding acked_limit
least_acked-limit l head low = go (least_acked l) low
  where
    go :
        (o : Option ℕ)
        → elim o [ none ↦ head | some m ↦ m ] < head
        → o ≡ some (elim o [ none ↦ head | some m ↦ m ])
    go none h = absurd (omega arith)
    go (some m) h = refl

evicted-not_behind : (head : ℕ) (c : Consumer) → is_behind head (evicted head c) ≡ false
unfolding evicted
evicted-not_behind head c = ground arith

evicted-IsServed :
    (floor head : ℕ) (c : Consumer)
    → floor ≤ head + 1
    → c.acked_seq ≤ head
    → IsServed floor head (evicted head c)
unfolding evicted
evicted-IsServed floor head c h k = record { kept = ground arith; reached = ground arith }

module _ (granted : Allocator) (e : Engine) where
  -- While the bound of `prune_acked` is below the head, `evict` finds a consumer, keeps the journal in
  -- order and leaves fewer consumers that hold rows back.
  pub evict-IsJournal :
      (tx : Tx e) (floor head : ℕ)
      → IsJournal e tx floor head
      → floor ≤ head + 1
      → acked_limit (e.consumers.iter tx.consumers) head < head
      → (tx' : Tx e) × (event : LibraryEvent) × (evict granted e tx ≡ ok (tx', event))
        × IsJournal e tx' floor head
        × (behind head (e.consumers.iter tx'.consumers)
            < behind head (e.consumers.iter tx.consumers))
        × (e.changes.iter tx'.changes ≡ e.changes.iter tx.changes)
  unfolding evict
  evict-IsJournal tx floor head j h low =
      let all = e.consumers.iter tx.consumers in
      let m = acked_limit all head in
      let ((name, c), found) = oldest-some all m (least_acked-limit all head low) in
      let (active, acked) = oldest_active m all (name, c) found in
      let (w, listed) = oldest_listed m all (name, c) found in
      let replaced = e.consumers.insert_old tx.consumers name (evicted head c) listed in
      let served = evicted-IsServed floor head c h (omega arith) in
      (
        record tx { consumers = e.consumers.insert tx.consumers name (evicted head c) },
        eviction_event name c,
        rw (j.head_read, found),
        record {
          head_read = j.head_read;
          floor_read = j.floor_read;
          bytes_read = j.bytes_read;
          rows = j.rows;
          head_fits = j.head_fits;
          bytes_fit = j.bytes_fit;
          consumers =
              All-insert e.consumers (IsServed floor head) tx.consumers name _ served j.consumers;
        },
        rw replaced (
            behind-replace-lt head m (evicted head c) all (name, c) (evicted-not_behind head c) low
              found),
        refl,
      )
