-- ===== src/Journal/Retention/Limit.antt =====
-- The bound of `prune_acked` is at most the head and at most what every active consumer acknowledged.
use Prim.Native.String.{String}
use clove1db.Prelude.{
  Bool, ℕ, ◌+◌, ◌≤◌, ◌≡◌, refl, true, false, List, [], ◌∷◌, arith, Option, none, some, max, All,
  All-map,
}
use clove1db.Prelude.Results.{ok}
use clove1db.Prelude.Table.Entries.{after}
use clove1db.Memory.{Allocator, Grants}
use clove1db.Journal.Store.{Engine, Tx, Consumer}
use clove1db.Journal.Invariant.{IsServed, IsJournal}
use clove1db.Journal.Prune.Laws.{prune-IsJournal}
use clove1db.Journal.Retention.{least_step, least_acked, acked_limit, prune_acked}

abbrev AtMost : ℕ → Option ℕ → Type 0
AtMost k none = Unit {0}
AtMost k (some m) = k ≤ m

least_step_bound :
    (k : ℕ) (active : Bool) (acked : ℕ) (rest : Option ℕ)
    → AtMost k (least_step active acked rest)
    → (active ≡ true → k ≤ acked) × AtMost k rest
unfolding least_step
least_step_bound k false acked rest h = (λ a. cc, h)
least_step_bound k true acked none h = (λ a. h, tt)
least_step_bound k true acked (some m) h = (λ a. omega arith, omega arith)

least_acked_bound :
    (k : ℕ) (l : List (String × Consumer))
    → AtMost k (least_acked l)
    → All (λ c. c.1.active ≡ true → k ≤ c.1.acked_seq) l
unfolding least_acked
least_acked_bound k [] h = tt
least_acked_bound k ((name, c) ∷ l) h =
    let (own, rest) = least_step_bound k c.active c.acked_seq (least_acked l) h in
    (own, least_acked_bound k l rest)

-- None of the active consumers acknowledged less than the bound.
pub acked_limit_bound :
    (l : List (String × Consumer)) (head : ℕ)
    → All (λ c. c.1.active ≡ true → acked_limit l head ≤ c.1.acked_seq) l
unfolding acked_limit
acked_limit_bound l head = least_acked_bound (acked_limit l head) l (at_most (least_acked l))
  where
    at_most : (o : Option ℕ) → AtMost (elim o [ none ↦ head | some m ↦ m ]) o
    at_most none = tt
    at_most (some m) = omega arith

abbrev AtLeast : ℕ → Option ℕ → Type 0
AtLeast head none = Unit {0}
AtLeast head (some m) = m ≤ head

least_acked-le :
    (head : ℕ) (l : List (String × Consumer))
    → All (λ c. c.1.active ≡ true → c.1.acked_seq ≤ head) l
    → AtLeast head (least_acked l)
unfolding least_acked least_step
least_acked-le head [] a = tt
least_acked-le head ((name, c) ∷ l) a =
    go c.active c.acked_seq (least_acked l) a.0 (least_acked-le head l a.1)
  where
    go :
        (active : Bool) (acked : ℕ) (rest : Option ℕ)
        → (active ≡ true → acked ≤ head)
        → AtLeast head rest
        → AtLeast head (least_step active acked rest)
    go false acked rest own h = h
    go true acked none own h = own refl
    go true acked (some m) own h = omega arith

pub acked_limit-le :
    (l : List (String × Consumer)) (head : ℕ)
    → All (λ c. c.1.active ≡ true → c.1.acked_seq ≤ head) l
    → acked_limit l head ≤ head
unfolding acked_limit
acked_limit-le l head a = go (least_acked l) (least_acked-le head l a)
  where
    go : (o : Option ℕ) → AtLeast head o → elim o [ none ↦ head | some m ↦ m ] ≤ head
    go none h = omega arith
    go (some m) h = h

module _ (granted : Allocator) (e : Engine) (g : Grants granted) where
  -- `prune_acked` succeeds: the rows that every active consumer acknowledged go, and no others.
  pub prune_acked-IsJournal :
      (tx : Tx e) (floor head : ℕ)
      → IsJournal e tx floor head
      → (tx' : Tx e) × (prune_acked granted e tx ≡ ok tx')
        × IsJournal e tx' (max floor (acked_limit (e.consumers.iter tx.consumers) head + 1)) head
        × (e.changes.iter tx'.changes
            ≡ after (acked_limit (e.consumers.iter tx.consumers) head) (e.changes.iter tx.changes))
        × (tx'.consumers ≡ tx.consumers)
  unfolding prune_acked
  prune_acked-IsJournal tx floor head j =
      let all = e.consumers.iter tx.consumers in
      let reached = All-map _ _ all (λ c (s : IsServed floor head c.1). s.reached) j.consumers in
      let (tx', ran, kept, rows, same) =
        prune-IsJournal granted e g tx floor head (acked_limit all head) j
          (acked_limit-le all head reached) (acked_limit_bound all head) in
      (tx', rw j.head_read ran, kept, rows, same)
