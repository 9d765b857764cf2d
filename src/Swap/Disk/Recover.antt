-- ===== src/Swap/Disk/Recover.antt =====
-- `recover` on a disk that a crash left behind: with the decision it ends the migration, without it
-- it undoes it, and a crash during the recovery leaves a disk it can be run on again.
use clove1db.Prelude.{◌≡◌, refl, sym, ◌∙◌, ap, List, [], ◌++◌, none, All, All-append, ◌⊎◌, inl, inr}
use mathlib.Core.Path.{subst}
use clove1db.Prelude.Results.{Result, ok, err, ClError, ◌>>◌}
use clove1db.Swap.Trace.{final, final-append}
use clove1db.Swap.Disk.{
  Disk, Locks, Recovery, nothing, rolled_back, rolled_forward, lock_or_busy, check_free, once,
  remove_begin, settle, recover_marker, recover,
}
use clove1db.Swap.Disk.Invariant.{
  Aim, AreValid, IsForward, decided, finished, IsBack, undecided, undone,
}
use clove1db.Swap.Disk.Steps.{remove_begin-final, All-remove_begin}
use clove1db.Swap.Disk.Settle.{IsMoved, IsUnmoved, settle-IsForward, settle-IsBack}

>>-ok : (r s : Result (Unit {0})) → (r >> s) ≡ ok tt → (r ≡ ok tt) × (s ≡ ok tt)
>>-ok (ok tt) s h = (refl, h)
>>-ok (err e) s h = cc

>>-err :
    (r s : Result (Unit {0})) (e : ClError)
    → (r >> s) ≡ err e
    → (r ≡ err e) ⊎ ((r ≡ ok tt) × (s ≡ err e))
>>-err (ok tt) s e h = inr (refl, h)
>>-err (err x) s e h = inl h

module _ {C : Type 0} where
  -- Only the marker that was still being made may go.
  pub record IsLeftAlone (d e : Disk C) : Type 0 where
    pub slots_same : e.slots ≡ d.slots
    pub intent_same : e.intent_file ≡ d.intent_file
    pub commit_same : e.commit_file ≡ d.commit_file

module _ {C : Type 0} (wiped removing : C → List C) where
  -- Where no lock is held, the marker that was still being made goes and the other one decides.
  recover_lem :
      (locks : Locks) (d : Disk C)
      → check_free locks d ≡ ok tt
      → let e = record d { begin_file = none } in
        recover wiped removing locks d ≡ (
          remove_begin d ++ (settle wiped removing d.intent_file e).0,
          (settle wiped removing d.intent_file e).1,
        )
  unfolding recover recover_marker check_free once
  recover_lem locks d h =
      let (hb, hi) =
        >>-ok (lock_or_busy d.begin_file locks.begin_held)
          (lock_or_busy d.intent_file locks.intent_held) h in
      rw (hb, remove_begin-final d, hi)

  -- What `recover` does, from what is done after the first marker is gone.
  after_begin :
      (P Q : Disk C → Type 0) (R : Result Recovery → Type 0) (locks : Locks) (d : Disk C)
      → check_free locks d ≡ ok tt
      → P (record d { begin_file = none })
      → (let e = record d { begin_file = none } in
          let r = settle wiped removing d.intent_file e in All P r.0 × R r.1 × Q (final e r.0))
      → let r = recover wiped removing locks d in All P r.0 × R r.1 × Q (final d r.0)
  after_begin P Q R locks d h p k =
      let e = record d { begin_file = none } in
      let r = settle wiped removing d.intent_file e in
      subst (λ x. All P x.0 × R x.1 × Q (final d x.0)) (sym (recover_lem locks d h))
        (
          All-append P (remove_begin d) r.0 (All-remove_begin P d p) k.0,
          k.1,
          subst Q
              (sym (
                final-append d (remove_begin d) r.0 ∙ ap (λ u. final u r.0) (remove_begin-final d)))
              k.2,
        )

  unbegun-IsForward :
      (aims : List (Aim C)) (d : Disk C)
      → IsForward aims d
      → IsForward aims (record d { begin_file = none })
  unbegun-IsForward aims d (decided wipe i c e) = decided wipe i c e
  unbegun-IsForward aims d (finished i e) = finished i e

  unbegun-IsBack :
      (aims : List (Aim C)) (d : Disk C)
      → IsBack aims d
      → IsBack aims (record d { begin_file = none })
  unbegun-IsBack aims d (undecided wipe i c e) = undecided wipe i c e
  unbegun-IsBack aims d (undone i c e) = undone i c e

  -- Where the decision is on disk (or only the removal of the markers is left) and no lock is held,
  -- `recover` succeeds: it ends with no marker and with every target as the migration meant it to
  -- become, no old file left; and every state on the way is again one that this holds of.
  pub recover-IsForward :
      (aims : List (Aim C)) (locks : Locks) (d : Disk C)
      → AreValid aims
      → check_free locks d ≡ ok tt
      → IsForward aims d
      → let r = recover wiped removing locks d in
        All (IsForward aims) r.0
        × ((r.1 ≡ ok rolled_forward) ⊎ (r.1 ≡ ok nothing))
        × IsMoved aims (final d r.0)
  recover-IsForward aims locks d v h w =
      after_begin (IsForward aims) (IsMoved aims) (λ r. (r ≡ ok rolled_forward) ⊎ (r ≡ ok nothing))
        locks d h (unbegun-IsForward aims d w)
        (settle-IsForward wiped removing aims (record d { begin_file = none }) v refl
          (unbegun-IsForward aims d w))

  -- Where there is a marker without the decision (or nothing of an attempt is left) and no lock is
  -- held, `recover` succeeds: it ends with no marker and with every target as it was before the
  -- migration; and every state on the way is again one that this holds of.
  pub recover-IsBack :
      (aims : List (Aim C)) (locks : Locks) (d : Disk C)
      → AreValid aims
      → check_free locks d ≡ ok tt
      → IsBack aims d
      → let r = recover wiped removing locks d in
        All (IsBack aims) r.0
        × ((r.1 ≡ ok rolled_back) ⊎ (r.1 ≡ ok nothing))
        × IsUnmoved aims (final d r.0)
  recover-IsBack aims locks d v h w =
      after_begin (IsBack aims) (IsUnmoved aims) (λ r. (r ≡ ok rolled_back) ⊎ (r ≡ ok nothing))
        locks d h (unbegun-IsBack aims d w)
        (settle-IsBack wiped removing aims (record d { begin_file = none }) v refl
          (unbegun-IsBack aims d w))

  recover-begin_held :
      (locks : Locks) (d : Disk C) (e : ClError)
      → lock_or_busy d.begin_file locks.begin_held ≡ err e
      → recover wiped removing locks d ≡ ([], err e)
  unfolding recover once
  recover-begin_held locks d e b = rw b

  recover-intent_held :
      (locks : Locks) (d : Disk C) (e : ClError)
      → lock_or_busy d.begin_file locks.begin_held ≡ ok tt
      → lock_or_busy d.intent_file locks.intent_held ≡ err e
      → recover wiped removing locks d ≡ (remove_begin d ++ [], err e)
  unfolding recover recover_marker once
  recover-intent_held locks d e b i = rw (b, remove_begin-final d, i)

  -- Where a program that is alive holds the lock of a marker, `recover` comes out with that error:
  -- no target, no marker of a migration and no decision is touched on the way.
  pub recover_busy :
      (locks : Locks) (d : Disk C) (e : ClError)
      → check_free locks d ≡ err e
      → let r = recover wiped removing locks d in (r.1 ≡ err e) × All (IsLeftAlone d) r.0
  unfolding check_free
  recover_busy locks d e h =
      elim (>>-err (lock_or_busy d.begin_file locks.begin_held)
        (lock_or_busy d.intent_file locks.intent_held) e h) [
          | inl b ↦
              subst (λ r. (r.1 ≡ err e) × All (IsLeftAlone d) r.0)
                (sym (recover-begin_held locks d e b)) (refl, tt)
          | inr (b, i) ↦
              subst (λ r. (r.1 ≡ err e) × All (IsLeftAlone d) r.0)
                (sym (recover-intent_held locks d e b i))
                (
                  refl,
                  All-append (IsLeftAlone d) (remove_begin d) []
                      (All-remove_begin (IsLeftAlone d) d
                        (record { slots_same = refl; intent_same = refl; commit_same = refl }))
                      tt,
                )
        ]
