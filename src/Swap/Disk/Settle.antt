-- ===== src/Swap/Disk/Settle.antt =====
-- What a marker that `recover` found leads to: the swap is ended, or the attempt is undone.
use clove1db.Prelude.{
  Bool-cases, ◌≡◌, refl, sym, ◌∙◌, ap, Bool, true, false, List, [], ◌++◌, none, some, All,
  All-append, ◌⊎◌, inl, inr, if◌then◌else◌,
}
use mathlib.Core.Path.{subst}
use clove1db.Prelude.Results.{ok}
use clove1db.Swap.Trace.{final, ◌andthen◌, each, final-append, Each}
use clove1db.Swap.Slot.{aside, place}
use clove1db.Swap.Slot.Forward.{IsSwapping, IsDone}
use clove1db.Swap.Slot.Back.{IsKept, IsRestored}
use clove1db.Swap.Disk.{
  intent, Disk, nothing, rolled_back, rolled_forward, once, on_slots, remove_commit, finish,
  roll_back, end_forward, settle,
}
use clove1db.Swap.Disk.Invariant.{
  Aim, For, targets-For, AreValid, IsForward, decided, finished, IsBack, undecided, undone,
  NoMarkers, final-on_slots,
}
use clove1db.Swap.Disk.Steps.{
  remove_commit-final, All-remove_commit, swap_lem, swap-IsForward, swap-IsSwapped,
  finish-IsForward, finish-final, removed, restored, roll_back-final, roll_back-IsBack,
}

if-true : {A : Type 0} (b : Bool) (x y : A) → b ≡ true → (if b then x else y) ≡ x
if-true true x y h = refl
if-true false x y h = cc

if-false : {A : Type 0} (b : Bool) (x y : A) → b ≡ false → (if b then x else y) ≡ y
if-false true x y h = cc
if-false false x y h = refl

module _ {C : Type 0} where
  -- The migration is over: no marker, and every target is as it was to become.
  pub record IsMoved (aims : List (Aim C)) (d : Disk C) : Type 0 where
    pub markers : NoMarkers d
    pub done : Each (For IsDone) aims d.slots

  -- The attempt is over: no marker, and every target is as it was.
  pub record IsUnmoved (aims : List (Aim C)) (d : Disk C) : Type 0 where
    pub markers : NoMarkers d
    pub restored_all : Each (For IsRestored) aims d.slots

module _ {C : Type 0} (wiped removing : C → List C) where
  settle-markers :
      (d : Disk C)
      → d.commit_file ≡ true
      → settle wiped removing none d ≡ (remove_commit d, ok rolled_forward)
  unfolding settle
  settle-markers d c = if-true d.commit_file _ _ c

  settle-nothing :
      (d : Disk C) → d.commit_file ≡ false → settle wiped removing none d ≡ ([], ok nothing)
  unfolding settle
  settle-nothing d c = if-false d.commit_file _ _ c

  -- A decided disk is swapped and finished.
  settle-decided :
      (aims : List (Aim C)) (wipe : Bool) (d : Disk C)
      → AreValid aims
      → d.commit_file ≡ true
      → Each (For IsSwapping) aims d.slots
      → let steps = on_slots (aside andthen place) d in
        settle wiped removing (some (intent 1 wipe)) d
        ≡ (steps ++ finish wiped removing wipe (final d steps), ok rolled_forward)
  unfolding settle once end_forward
  settle-decided aims wipe d v c e =
      rw (targets-For IsSwapping aims d.slots e, v)
        (if-true d.commit_file _ _ c ∙ ap (end_forward wiped removing wipe d) (swap_lem aims d e))

  settle-undecided :
      (aims : List (Aim C)) (wipe : Bool) (d : Disk C)
      → AreValid aims
      → d.commit_file ≡ false
      → Each (For IsKept) aims d.slots
      → settle wiped removing (some (intent 1 wipe)) d ≡ (roll_back removing d, ok rolled_back)
  unfolding settle once
  settle-undecided aims wipe d v c e =
      rw (targets-For IsKept aims d.slots e, v) (if-false d.commit_file _ _ c)

  pub settle-IsForward :
      (aims : List (Aim C)) (d : Disk C)
      → AreValid aims
      → d.begin_file ≡ none
      → IsForward aims d
      → let r = settle wiped removing d.intent_file d in
        All (IsForward aims) r.0
        × ((r.1 ≡ ok rolled_forward) ⊎ (r.1 ≡ ok nothing))
        × IsMoved aims (final d r.0)
  unfolding final
  settle-IsForward aims d v b (decided wipe i c e) =
      let steps = on_slots (aside andthen place) d in
      let d1 = record d { slots = final d.slots (each (aside andthen place) d.slots) } in
      let swapped = swap-IsSwapped aims d.slots e in
      subst
        (λ r.
          All (IsForward aims) r.0
          × ((r.1 ≡ ok rolled_forward) ⊎ (r.1 ≡ ok nothing))
          × IsMoved aims (final d r.0))
        (sym (ap (λ m. settle wiped removing m d) i ∙ settle-decided aims wipe d v c e))
        (
          All-append (IsForward aims) steps (finish wiped removing wipe (final d steps))
              (swap-IsForward aims d wipe i c e)
              (subst (λ u. All (IsForward aims) (finish wiped removing wipe u))
                (sym (final-on_slots (aside andthen place) d))
                (finish-IsForward wiped removing aims d1 wipe i c swapped)),
          inl refl,
          subst (IsMoved aims)
              (sym (
                final-append d steps (finish wiped removing wipe (final d steps))
                ∙ ap (λ u. final u (finish wiped removing wipe u))
                    (final-on_slots (aside andthen place) d)
                ∙ finish-final wiped removing aims d1 wipe))
              (record {
                markers = record { no_begin = b; no_intent = refl; no_commit = refl };
                done = removed wiped removing aims wipe d1.slots swapped;
              }),
        )
  settle-IsForward aims d v b (finished i e) =
      subst
        (λ r.
          All (IsForward aims) r.0
          × ((r.1 ≡ ok rolled_forward) ⊎ (r.1 ≡ ok nothing))
          × IsMoved aims (final d r.0))
        (sym (ap (λ m. settle wiped removing m d) i))
        (elim (Bool-cases d.commit_file) [
          | inl c ↦
              subst
                (λ r.
                  All (IsForward aims) r.0
                  × ((r.1 ≡ ok rolled_forward) ⊎ (r.1 ≡ ok nothing))
                  × IsMoved aims (final d r.0))
                (sym (settle-markers d c))
                (
                  All-remove_commit (IsForward aims) d (finished i e),
                  inl refl,
                  subst (IsMoved aims) (sym (remove_commit-final d)) (record {
                    markers = record { no_begin = b; no_intent = i; no_commit = refl };
                    done = e;
                  }),
                )
          | inr c ↦
              subst
                (λ r.
                  All (IsForward aims) r.0
                  × ((r.1 ≡ ok rolled_forward) ⊎ (r.1 ≡ ok nothing))
                  × IsMoved aims (final d r.0))
                (sym (settle-nothing d c))
                (
                  tt,
                  inr refl,
                  record {
                    markers = record { no_begin = b; no_intent = i; no_commit = c };
                    done = e;
                  },
                )
        ])

  pub settle-IsBack :
      (aims : List (Aim C)) (d : Disk C)
      → AreValid aims
      → d.begin_file ≡ none
      → IsBack aims d
      → let r = settle wiped removing d.intent_file d in
        All (IsBack aims) r.0
        × ((r.1 ≡ ok rolled_back) ⊎ (r.1 ≡ ok nothing))
        × IsUnmoved aims (final d r.0)
  unfolding final
  settle-IsBack aims d v b (undecided wipe i c e) =
      subst
        (λ r.
          All (IsBack aims) r.0
          × ((r.1 ≡ ok rolled_back) ⊎ (r.1 ≡ ok nothing))
          × IsUnmoved aims (final d r.0))
        (sym (ap (λ m. settle wiped removing m d) i ∙ settle-undecided aims wipe d v c e))
        (
          roll_back-IsBack removing aims d wipe i e,
          inl refl,
          subst (IsUnmoved aims) (sym (roll_back-final removing aims d)) (record {
            markers = record { no_begin = b; no_intent = refl; no_commit = refl };
            restored_all = restored removing aims d.slots e;
          }),
        )
  settle-IsBack aims d v b (undone i c e) =
      subst
        (λ r.
          All (IsBack aims) r.0
          × ((r.1 ≡ ok rolled_back) ⊎ (r.1 ≡ ok nothing))
          × IsUnmoved aims (final d r.0))
        (sym (ap (λ m. settle wiped removing m d) i ∙ settle-nothing d c))
        (
          tt,
          inr refl,
          record {
            markers = record { no_begin = b; no_intent = i; no_commit = c };
            restored_all = e;
          },
        )
