-- ===== src/Swap/Disk/Steps.antt =====
-- The parts of a migration on disk, one by one: the marker files, the swap with what finishes it,
-- and the rollback.
use clove1db.Prelude.{
  ◌≡◌, refl, sym, ◌∙◌, ap, Bool, true, false, List, [], ◌∷◌, Option, none, some, All,
}
use mathlib.Core.Path.{subst}
use clove1db.Prelude.Results.{ok}
use clove1db.Swap.Trace.{
  final, ◌andthen◌, each, All-andthen, final-andthen, Each, Each-map, each-Each, final-Each,
}
use clove1db.Swap.Slot.{Slot, aside, place, remove_old, restore}
use clove1db.Swap.Slot.Forward.{
  IsSwapping, IsSwapped, IsDone, check_state-IsSwapping, IsSwapped-IsSwapping, swap_one-IsSwapping,
  swap_one-IsSwapped, remove_old-Keeps, remove_old-IsDone,
}
use clove1db.Swap.Slot.Back.{IsKept, IsRestored, restore-IsKept, restore-IsRestored}
use clove1db.Swap.Disk.{
  Marker, intent, Disk, has_marker, on_slots, all_checked, swap, remove_intent, remove_commit,
  remove_begin, finish, roll_back,
}
use clove1db.Swap.Disk.Invariant.{
  Aim, For, All-if, swap_one-Same, remove_old-Same, restore-Same, For-Keeps, final-For, IsForward,
  decided, finished, IsBack, undecided, undone, All-on_slots, final-on_slots,
}

module _ {C : Type 0} where
  pub remove_intent-final :
      (d : Disk C) → final d (remove_intent d) ≡ record d { intent_file = none }
  unfolding remove_intent final
  remove_intent-final d = go d.intent_file
    where
      go :
          (m : Option Marker)
          → let e = record d { intent_file = m } in
            final e (remove_intent e) ≡ record d { intent_file = none }
      go none = refl
      go (some x) = refl

  pub remove_commit-final :
      (d : Disk C) → final d (remove_commit d) ≡ record d { commit_file = false }
  unfolding remove_commit final
  remove_commit-final d = go d.commit_file
    where
      go :
          (b : Bool)
          → let e = record d { commit_file = b } in
            final e (remove_commit e) ≡ record d { commit_file = false }
      go true = refl
      go false = refl

  pub remove_begin-final : (d : Disk C) → final d (remove_begin d) ≡ record d { begin_file = none }
  unfolding remove_begin final
  remove_begin-final d = go d.begin_file
    where
      go :
          (m : Option Marker)
          → let e = record d { begin_file = m } in
            final e (remove_begin e) ≡ record d { begin_file = none }
      go none = refl
      go (some x) = refl

  pub All-remove_intent :
      (P : Disk C → Type 0) (d : Disk C)
      → P (record d { intent_file = none })
      → All P (remove_intent d)
  unfolding remove_intent
  All-remove_intent P d p = All-if P (has_marker d.intent_file) (record d { intent_file = none }) p

  pub All-remove_commit :
      (P : Disk C → Type 0) (d : Disk C)
      → P (record d { commit_file = false })
      → All P (remove_commit d)
  unfolding remove_commit
  All-remove_commit P d p = All-if P d.commit_file (record d { commit_file = false }) p

  pub All-remove_begin :
      (P : Disk C → Type 0) (d : Disk C)
      → P (record d { begin_file = none })
      → All P (remove_begin d)
  unfolding remove_begin
  All-remove_begin P d p = All-if P (has_marker d.begin_file) (record d { begin_file = none }) p

  all_checked-IsSwapping :
      (aims : List (Aim C)) (l : List (Slot C))
      → Each (For IsSwapping) aims l
      → all_checked l ≡ true
  unfolding Each all_checked
  all_checked-IsSwapping [] [] e = refl
  all_checked-IsSwapping [] (s ∷ l) e = absurd e
  all_checked-IsSwapping (a ∷ aims) [] e = absurd e
  all_checked-IsSwapping (a ∷ aims) (s ∷ l) e =
      rw (check_state-IsSwapping a.content s e.0.holds, all_checked-IsSwapping aims l e.1)

  -- The swap of targets on their way is not refused.
  pub swap_lem :
      (aims : List (Aim C)) (d : Disk C)
      → Each (For IsSwapping) aims d.slots
      → swap d ≡ ok (on_slots (aside andthen place) d)
  unfolding swap
  swap_lem aims d e = rw (all_checked-IsSwapping aims d.slots e)

  pub swap-IsForward :
      (aims : List (Aim C)) (d : Disk C) (wipe : Bool)
      → d.intent_file ≡ some (intent 1 wipe)
      → d.commit_file ≡ true
      → Each (For IsSwapping) aims d.slots
      → All (IsForward aims) (on_slots (aside andthen place) d)
  swap-IsForward aims d wipe i c e =
      All-on_slots (IsForward aims) (Each (For IsSwapping) aims) (aside andthen place) d
        (λ l h. decided wipe i c h)
        (each-Each (For IsSwapping) (aside andthen place)
          (λ a.
            For-Keeps IsSwapping (aside andthen place) a (swap_one-Same a.target)
              (swap_one-IsSwapping a.content))
          aims d.slots e)

  pub swap-IsSwapped :
      (aims : List (Aim C)) (l : List (Slot C))
      → Each (For IsSwapping) aims l
      → Each (For IsSwapped) aims (final l (each (aside andthen place) l))
  swap-IsSwapped aims l e =
      final-Each (For IsSwapping) (aside andthen place) (For IsSwapped)
        (λ a.
          final-For IsSwapping IsSwapped (aside andthen place) a (swap_one-Same a.target)
            (swap_one-IsSwapped a.content))
        aims l e

  module _ (wiped removing : C → List C) (aims : List (Aim C)) where
    pub removed :
        (wipe : Bool) (l : List (Slot C))
        → Each (For IsSwapped) aims l
        → Each (For IsDone) aims (final l (each (remove_old wiped removing wipe) l))
    removed wipe l e =
        let f = remove_old wiped removing wipe in
        final-Each (For IsSwapped) f (For IsDone)
          (λ a.
            final-For IsSwapped IsDone f a (remove_old-Same wiped removing wipe a.target)
              (remove_old-IsDone wiped removing a.content wipe))
          aims l e

    pub finish-IsForward :
        (d : Disk C) (wipe : Bool)
        → d.intent_file ≡ some (intent 1 wipe)
        → d.commit_file ≡ true
        → Each (For IsSwapped) aims d.slots
        → All (IsForward aims) (finish wiped removing wipe d)
    unfolding finish
    finish-IsForward d wipe i c e =
        let f = remove_old wiped removing wipe in
        let over = removed wipe d.slots e in
        let at_intent = record d { slots = final d.slots (each f d.slots) } in
        All-andthen (IsForward aims) (on_slots f andthen remove_intent) remove_commit d
          (All-andthen (IsForward aims) (on_slots f) remove_intent d
            (All-on_slots (IsForward aims) (Each (For IsSwapped) aims) f d
              (λ l h. decided wipe i c (
                Each-map (For IsSwapped) (For IsSwapping) aims l
                  (λ a s k. record {
                    same = k.same;
                    holds = IsSwapped-IsSwapping a.content s k.holds;
                  })
                  h))
              (each-Each (For IsSwapped) f
                (λ a.
                  For-Keeps IsSwapped f a (remove_old-Same wiped removing wipe a.target)
                    (remove_old-Keeps wiped removing a.content wipe))
                aims d.slots e))
            (subst (λ u. All (IsForward aims) (remove_intent u)) (sym (final-on_slots f d))
              (All-remove_intent (IsForward aims) at_intent (finished refl over))))
          (subst (λ u. All (IsForward aims) (remove_commit u))
            (sym (
              final-andthen (on_slots f) remove_intent d
              ∙ ap (λ u. final u (remove_intent u)) (final-on_slots f d)
              ∙ remove_intent-final at_intent))
            (All-remove_commit (IsForward aims) (record at_intent { intent_file = none })
              (finished refl over)))

    pub finish-final :
        (d : Disk C) (wipe : Bool)
        → final d (finish wiped removing wipe d) ≡ record d {
          slots = final d.slots (each (remove_old wiped removing wipe) d.slots);
          intent_file = none;
          commit_file = false;
        }
    unfolding finish
    finish-final d wipe =
        let f = remove_old wiped removing wipe in
        final-andthen (on_slots f andthen remove_intent) remove_commit d
        ∙ ap (λ e. final e (remove_commit e))
            (final-andthen (on_slots f) remove_intent d
              ∙ ap (λ e. final e (remove_intent e)) (final-on_slots f d)
              ∙ remove_intent-final (record d { slots = final d.slots (each f d.slots) }))
        ∙ remove_commit-final
            (record d { slots = final d.slots (each f d.slots); intent_file = none })

  module _ (removing : C → List C) (aims : List (Aim C)) where
    pub restored :
        (l : List (Slot C))
        → Each (For IsKept) aims l
        → Each (For IsRestored) aims (final l (each (restore removing) l))
    restored l e =
        final-Each (For IsKept) (restore removing) (For IsRestored)
          (λ a.
            final-For IsKept IsRestored (restore removing) a (restore-Same removing a.target)
              (restore-IsRestored removing a.content))
          aims l e

    pub roll_back-final :
        (d : Disk C)
        → final d (roll_back removing d) ≡ record d {
          slots = final d.slots (each (restore removing) d.slots);
          intent_file = none;
          commit_file = false;
        }
    unfolding roll_back
    roll_back-final d =
        let f = restore removing in
        final-andthen (remove_commit andthen on_slots f) remove_intent d
        ∙ ap (λ e. final e (remove_intent e))
            (final-andthen remove_commit (on_slots f) d
              ∙ ap (λ e. final e (on_slots f e)) (remove_commit-final d)
              ∙ final-on_slots f (record d { commit_file = false }))
        ∙ remove_intent-final
            (record d { slots = final d.slots (each f d.slots); commit_file = false })

    pub roll_back-IsBack :
        (d : Disk C) (wipe : Bool)
        → d.intent_file ≡ some (intent 1 wipe)
        → Each (For IsKept) aims d.slots
        → All (IsBack aims) (roll_back removing d)
    unfolding roll_back
    roll_back-IsBack d wipe i e =
        let f = restore removing in
        let withdrawn = record d { commit_file = false } in
        let back = restored d.slots e in
        All-andthen (IsBack aims) (remove_commit andthen on_slots f) remove_intent d
          (All-andthen (IsBack aims) remove_commit (on_slots f) d
            (All-remove_commit (IsBack aims) d (undecided wipe i refl e))
            (subst (λ u. All (IsBack aims) (on_slots f u)) (sym (remove_commit-final d))
              (All-on_slots (IsBack aims) (Each (For IsKept) aims) f withdrawn
                (λ l h. undecided wipe i refl h)
                (each-Each (For IsKept) f
                  (λ a.
                    For-Keeps IsKept f a (restore-Same removing a.target)
                      (restore-IsKept removing a.content))
                  aims d.slots e))))
          (subst (λ u. All (IsBack aims) (remove_intent u))
            (sym (
              final-andthen remove_commit (on_slots f) d
              ∙ ap (λ u. final u (on_slots f u)) (remove_commit-final d)
              ∙ final-on_slots f withdrawn))
            (All-remove_intent (IsBack aims)
              (record withdrawn { slots = final d.slots (each f d.slots) })
              (undone refl refl back)))
