-- ===== src/Swap/Disk/Complete.antt =====
-- A migration that runs to its end, and the rollback that a failure asks for; where a crash would
-- leave each of them.
use clove1db.Prelude.{
  ◌≡◌, refl, sym, ◌∙◌, ap, Bool, not, true, false, List, [], ◌∷◌, none, some, All, All-map, map,
  inl, inr,
}
use mathlib.Core.Path.{subst}
use clove1db.Prelude.Results.{ok, guard, >>=-eq-ok}
use clove1db.Swap.Trace.{final, ◌andthen◌, each, Each, Each-map, each-Each}
use clove1db.Swap.Slot.{Slot, aside, place}
use clove1db.Swap.Slot.Forward.{wanted, Stage, IsSwapping, IsDone}
use clove1db.Swap.Slot.Back.{IsKept, IsUndoable, IsRestored, swap_one-IsUndoable}
use clove1db.Swap.Disk.{
  intent, Disk, mark_existed, begin_with, commit, all_new_there, on_slots, swap, finish, roll_back,
}
use clove1db.Swap.Disk.Invariant.{
  Aim, For, AreValid, For-Keeps, swap_one-Same, IsForward, decided, IsBack, undecided, All-on_slots,
  final-on_slots,
}
use clove1db.Swap.Disk.Steps.{
  swap_lem, swap-IsForward, swap-IsSwapped, finish-IsForward, finish-final, removed, restored,
  roll_back-final, roll_back-IsBack,
}
use clove1db.Swap.Disk.Begin.{started, IsUntouched, in_place-IsKept, begin_with-IsBack}

module _ {C : Type 0} where
  -- The new content waits, where there is to be one.
  pub record HasNew (n : C) (s : Slot C) : Type 0 where
    pub new_is : s.new ≡ wanted s.target.replace n

  -- Writing the new files has changed only them.
  pub record IsPrepared (s t : Slot C) : Type 0 where
    pub target_same : t.target ≡ s.target
    pub file_same : t.file ≡ s.file
    pub old_same : t.old ≡ s.old

  -- The disk while the new files are written, each of them in any state: the markers are as they were.
  pub record AreWriting (d e : Disk C) : Type 0 where
    pub begin_same : e.begin_file ≡ d.begin_file
    pub intent_same : e.intent_file ≡ d.intent_file
    pub commit_same : e.commit_file ≡ d.commit_file
    pub slots_same : Each IsPrepared d.slots e.slots

  -- The disk after all of them were written.
  pub record AreWritten (news : List (Aim C)) (d e : Disk C) : Type 0 where
    pub writing : AreWriting d e
    pub have_new : Each (For HasNew) news e.slots

  -- The old files stay where they are while the new ones are written.
  prepared-Old :
      (olds : List (Aim C)) (l m : List (Slot C))
      → Each (For IsRestored) olds l
      → Each IsPrepared l m
      → Each (For IsKept) olds m × All (λ s. s.old ≡ none) m
  unfolding Each
  prepared-Old [] [] [] e p = (tt, tt)
  prepared-Old [] (s ∷ l) m e p = absurd e
  prepared-Old (a ∷ olds) [] m e p = absurd e
  prepared-Old [] [] (t ∷ m) e p = absurd p
  prepared-Old (a ∷ olds) (s ∷ l) [] e p = absurd p
  prepared-Old (a ∷ olds) (s ∷ l) (t ∷ m) e p =
      let (hs, hp) = e in
      let (ks, kp) = p in
      let rest = prepared-Old olds l m hp kp in
      (
        (
          record {
            same = ks.target_same ∙ hs.same;
            holds =
                in_place-IsKept a.content t
                  (ks.file_same
                    ∙ hs.holds.file_is
                    ∙ ap (λ u. wanted u.existed a.content) (sym ks.target_same))
                  (ks.old_same ∙ hs.holds.old_is);
          },
          rest.0,
        ),
        (ks.old_same ∙ hs.holds.old_is, rest.1),
      )

  ready-IsSwapping :
      (news : List (Aim C)) (l : List (Slot C))
      → Each (For HasNew) news l
      → All (λ s. s.old ≡ none) l
      → Each (For IsSwapping) news l
  unfolding Each Stage wanted
  ready-IsSwapping [] [] e o = tt
  ready-IsSwapping [] (s ∷ l) e o = absurd e
  ready-IsSwapping (a ∷ news) [] e o = absurd e
  ready-IsSwapping (a ∷ news) (s ∷ l) e o = (
    record { same = e.0.same; holds = record { stage = go s.target.replace e.0.holds.new_is } },
    ready-IsSwapping news l e.1 o.1,
  )
    where
      go : (r : Bool) → s.new ≡ wanted r a.content → Stage r a.content s.file s.new s.old
      go true h = inl (h, inr o.0)
      go false h = (h, inr o.0)

  -- The decision turns a disk that `recover` undoes into one that it finishes.
  commit-ok :
      (d : Disk C) {steps : List (Disk C)}
      → commit d ≡ ok steps
      → record d { commit_file = true } ∷ [] ≡ steps
  unfolding commit
  commit-ok d h =
      let (x, _, h1) = >>=-eq-ok (guard (all_new_there d.slots) _) _ h in
      let (y, _, h2) = >>=-eq-ok (guard (not d.commit_file) _) _ h1 in cc h2

  module _ (wiped removing : C → List C) where
    -- The disk after the swap and the end of it.
    unfoldable pub last_state : Bool → Disk C → Disk C
    last_state wipe d =
        let swapped = final d (on_slots (aside andthen place) d) in
        final swapped (finish wiped removing wipe swapped)

    -- From the decision on: the swap is not refused, a crash anywhere leaves what `recover` ends,
    -- and the end has no marker, no decision, no old file and every target as it was to become.
    pub record Completes (news : List (Aim C)) (wipe : Bool) (d : Disk C) : Type 0 where
      pub accepted : swap d ≡ ok (on_slots (aside andthen place) d)
      pub swapping : All (IsForward news) (on_slots (aside andthen place) d)
      pub ending :
          All
            (IsForward news)
            (finish wiped removing wipe (final d (on_slots (aside andthen place) d)))
      pub no_begin : (last_state wipe d).begin_file ≡ d.begin_file
      pub no_intent : (last_state wipe d).intent_file ≡ none
      pub no_commit : (last_state wipe d).commit_file ≡ false
      pub all_done : Each (For IsDone) news (last_state wipe d).slots

    decided-Completes :
        (news : List (Aim C)) (wipe : Bool) (d : Disk C)
        → d.intent_file ≡ some (intent 1 wipe)
        → d.commit_file ≡ true
        → Each (For IsSwapping) news d.slots
        → Completes news wipe d
    unfolding last_state
    decided-Completes news wipe d i c e =
        let steps = on_slots (aside andthen place) d in
        let f = finish wiped removing wipe in
        let d1 = record d { slots = final d.slots (each (aside andthen place) d.slots) } in
        let at_d1 = final-on_slots (aside andthen place) d in
        let swapped = swap-IsSwapped news d.slots e in
        let over = ap (λ u. final u (f u)) at_d1 ∙ finish-final wiped removing news d1 wipe in
        record {
          accepted = swap_lem news d e;
          swapping = swap-IsForward news d wipe i c e;
          ending =
              subst (λ u. All (IsForward news) (f u)) (sym at_d1)
                (finish-IsForward wiped removing news d1 wipe i c swapped);
          no_begin = ap (λ u. u.begin_file) over;
          no_intent = ap (λ u. u.intent_file) over;
          no_commit = ap (λ u. u.commit_file) over;
          all_done =
              subst (λ u. Each (For IsDone) news u.slots) (sym over)
                (removed wiped removing news wipe d1.slots swapped);
        }

    -- While the new files are written, whatever there is of them, `recover` undoes the migration.
    writing-IsBack :
        (olds : List (Aim C)) (wipe : Bool) (d0 e : Disk C)
        → d0.intent_file ≡ some (intent 1 wipe)
        → d0.commit_file ≡ false
        → Each (For IsRestored) olds d0.slots
        → AreWriting d0 e
        → IsBack olds e
    writing-IsBack olds wipe d0 e i c r w =
        undecided wipe (w.intent_same ∙ i) (w.commit_same ∙ c)
          (prepared-Old olds d0.slots e.slots r w.slots_same).0

    -- A migration from untouched targets to the end, by `begin_with`, the new files written,
    -- `commit`, `swap` and `finish`. The marker's targets are ones that `recover` accepts; every
    -- state of `begin_with` is one that `recover` undoes, and so is every state after it in which the
    -- new files and the temporary ones are as they may be, the markers and the other files as
    -- `begin_with` left them; every state from the decision on is one that `recover` finishes; the swap
    -- is not refused; and the end has no marker, no decision, no old file, and every target as it was
    -- to become.
    pub migration_atomic :
        (olds news : List (Aim C)) (wipe : Bool) (d written : Disk C) (on_the_way : List (Disk C))
        {begun committed : List (Disk C)}
        → Each IsUntouched olds d.slots
        → begin_with wipe d ≡ ok begun
        → All (AreWriting (final d begun)) on_the_way
        → AreWritten news (final d begun) written
        → commit written ≡ ok committed
        → AreValid olds
          × All (IsBack olds) begun
          × All (IsBack olds) on_the_way
          × IsBack olds written
          × All (IsForward news) committed
          × Completes news wipe (final written committed)
    unfolding started final
    migration_atomic olds news wipe d written on_the_way e h m w k =
        let (hv, hb, hf, hr) = begin_with-IsBack olds wipe d e h in
        let at_start = (subst (λ u. AreWritten news u written) hf w).writing in
        let (kept, free) =
          prepared-Old olds (map mark_existed d.slots) written.slots hr at_start.slots_same in
        let ready = ready-IsSwapping news written.slots w.have_new free in
        let c = commit-ok written k in
        (
          hv,
          hb,
          All-map _ _ on_the_way (λ u v. writing-IsBack olds wipe (started wipe d) u refl refl hr v)
              (subst (λ u. All (AreWriting u) on_the_way) hf m),
          writing-IsBack olds wipe (started wipe d) written refl refl hr at_start,
          subst (All (IsForward news)) c (decided wipe at_start.intent_same refl ready, tt),
          subst (λ l. Completes news wipe (final written l)) c
              (decided-Completes news wipe (record written { commit_file = true })
                at_start.intent_same refl ready),
        )

  module _ (removing : C → List C) where
    -- Every state of a swap can still be rolled back: the states of the rollback are ones that
    -- `recover` undoes, and it ends with every target as it was, without marker and decision.
    pub swap_undone :
        (olds : List (Aim C)) (d : Disk C) (wipe : Bool)
        → d.intent_file ≡ some (intent 1 wipe)
        → Each (For IsUndoable) olds d.slots
        → All
            (λ u.
              All (IsBack olds) (roll_back removing u)
              × ((final u (roll_back removing u)).intent_file ≡ none)
              × ((final u (roll_back removing u)).commit_file ≡ false)
              × Each (For IsRestored) olds (final u (roll_back removing u)).slots)
            (on_slots (aside andthen place) d)
    swap_undone olds d wipe i e =
        All-on_slots _ (Each (For IsUndoable) olds) (aside andthen place) d
          (λ l h.
            let u = record d { slots = l } in
            let kept =
              Each-map (For IsUndoable) (For IsKept) olds l
                (λ a s k. record { same = k.same; holds = k.holds.is_kept }) h in
            let over = roll_back-final removing olds u in
            (
              roll_back-IsBack removing olds u wipe i kept,
              ap (λ x. x.intent_file) over,
              ap (λ x. x.commit_file) over,
              subst (λ x. Each (For IsRestored) olds x.slots) (sym over)
                  (restored removing olds l kept),
            ))
          (each-Each (For IsUndoable) (aside andthen place)
            (λ a.
              For-Keeps IsUndoable (aside andthen place) a (swap_one-Same a.target)
                (swap_one-IsUndoable a.content))
            olds d.slots e)
