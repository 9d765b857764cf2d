-- ===== src/Swap/Disk/Invariant.antt =====
-- What the migration is about on disk at any moment: the new content of each target once the
-- decision is made, the old content before it.
use clove1db.Prelude.{
  ◌≡◌, refl, Bool, not, true, false, List, [], ◌∷◌, none, some, All, All-both, map, if◌then◌else◌,
}
use clove1db.Prelude.Results.{ok}
use clove1db.Swap.Trace.{
  Op, final, ◌andthen◌, each, Keeps, final-All, andthen-Keeps, All-mapped, All-always, final-map,
  Each,
}
use clove1db.Swap.Names.{Target, check_targets}
use clove1db.Swap.Slot.{
  Slot, exists, aside, place, wipe_path, wipe_old, remove_any, drop_old, drop_file, drop_new,
  drop_creating, put_back, restore_file, restore, remove_old,
}
use clove1db.Swap.Slot.Forward.{IsSwapping, IsDone}
use clove1db.Swap.Slot.Back.{
  IsKept, IsRestored, drop_file-always, drop_new-always, drop_creating-always,
}
use clove1db.Swap.Disk.{intent, Disk, targets, on_slots}

-- A target as the marker records it, and a content: the new one, or the old one.
pub record Aim (C : Type 0) : Type 0 where
  pub target : Target
  pub content : C

-- The slot has the aim's target, and `P` of the aim's content.
pub record For {C : Type 0} (P : C → Slot C → Type 0) (a : Aim C) (s : Slot C) : Type 0 where
  pub same : s.target ≡ a.target
  pub holds : P a.content s

pub All-if :
    {S : Type 0} (P : S → Type 0) (b : Bool) (x : S) → P x → All P (if b then x ∷ [] else [])
All-if P true x p = (p, tt)
All-if P false x p = tt

module _ {C : Type 0} where
  abbrev Same : Target → Slot C → Type 0
  Same t s = s.target ≡ t

  pub swap_one-Same : (t : Target) → Keeps (Same t) (aside andthen place)
  unfolding aside place
  swap_one-Same t =
      andthen-Keeps (Same t) aside place
        (λ s e. All-if (Same t) _ (record s { old = s.file; file = none }) e)
        (λ s e. All-if (Same t) _ (record s { file = s.new; new = none }) e)

  drop_old-Same : (removing : C → List C) (t : Target) → Keeps (Same t) (drop_old removing)
  unfolding drop_old
  drop_old-Same removing t s e =
      All-mapped (λ _. Unit {0}) (Same t) (λ o. record s { old = o }) (remove_any removing s.old)
        (λ o _. e) (All-always (λ _. Unit {0}) (remove_any removing s.old) (λ _. tt))

  wipe_old-Same : (wiped : C → List C) (t : Target) → Keeps (Same t) (wipe_old wiped)
  unfolding wipe_old
  wipe_old-Same wiped t s e =
      All-mapped (λ _. Unit {0}) (Same t) (λ o. record s { old = o }) (wipe_path wiped s.old)
        (λ o _. e) (All-always (λ _. Unit {0}) (wipe_path wiped s.old) (λ _. tt))

  pub remove_old-Same :
      (wiped removing : C → List C) (wipe : Bool) (t : Target)
      → Keeps (Same t) (remove_old wiped removing wipe)
  unfolding remove_old
  remove_old-Same wiped removing false t s e = drop_old-Same removing t s e
  remove_old-Same wiped removing true t s e =
      andthen-Keeps (Same t) (wipe_old wiped) (drop_old removing) (wipe_old-Same wiped t)
        (drop_old-Same removing t) s e

  restore_file-Same : (removing : C → List C) (t : Target) → Keeps (Same t) (restore_file removing)
  unfolding restore_file put_back
  restore_file-Same removing t s e =
      let replaced =
        andthen-Keeps (Same t) (drop_file removing) put_back
          (λ u h. drop_file-always removing (Same t) u (λ f. h))
          (λ u h. All-if (Same t) (exists u.old) (record u { file = u.old; old = none }) h) s e in
      go s.target.existed (exists s.old) replaced
    where
      go :
          (b c : Bool)
          → All (Same t) ((drop_file removing andthen put_back) s)
          → All (Same t) (
              if not b
              then drop_file removing s
              else if c
              then (drop_file removing andthen put_back) s
              else [])
      go false c h = drop_file-always removing (Same t) s (λ f. e)
      go true true h = h
      go true false h = tt

  pub restore-Same : (removing : C → List C) (t : Target) → Keeps (Same t) (restore removing)
  unfolding restore
  restore-Same removing t =
      andthen-Keeps (Same t) (restore_file removing andthen drop_new removing)
        (drop_creating removing)
        (andthen-Keeps (Same t) (restore_file removing) (drop_new removing)
          (restore_file-Same removing t) (λ s e. drop_new-always removing (Same t) s (λ f. e)))
        (λ s e. drop_creating-always removing (Same t) s (λ f. e))

  -- An operation that keeps the target and `P` keeps both.
  pub For-Keeps :
      (P : C → Slot C → Type 0) (f : Op (Slot C)) (a : Aim C)
      → Keeps (Same a.target) f
      → Keeps (P a.content) f
      → Keeps (For P a) f
  For-Keeps P f a k l s h =
      All-both (Same a.target) (P a.content) (For P a) (f s)
        (λ u e p. record { same = e; holds = p }) (k s h.same) (l s h.holds)

  pub final-For :
      (P Q : C → Slot C → Type 0) (f : Op (Slot C)) (a : Aim C)
      → Keeps (Same a.target) f
      → ((s : Slot C) → P a.content s → Q a.content (final s (f s)))
      → (s : Slot C) → For P a s
      → For Q a (final s (f s))
  final-For P Q f a k l s h = record {
    same = final-All (Same a.target) s (f s) h.same (k s h.same);
    holds = l s h.holds;
  }

  -- The targets on disk are the ones of the aims.
  pub targets-For :
      (P : C → Slot C → Type 0) (aims : List (Aim C)) (l : List (Slot C))
      → Each (For P) aims l
      → targets l ≡ map (λ a. a.target) aims
  unfolding Each
  targets-For P [] [] e = refl
  targets-For P [] (s ∷ l) e = absurd e
  targets-For P (a ∷ aims) [] e = absurd e
  targets-For P (a ∷ aims) (s ∷ l) e = rw (e.0.same, targets-For P aims l e.1)

  abbrev pub AreValid : List (Aim C) → Type 0
  AreValid aims = check_targets (map (λ a. a.target) aims) ≡ ok tt

  -- The decision is on disk and the swap is under way, or the marker is gone with the old files.
  pub data IsForward (aims : List (Aim C)) (d : Disk C) : Type 0 where
    decided :
        (wipe : Bool)
        → d.intent_file ≡ some (intent 1 wipe)
        → d.commit_file ≡ true
        → Each (For IsSwapping) aims d.slots
        → IsForward aims d
    finished : d.intent_file ≡ none → Each (For IsDone) aims d.slots → IsForward aims d

  -- The marker is there without the decision, or everything is as it was.
  pub data IsBack (aims : List (Aim C)) (d : Disk C) : Type 0 where
    undecided :
        (wipe : Bool)
        → d.intent_file ≡ some (intent 1 wipe)
        → d.commit_file ≡ false
        → Each (For IsKept) aims d.slots
        → IsBack aims d
    undone :
        d.intent_file ≡ none
        → d.commit_file ≡ false
        → Each (For IsRestored) aims d.slots
        → IsBack aims d

  pub record NoMarkers (d : Disk C) : Type 0 where
    pub no_begin : d.begin_file ≡ none
    pub no_intent : d.intent_file ≡ none
    pub no_commit : d.commit_file ≡ false

  -- What a list of steps on the slots does to a disk.
  pub All-on_slots :
      (P : Disk C → Type 0) (Q : List (Slot C) → Type 0) (f : Op (Slot C)) (d : Disk C)
      → ((l : List (Slot C)) → Q l → P (record d { slots = l }))
      → All Q (each f d.slots)
      → All P (on_slots f d)
  unfolding on_slots
  All-on_slots P Q f d h a = All-mapped Q P (λ l. record d { slots = l }) (each f d.slots) h a

  pub final-on_slots :
      (f : Op (Slot C)) (d : Disk C)
      → final d (on_slots f d) ≡ record d { slots = final d.slots (each f d.slots) }
  unfolding on_slots
  final-on_slots f d = final-map (λ l. record d { slots = l }) d.slots (each f d.slots)
