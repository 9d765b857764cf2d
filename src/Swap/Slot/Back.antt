-- ===== src/Swap/Slot/Back.antt =====
-- A target under the swap and under `restore`: its old content is never lost, and comes back.
use clove1db.Prelude.{
  ◌≡◌, refl, sym, ◌∙◌, ap, Bool, true, false, List, [], ◌∷◌, Option, none, some, All, All-append,
  ◌⊎◌, inl, inr, ◌++◌, if◌then◌else◌,
}
use mathlib.Core.Path.{subst}
use clove1db.Swap.Trace.{
  final, ◌andthen◌, Keeps, andthen-Keeps, final-andthen, final-append, final-map, All-mapped,
  All-always,
}
use clove1db.Swap.Slot.{
  Slot, exists, aside, place, remove_any, drop_file, drop_new, drop_creating, put_back,
  restore_file, restore,
}
use clove1db.Swap.Slot.Forward.{wanted, final-remove_any}

module _ {C : Type 0} where
  -- The old content is aside, or still under its name; what was not there is not aside.
  unfoldable pub Kept : Bool → C → Option C → Option C → Type 0
  Kept true c file old = (old ≡ some c) ⊎ ((old ≡ none) × (file ≡ some c))
  Kept false c file old = old ≡ none

  pub record IsKept (c : C) (s : Slot C) : Type 0 where
    pub kept : Kept s.target.existed c s.file s.old

  -- A file that was not there is there only as the new file under its name.
  unfoldable pub Fresh : Bool → Bool → Option C → Option C → Type 0
  Fresh true replace file new = Unit {0}
  Fresh false replace file new = (file ≡ none) ⊎ ((replace ≡ true) × (new ≡ none))

  pub record IsUndoable (c : C) (s : Slot C) : Type 0 where
    pub is_kept : IsKept c s
    pub fresh : Fresh s.target.existed s.target.replace s.file s.new

  pub record IsRestored (c : C) (s : Slot C) : Type 0 where
    pub file_is : s.file ≡ wanted s.target.existed c
    pub new_is : s.new ≡ none
    pub old_is : s.old ≡ none
    pub creating_is : s.creating ≡ none

  abbrev with_files : Slot C → Bool → Bool → Option C → Option C → Option C → Slot C
  with_files s e r f m o = record {
    target = record (s.target) { existed = e; replace = r };
    file = f;
    new = m;
    old = o;
    creating = s.creating;
  }

  aside-IsUndoable : (c : C) → Keeps (IsUndoable c) aside
  unfolding aside Kept Fresh
  aside-IsUndoable c s w =
      go s.target.existed s.target.replace s.file s.new s.old w.is_kept.kept w.fresh
    where
      go :
          (e r : Bool) (f m o : Option C)
          → Kept e c f o
          → Fresh e r f m
          → All (IsUndoable c) (aside (with_files s e r f m o))
      go e true f none o k w = tt
      go e true none (some x) o k w = tt
      go e false none m o k w = tt
      go e true (some y) (some x) (some z) k w = tt
      go e false (some y) m (some z) k w = tt
      go true true (some y) (some x) none (inl k) w = cc
      go true true (some y) (some x) none (inr (k, h)) w =
          (record { is_kept = record { kept = inl h }; fresh = tt }, tt)
      go false true (some y) (some x) none k (inl w) = cc
      go false true (some y) (some x) none k (inr (_, w)) = cc
      go true false (some y) m none (inl k) w = cc
      go true false (some y) m none (inr (k, h)) w =
          (record { is_kept = record { kept = inl h }; fresh = tt }, tt)
      go false false (some y) m none k (inl w) = cc
      go false false (some y) m none k (inr (w, _)) = cc

  place-IsUndoable : (c : C) → Keeps (IsUndoable c) place
  unfolding place Kept Fresh
  place-IsUndoable c s w =
      go s.target.existed s.target.replace s.file s.new s.old w.is_kept.kept w.fresh
    where
      go :
          (e r : Bool) (f m o : Option C)
          → Kept e c f o
          → Fresh e r f m
          → All (IsUndoable c) (place (with_files s e r f m o))
      go e false f m o k w = tt
      go e true f none o k w = tt
      go e true (some y) (some x) o k w = tt
      go true true none (some x) o (inl k) w =
          (record { is_kept = record { kept = inl k }; fresh = tt }, tt)
      go true true none (some x) o (inr (_, h)) w = cc
      go false true none (some x) o k w =
          (record { is_kept = record { kept = k }; fresh = inr (refl, refl) }, tt)

  pub swap_one-IsUndoable : (c : C) → Keeps (IsUndoable c) (aside andthen place)
  swap_one-IsUndoable c =
      andthen-Keeps (IsUndoable c) aside place (aside-IsUndoable c) (place-IsUndoable c)

  put_back_lem :
      (s : Slot C) (c : C)
      → s.old ≡ some c
      → put_back s ≡ record s { file = some c; old = none } ∷ []
  unfolding put_back
  put_back_lem s c h = go s.old h
    where
      go :
          (o : Option C)
          → o ≡ some c
          → (if exists o then record s { file = o; old = none } ∷ [] else [])
            ≡ record s { file = some c; old = none } ∷ []
      go none h = cc
      go (some x) h = cc

  module _ (removing : C → List C) where
    -- Removing the file under one name changes only that name.
    pub drop_file-always {κ} :
        (P : Slot C → Type κ) (s : Slot C)
        → ((f : Option C) → P (record s { file = f }))
        → All P (drop_file removing s)
    unfolding drop_file
    drop_file-always P s h =
        All-mapped (λ _. Unit {0}) P (λ f. record s { file = f }) (remove_any removing s.file)
          (λ f _. h f) (All-always (λ _. Unit {0}) (remove_any removing s.file) (λ _. tt))

    pub drop_new-always {κ} :
        (P : Slot C → Type κ) (s : Slot C)
        → ((f : Option C) → P (record s { new = f }))
        → All P (drop_new removing s)
    unfolding drop_new
    drop_new-always P s h =
        All-mapped (λ _. Unit {0}) P (λ f. record s { new = f }) (remove_any removing s.new)
          (λ f _. h f) (All-always (λ _. Unit {0}) (remove_any removing s.new) (λ _. tt))

    pub drop_creating-always {κ} :
        (P : Slot C → Type κ) (s : Slot C)
        → ((f : Option C) → P (record s { creating = f }))
        → All P (drop_creating removing s)
    unfolding drop_creating
    drop_creating-always P s h =
        All-mapped (λ _. Unit {0}) P (λ f. record s { creating = f })
          (remove_any removing s.creating) (λ f _. h f)
          (All-always (λ _. Unit {0}) (remove_any removing s.creating) (λ _. tt))

    drop_file-final : (s : Slot C) → final s (drop_file removing s) ≡ record s { file = none }
    unfolding drop_file
    drop_file-final s =
        final-map (λ o. record s { file = o }) s.file (remove_any removing s.file)
        ∙ ap (λ o. record s { file = o }) (final-remove_any removing s.file)

    drop_new-final : (s : Slot C) → final s (drop_new removing s) ≡ record s { new = none }
    unfolding drop_new
    drop_new-final s =
        final-map (λ o. record s { new = o }) s.new (remove_any removing s.new)
        ∙ ap (λ o. record s { new = o }) (final-remove_any removing s.new)

    drop_creating-final :
        (s : Slot C) → final s (drop_creating removing s) ≡ record s { creating = none }
    unfolding drop_creating
    drop_creating-final s =
        final-map (λ o. record s { creating = o }) s.creating (remove_any removing s.creating)
        ∙ ap (λ o. record s { creating = o }) (final-remove_any removing s.creating)

    -- Removing the new file that took the name and renaming the old one back.
    replaced_lem :
        (s : Slot C) (c : C)
        → s.old ≡ some c
        → (drop_file removing andthen put_back) s
          ≡ drop_file removing s ++ record s { file = some c; old = none } ∷ []
    unfolding ◌andthen◌
    replaced_lem s c h =
        ap (λ l. drop_file removing s ++ l)
          (ap put_back (drop_file-final s) ∙ put_back_lem (record s { file = none }) c h)

    restore_file-IsKept : (c : C) → Keeps (IsKept c) (restore_file removing)
    unfolding restore_file Kept
    restore_file-IsKept c s w = go s.target.existed s.old w.kept
      where
        at : Bool → Option C → Slot C
        at e o = with_files s e s.target.replace s.file s.new o

        go :
            (e : Bool) (o : Option C)
            → Kept e c s.file o
            → All (IsKept c) (restore_file removing (at e o))
        go false o k = drop_file-always (IsKept c) (at false o) (λ f. record { kept = k })
        go true none (inl k) = cc
        go true none (inr k) = tt
        go true (some x) (inr (k, _)) = cc
        go true (some x) (inl k) =
            subst (All (IsKept c)) (sym (replaced_lem (at true (some x)) c k)) (
              All-append (IsKept c) (drop_file removing (at true (some x))) _
                (drop_file-always (IsKept c) (at true (some x)) (λ f. record { kept = inl k }))
                (record { kept = inr (refl, refl) }, tt))

    restore_file-final :
        (c : C) (s : Slot C)
        → IsKept c s
        → final s (restore_file removing s)
          ≡ record s { file = wanted s.target.existed c; old = none }
    unfolding restore_file Kept wanted final
    restore_file-final c s w = go s.target.existed s.old w.kept
      where
        at : Bool → Option C → Slot C
        at e o = with_files s e s.target.replace s.file s.new o

        go :
            (e : Bool) (o : Option C)
            → Kept e c s.file o
            → final (at e o) (restore_file removing (at e o))
              ≡ record (at e o) { file = wanted e c; old = none }
        go false o k =
            drop_file-final (at false o) ∙ ap (λ x. record (at false x) { file = none }) k
        go true none (inl k) = cc
        go true none (inr (_, k)) = ap (λ f. record (at true none) { file = f }) k
        go true (some x) (inr (k, _)) = cc
        go true (some x) (inl k) =
            ap (final (at true (some x))) (replaced_lem (at true (some x)) c k)
            ∙ final-append (at true (some x)) (drop_file removing (at true (some x))) _

    pub restore-IsKept : (c : C) → Keeps (IsKept c) (restore removing)
    unfolding restore
    restore-IsKept c =
        andthen-Keeps (IsKept c) (restore_file removing andthen drop_new removing)
          (drop_creating removing)
          (andthen-Keeps (IsKept c) (restore_file removing) (drop_new removing)
            (restore_file-IsKept c)
            (λ s w. drop_new-always (IsKept c) s (λ f. record { kept = w.kept })))
          (λ s w. drop_creating-always (IsKept c) s (λ f. record { kept = w.kept }))

    pub restore-IsRestored :
        (c : C) (s : Slot C) → IsKept c s → IsRestored c (final s (restore removing s))
    unfolding restore
    restore-IsRestored c s w =
        subst (IsRestored c)
          (sym (
            final-andthen (restore_file removing andthen drop_new removing) (drop_creating removing)
              s
            ∙ ap (λ t. final t (drop_creating removing t))
                (final-andthen (restore_file removing) (drop_new removing) s
                  ∙ ap (λ t. final t (drop_new removing t)) (restore_file-final c s w)
                  ∙ drop_new-final (record s { file = wanted s.target.existed c; old = none }))
            ∙ drop_creating-final
                (record s { file = wanted s.target.existed c; old = none; new = none })))
          (record { file_is = refl; new_is = refl; old_is = refl; creating_is = refl })
