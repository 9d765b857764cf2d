-- ===== src/Swap/Slot/Forward.antt =====
-- A target under the swap and the removal of its old file: the states on the way and the last one.
use clove1db.Prelude.{
  ◌≡◌, refl, sym, ◌∙◌, ap, Bool, true, false, List, [], ◌∷◌, Option, none, some, All, map, ◌⊎◌, inl,
  inr, if◌then◌else◌, not, ◌&&◌,
}
use mathlib.Core.Path.{subst}
use clove1db.Swap.Trace.{
  final, ◌andthen◌, Keeps, final-All, andthen-Keeps, final-andthen, final-append, final-map,
  All-mapped, All-always,
}
use clove1db.Swap.Slot.{
  Slot, exists, aside, place, check_state, remove_any, wipe_path, wipe_old, drop_old, remove_old,
}

module _ {C : Type 0} where
  -- What is to stand under a target's name: the new content, or nothing.
  unfoldable pub wanted : Bool → C → Option C
  wanted replace n = if replace then some n else none

  -- The new file waits and the old one is at one name only, or the new one has its name.
  unfoldable pub Stage : Bool → C → Option C → Option C → Option C → Type 0
  Stage true n file new old =
      ((new ≡ some n) × ((file ≡ none) ⊎ (old ≡ none))) ⊎ ((new ≡ none) × (file ≡ some n))
  Stage false n file new old = (new ≡ none) × ((file ≡ none) ⊎ (old ≡ none))

  pub record IsSwapping (n : C) (s : Slot C) : Type 0 where
    pub stage : Stage s.target.replace n s.file s.new s.old

  pub record IsSwapped (n : C) (s : Slot C) : Type 0 where
    pub file_is : s.file ≡ wanted s.target.replace n
    pub new_is : s.new ≡ none

  pub record IsDone (n : C) (s : Slot C) : Type 0 where
    pub swapped : IsSwapped n s
    pub old_is : s.old ≡ none

  pub check_state-IsSwapping : (n : C) (s : Slot C) → IsSwapping n s → check_state s ≡ true
  unfolding check_state Stage
  check_state-IsSwapping n s w = go s.target.replace s.file s.new s.old n w.stage
    where
      go :
          (r : Bool) (f n o : Option C) (c : C)
          → Stage r c f n o
          → (not ((exists f && exists n) && exists o)
              && not (r && (not (exists f) && not (exists n))))
            ≡ true
      go true none none o c (inl (h, w)) = cc
      go true none none o c (inr (h, w)) = cc
      go true none (some x) o c w = refl
      go true (some x) none o c w = refl
      go true (some x) (some y) none c w = refl
      go true (some x) (some y) (some z) c (inl (h, inl w)) = cc
      go true (some x) (some y) (some z) c (inl (h, inr w)) = cc
      go true (some x) (some y) (some z) c (inr (h, w)) = cc
      go false none n o c w = refl
      go false (some x) none o c w = refl
      go false (some x) (some y) o c (h, w) = cc

  pub IsSwapped-IsSwapping : (n : C) (s : Slot C) → IsSwapped n s → IsSwapping n s
  unfolding Stage wanted
  IsSwapped-IsSwapping n s w = record { stage = go s.target.replace w.file_is }
    where
      go : (r : Bool) → s.file ≡ wanted r n → Stage r n s.file s.new s.old
      go true h = inr (w.new_is, h)
      go false h = (w.new_is, inl h)

  -- The slot `s` with these files.
  abbrev with_files : Slot C → Bool → Option C → Option C → Option C → Slot C
  with_files s r f m o = record {
    target = record (s.target) { replace = r };
    file = f;
    new = m;
    old = o;
    creating = s.creating;
  }

  aside-IsSwapping : (n : C) → Keeps (IsSwapping n) aside
  unfolding aside Stage
  aside-IsSwapping n s w = go s.target.replace s.file s.new s.old w.stage
    where
      go :
          (r : Bool) (f m o : Option C)
          → Stage r n f m o
          → All (IsSwapping n) (aside (with_files s r f m o))
      go true none none o w = tt
      go true none (some x) o w = tt
      go true (some y) none o w = tt
      go true (some y) (some x) none (inl (h, w)) = (record { stage = inl (h, inl refl) }, tt)
      go true (some y) (some x) none (inr (h, w)) = cc
      go true (some y) (some x) (some z) w = tt
      go false none m o w = tt
      go false (some y) m none (h, w) = (record { stage = (h, inl refl) }, tt)
      go false (some y) m (some z) w = tt

  -- After the move aside the new file's name is free, or the new file has it.
  aside-final :
      (n : C) (s : Slot C)
      → IsSwapping n s
      → (final s (aside s)).file ≡ none ⊎ IsSwapped n (final s (aside s))
  unfolding aside Stage final wanted
  aside-final n s w = go s.target.replace s.file s.new s.old w.stage
    where
      go :
          (r : Bool) (f m o : Option C)
          → Stage r n f m o
          → let t = with_files s r f m o in
            ((final t (aside t)).file ≡ none) ⊎ IsSwapped n (final t (aside t))
      go true none none o w = inl refl
      go true none (some x) o w = inl refl
      go true (some y) none o (inl (h, w)) = cc
      go true (some y) none o (inr (h, w)) = inr (record { file_is = w; new_is = h })
      go true (some y) (some x) none w = inl refl
      go true (some y) (some x) (some z) (inl (h, inl w)) = cc
      go true (some y) (some x) (some z) (inl (h, inr w)) = cc
      go true (some y) (some x) (some z) (inr (h, w)) = cc
      go false none m o w = inl refl
      go false (some y) m none w = inl refl
      go false (some y) m (some z) (h, inl w) = cc
      go false (some y) m (some z) (h, inr w) = cc

  place-IsSwapping : (n : C) → Keeps (IsSwapping n) place
  unfolding place Stage
  place-IsSwapping n s w = go s.target.replace s.file s.new s.old w.stage
    where
      go :
          (r : Bool) (f m o : Option C)
          → Stage r n f m o
          → All (IsSwapping n) (place (with_files s r f m o))
      go true f none o w = tt
      go true none (some x) o (inl (h, w)) = (record { stage = inr (refl, h) }, tt)
      go true none (some x) o (inr (h, w)) = cc
      go true (some y) (some x) o w = tt
      go false f m o w = tt

  place-final :
      (n : C) (s : Slot C)
      → IsSwapping n s
      → (s.file ≡ none) ⊎ IsSwapped n s
      → IsSwapped n (final s (place s))
  unfolding place Stage final wanted
  place-final n s w k =
      go s.target.replace s.file s.new s.old w.stage
        (elim k [ inl e ↦ inl e | inr u ↦ inr (u.file_is, u.new_is) ])
    where
      go :
          (r : Bool) (f m o : Option C)
          → Stage r n f m o
          → (f ≡ none) ⊎ ((f ≡ wanted r n) × (m ≡ none))
          → let t = with_files s r f m o in IsSwapped n (final t (place t))
      go true f none o (inl (h, w)) k = cc
      go true f none o (inr (h, w)) k = record { file_is = w; new_is = refl }
      go true none (some x) o (inl (h, w)) k = record { file_is = h; new_is = refl }
      go true none (some x) o (inr (h, w)) k = cc
      go true (some y) (some x) o w (inl h) = cc
      go true (some y) (some x) o w (inr (_, h)) = cc
      go false f m o (h, w) (inl k) = record { file_is = k; new_is = h }
      go false f m o (h, w) (inr (k, _)) = record { file_is = k; new_is = h }

  -- The swap of one target.
  pub swap_one-IsSwapping : (n : C) → Keeps (IsSwapping n) (aside andthen place)
  swap_one-IsSwapping n =
      andthen-Keeps (IsSwapping n) aside place (aside-IsSwapping n) (place-IsSwapping n)

  pub swap_one-IsSwapped :
      (n : C) (s : Slot C) → IsSwapping n s → IsSwapped n (final s ((aside andthen place) s))
  swap_one-IsSwapped n s w =
      let t = final s (aside s) in
      subst (IsSwapped n) (sym (final-andthen aside place s)) (
        place-final n t (final-All (IsSwapping n) s (aside s) w (aside-IsSwapping n s w))
          (aside-final n s w))

  module _ (removing : C → List C) where
    -- Every state of a name that is being removed, the last of them that it is gone.
    pub final-remove_any : (o : Option C) → final o (remove_any removing o) ≡ none
    unfolding remove_any final
    final-remove_any none = refl
    final-remove_any (some c) = final-append (some c) (map some (removing c)) (none ∷ [])

    drop_old-Keeps : (n : C) → Keeps (IsSwapped n) (drop_old removing)
    unfolding drop_old
    drop_old-Keeps n s w =
        All-mapped (λ _. Unit {0}) (IsSwapped n) (λ o. record s { old = o })
          (remove_any removing s.old) (λ o _. record { file_is = w.file_is; new_is = w.new_is })
          (All-always (λ _. Unit {0}) (remove_any removing s.old) (λ _. tt))

    drop_old-IsDone :
        (n : C) (s : Slot C) → IsSwapped n s → IsDone n (final s (drop_old removing s))
    unfolding drop_old
    drop_old-IsDone n s w =
        subst (IsDone n)
          (sym (
            final-map (λ o. record s { old = o }) s.old (remove_any removing s.old)
            ∙ ap (λ o. record s { old = o }) (final-remove_any s.old)))
          (record { swapped = record { file_is = w.file_is; new_is = w.new_is }; old_is = refl })

  module _ (wiped removing : C → List C) where
    wipe_old-Keeps : (n : C) → Keeps (IsSwapped n) (wipe_old wiped)
    unfolding wipe_old
    wipe_old-Keeps n s w =
        All-mapped (λ _. Unit {0}) (IsSwapped n) (λ o. record s { old = o }) (wipe_path wiped s.old)
          (λ o _. record { file_is = w.file_is; new_is = w.new_is })
          (All-always (λ _. Unit {0}) (wipe_path wiped s.old) (λ _. tt))

    pub remove_old-Keeps :
        (n : C) (wipe : Bool) → Keeps (IsSwapped n) (remove_old wiped removing wipe)
    unfolding remove_old
    remove_old-Keeps n false s w = drop_old-Keeps removing n s w
    remove_old-Keeps n true s w =
        andthen-Keeps (IsSwapped n) (wipe_old wiped) (drop_old removing) (wipe_old-Keeps n)
          (drop_old-Keeps removing n) s w

    pub remove_old-IsDone :
        (n : C) (wipe : Bool) (s : Slot C)
        → IsSwapped n s
        → IsDone n (final s (remove_old wiped removing wipe s))
    unfolding remove_old
    remove_old-IsDone n false s w = drop_old-IsDone removing n s w
    remove_old-IsDone n true s w =
        subst (IsDone n) (sym (final-andthen (wipe_old wiped) (drop_old removing) s)) (
          drop_old-IsDone removing n (final s (wipe_old wiped s))
            (final-All (IsSwapped n) s (wipe_old wiped s) w (wipe_old-Keeps n s w)))
