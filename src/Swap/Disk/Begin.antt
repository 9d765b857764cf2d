-- ===== src/Swap/Disk/Begin.antt =====
-- `begin_with` on targets that no attempt has touched, and where a crash in it would leave them.
use clove1db.Prelude.{
  ◌≡◌, refl, sym, ◌∙◌, ap, Bool, not, true, false, List, [], ◌∷◌, Option, none, some, All, map, inr,
  ◌||◌,
}
use mathlib.Core.Path.{subst}
use clove1db.Prelude.Results.{ok, guard, >>=-eq-ok, guard-ok}
use clove1db.Swap.Trace.{final, Each, Each-map}
use clove1db.Swap.Names.{same_place, is_listed, all_valid, all_new, check_targets}
use clove1db.Swap.Slot.{Slot, exists}
use clove1db.Swap.Slot.Forward.{wanted}
use clove1db.Swap.Slot.Back.{Kept, IsKept, IsRestored}
use clove1db.Swap.Disk.{
  Marker, intent, unreadable, Disk, has_marker, targets, mark_existed, has_leftover, begin_with,
}
use clove1db.Swap.Disk.Invariant.{Aim, For, AreValid, targets-For, IsBack, undecided, undone}

module _ {C : Type 0} where
  -- A target that no attempt has touched yet, and what the marker will say of it.
  pub record IsUntouched (a : Aim C) (s : Slot C) : Type 0 where
    pub marked : record (s.target) { existed = exists s.file } ≡ a.target
    pub file_is : s.file ≡ wanted a.target.existed a.content
    pub creating_is : s.creating ≡ none

  pub in_place-IsKept :
      (c : C) (s : Slot C) → s.file ≡ wanted s.target.existed c → s.old ≡ none → IsKept c s
  unfolding Kept wanted
  in_place-IsKept c s f o = record { kept = go s.target.existed f }
    where
      go : (e : Bool) → s.file ≡ wanted e c → Kept e c s.file s.old
      go true h = inr (o, h)
      go false h = o

  leftover-cons :
      (s : Slot C) (l : List (Slot C))
      → has_leftover (s ∷ l) ≡ false
      → (s.new ≡ none) × (s.old ≡ none) × (has_leftover l ≡ false)
  unfolding has_leftover
  leftover-cons s l h = go s.new s.old h
    where
      go :
          (n o : Option C)
          → ((exists n || exists o) || has_leftover l) ≡ false
          → (n ≡ none) × (o ≡ none) × (has_leftover l ≡ false)
      go none none h = (refl, refl, h)
      go none (some x) h = cc
      go (some x) o h = cc

  -- Marking them leaves untouched targets as the rollback would leave them.
  marked-IsRestored :
      (aims : List (Aim C)) (l : List (Slot C))
      → has_leftover l ≡ false
      → Each IsUntouched aims l
      → Each (For IsRestored) aims (map mark_existed l)
  unfolding Each mark_existed
  marked-IsRestored [] [] h e = tt
  marked-IsRestored [] (s ∷ l) h e = absurd e
  marked-IsRestored (a ∷ aims) [] h e = absurd e
  marked-IsRestored (a ∷ aims) (s ∷ l) h e =
      let (hn, ho, hl) = leftover-cons s l h in
      (
        record {
          same = e.0.marked;
          holds = record {
            file_is = e.0.file_is ∙ ap (λ t. wanted t.existed a.content) (sym e.0.marked);
            new_is = hn;
            old_is = ho;
            creating_is = e.0.creating_is;
          };
        },
        marked-IsRestored aims l hl e.1,
      )

  is_listed-marked :
      (s t : Slot C) (l : List (Slot C))
      → t.target.root ≡ s.target.root
      → t.target.name ≡ s.target.name
      → is_listed t.target (targets (map mark_existed l)) ≡ is_listed s.target (targets l)
  unfolding is_listed same_place mark_existed
  is_listed-marked s t [] r n = refl
  is_listed-marked s t (u ∷ l) r n = rw (r, n, is_listed-marked s t l r n)

  all_new-marked :
      (l : List (Slot C)) → all_new (targets (map mark_existed l)) ≡ all_new (targets l)
  unfolding all_new mark_existed
  all_new-marked [] = refl
  all_new-marked (s ∷ l) = rw (is_listed-marked s (mark_existed s) l refl refl, all_new-marked l)

  all_valid-marked :
      (l : List (Slot C)) → all_valid (targets (map mark_existed l)) ≡ all_valid (targets l)
  unfolding all_valid mark_existed
  all_valid-marked [] = refl
  all_valid-marked (s ∷ l) = rw (all_valid-marked l)

  -- The check of the names does not read what the marker adds.
  check_targets-marked :
      (l : List (Slot C)) → check_targets (targets (map mark_existed l)) ≡ check_targets (targets l)
  unfolding check_targets
  check_targets-marked l = rw (all_valid-marked l, all_new-marked l)

  begun : Bool → Disk C → List (Disk C)
  begun wipe d =
      let marked = record d { slots = map mark_existed d.slots } in
      record marked { begin_file = some unreadable }
      ∷ record marked { begin_file = some (intent 1 wipe) }
      ∷ record marked { begin_file = some (intent 1 wipe); intent_file = some (intent 1 wipe) }
      ∷ record marked { intent_file = some (intent 1 wipe) }
      ∷ []

  is_free : Disk C → Bool
  is_free d = not (
      has_marker d.intent_file
      || (has_marker d.begin_file || (d.commit_file || has_leftover d.slots)))

  -- What a `begin_with` that succeeds found and did.
  begin_with-ok :
      (wipe : Bool) (d : Disk C) {steps : List (Disk C)}
      → begin_with wipe d ≡ ok steps
      → (check_targets (targets d.slots) ≡ ok tt) × (is_free d ≡ true) × (begun wipe d ≡ steps)
  unfolding begin_with is_free begun
  begin_with-ok wipe d h =
      let (x, hx, h1) = >>=-eq-ok (check_targets (targets d.slots)) _ h in
      let (y, hy, h2) = >>=-eq-ok (guard (is_free d) _) _ h1 in
      (hx, guard-ok (is_free d) _ y hy, cc h2)

  free-parts :
      (d : Disk C)
      → is_free d ≡ true
      → (d.intent_file ≡ none)
        × (d.begin_file ≡ none)
        × (d.commit_file ≡ false)
        × (has_leftover d.slots ≡ false)
  unfolding is_free
  free-parts d h = go d.intent_file d.begin_file d.commit_file (has_leftover d.slots) h
    where
      go :
          (i b : Option Marker) (c l : Bool)
          → not (has_marker i || (has_marker b || (c || l))) ≡ true
          → (i ≡ none) × (b ≡ none) × (c ≡ false) × (l ≡ false)
      go none none false false h = (refl, refl, refl, refl)
      go none none false true h = cc
      go none none true l h = cc
      go none (some x) c l h = cc
      go (some x) b c l h = cc

  -- The disk once a migration has begun.
  unfoldable pub started : Bool → Disk C → Disk C
  started wipe d = record {
    slots = map mark_existed d.slots;
    begin_file = none;
    intent_file = some (intent 1 wipe);
    commit_file = false;
  }

  -- A migration that begins on targets no attempt has touched: every state on the way is one that
  -- `recover` undoes, the targets are then ones that it accepts, and the last state has the marker,
  -- every target as it was, and no decision.
  pub begin_with-IsBack :
      (olds : List (Aim C)) (wipe : Bool) (d : Disk C) {steps : List (Disk C)}
      → Each IsUntouched olds d.slots
      → begin_with wipe d ≡ ok steps
      → AreValid olds
        × All (IsBack olds) steps
        × (final d steps ≡ started wipe d)
        × Each (For IsRestored) olds (map mark_existed d.slots)
  unfolding final begun started
  begin_with-IsBack olds wipe d e h =
      let (hc, hf, hs) = begin_with-ok wipe d h in
      let (hi, hb, hm, hl) = free-parts d hf in
      let r = marked-IsRestored olds d.slots hl e in
      let kept =
        Each-map (For IsRestored) (For IsKept) olds (map mark_existed d.slots)
          (λ a s k. record {
            same = k.same;
            holds = in_place-IsKept a.content s k.holds.file_is k.holds.old_is;
          })
          r in
      (
        ap check_targets (sym (targets-For IsRestored olds (map mark_existed d.slots) r))
            ∙ check_targets-marked d.slots
            ∙ hc,
        subst (All (IsBack olds)) hs (
          undone hi hm r,
          (undone hi hm r, (undecided wipe refl hm kept, (undecided wipe refl hm kept, tt))),
        ),
        ap (final d) (sym hs) ∙ rw (hb, hm),
        r,
      )
