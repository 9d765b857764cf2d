-- ===== src/Swap/Examples.antt =====
-- The migration on concrete inputs: a table file that is replaced and a search index that is only
-- removed. Contents are numbers.
use clove1db.Prelude.{
  ℕ, ◌≡◌, ◌≢◌, refl, Bool, true, false, List, [], ◌∷◌, none, some, All, map, ◌⊎◌, inl, inr, list_eq,
  arith,
}
use clove1db.Prelude.Results.{ok, err, database_in_use}
use clove1db.Swap.Trace.{final, ◌andthen◌, Each}
use clove1db.Swap.Names.{
  main, Target, check_targets, all_valid, all_new, is_listed, same_place, root_eq, is_valid_name,
  has_separator, ends_with, Places, path_name,
}
use clove1db.Swap.Names.Distinct.{new, old, suffix_text, check_targets_distinct}
use clove1db.Swap.Slot.{Slot, aside, place}
use clove1db.Swap.Slot.Forward.{wanted, Stage}
use clove1db.Swap.Slot.Back.{Kept, Fresh, IsUndoable, IsRestored}
use clove1db.Swap.Disk.{
  Marker, intent, Disk, Locks, Recovery, rolled_back, rolled_forward, lock_or_busy, check_free,
  begin_with, commit, has_leftover, mark_existed, all_new_there, on_slots, recover, roll_back,
}
use clove1db.Swap.Disk.Invariant.{Aim, For, AreValid, IsForward, decided, IsBack, undecided}
use clove1db.Swap.Disk.Settle.{IsMoved, IsUnmoved}
use clove1db.Swap.Disk.Recover.{recover-IsForward, recover-IsBack, recover_busy, IsLeftAlone}
use clove1db.Swap.Disk.Begin.{begin_with-IsBack, started, IsUntouched}
use clove1db.Swap.Disk.Complete.{migration_atomic, swap_undone, AreWriting, AreWritten, Completes}

abbrev table_target : Target
table_target = record { root = main; name = b'd' ∷ b'b' ∷ []; replace = true; existed = true }

abbrev index_target : Target
index_target = record { root = main; name = b'i' ∷ []; replace = false; existed = true }

-- The table file is aside and its new file waits; the index is still there.
abbrev table_slot : Slot ℕ
table_slot = record {
  target = table_target;
  file = none;
  new = some 20;
  old = some 10;
  creating = none;
}

abbrev index_slot : Slot ℕ
index_slot = record {
  target = index_target;
  file = some 11;
  new = none;
  old = none;
  creating = some 3;
}

abbrev crashed : Bool → Disk ℕ
crashed commit = record {
  slots = table_slot ∷ index_slot ∷ [];
  begin_file = none;
  intent_file = some (intent 1 false);
  commit_file = commit;
}

abbrev news : List (Aim ℕ)
news =
    record { target = table_target; content = 20 }
    ∷ record { target = index_target; content = 0 }
    ∷ []

abbrev olds : List (Aim ℕ)
olds =
    record { target = table_target; content = 10 }
    ∷ record { target = index_target; content = 11 }
    ∷ []

abbrev locks_free : Locks
locks_free = record { begin_held = false; intent_held = false }

abbrev half : ℕ → List ℕ
half c = 0 ∷ []

news-AreValid : AreValid news
unfolding check_targets all_valid all_new is_listed same_place root_eq is_valid_name has_separator
    ends_with list_eq
news-AreValid = refl

crashed-IsForward : IsForward news (crashed true)
unfolding Each Stage
crashed-IsForward = decided false refl refl (
  record { same = refl; holds = record { stage = inl (refl, inl refl) } },
  (record { same = refl; holds = record { stage = (refl, inr refl) } }, tt),
)

crashed-IsBack : IsBack olds (crashed false)
unfolding Each Kept
crashed-IsBack = undecided false refl refl (
  record { same = refl; holds = record { kept = inl refl } },
  (record { same = refl; holds = record { kept = inr (refl, refl) } }, tt),
)

free : (c : Bool) → check_free locks_free (crashed c) ≡ ok tt
unfolding check_free lock_or_busy
free c = refl

recover-IsForward_example :
    let r = recover half half locks_free (crashed true) in
    All (IsForward news) r.0
    × ((r.1 ≡ ok rolled_forward) ⊎ (r.1 ≡ ok Recovery.nothing))
    × IsMoved news (final (crashed true) r.0)
recover-IsForward_example =
    recover-IsForward half half news locks_free (crashed true) news-AreValid (free true)
      crashed-IsForward

recover-IsBack_example :
    let r = recover half half locks_free (crashed false) in
    All (IsBack olds) r.0
    × ((r.1 ≡ ok rolled_back) ⊎ (r.1 ≡ ok Recovery.nothing))
    × IsUnmoved olds (final (crashed false) r.0)
recover-IsBack_example =
    recover-IsBack half half olds locks_free (crashed false) news-AreValid (free false)
      crashed-IsBack

abbrev held : Locks
held = record { begin_held = false; intent_held = true }

crashed-held : check_free held (crashed true) ≡ err (database_in_use "the database")
unfolding check_free lock_or_busy
crashed-held = refl

recover_busy_example :
    let r = recover half half held (crashed true) in
    (r.1 ≡ err (database_in_use "the database")) × All (IsLeftAlone (crashed true)) r.0
recover_busy_example =
    recover_busy half half held (crashed true) (database_in_use "the database") crashed-held

abbrev two_folders : Places
two_folders = record { main_folder = b'd' ∷ []; backup_folder = b'd' ∷ b'k' ∷ [] }

-- The new file of the first, and the old file of the second
check_targets_distinct_example :
    path_name two_folders table_target (suffix_text new)
    ≢ path_name two_folders index_target (suffix_text old)
check_targets_distinct_example =
    check_targets_distinct two_folders (table_target ∷ index_target ∷ []) 0 1 table_target
      index_target new old news-AreValid refl refl (inr (λ e. cc e)) (inl (λ e. omega (arith, e)))

-- Before a migration: nothing is known yet of what existed.
abbrev table_before : Slot ℕ
table_before = record {
  target = record table_target { existed = false };
  file = some 10;
  new = none;
  old = none;
  creating = none;
}

abbrev index_before : Slot ℕ
index_before = record {
  target = record index_target { existed = false };
  file = some 11;
  new = none;
  old = none;
  creating = none;
}

abbrev before : Disk ℕ
before = record {
  slots = table_before ∷ index_before ∷ [];
  begin_file = none;
  intent_file = none;
  commit_file = false;
}

before-IsUntouched : Each IsUntouched olds before.slots
unfolding Each wanted
before-IsUntouched = (
  record { marked = refl; file_is = refl; creating_is = refl },
  (record { marked = refl; file_is = refl; creating_is = refl }, tt),
)

abbrev begun : List (Disk ℕ)
begun =
    let slots =
      record table_before { target = table_target }
      ∷ record index_before { target = index_target }
      ∷ [] in
    record {
      slots = slots;
      begin_file = some Marker.unreadable;
      intent_file = none;
      commit_file = false;
    }
    ∷ record {
      slots = slots;
      begin_file = some (intent 1 true);
      intent_file = none;
      commit_file = false;
    }
    ∷ record {
      slots = slots;
      begin_file = some (intent 1 true);
      intent_file = some (intent 1 true);
      commit_file = false;
    }
    ∷ record {
      slots = slots;
      begin_file = none;
      intent_file = some (intent 1 true);
      commit_file = false;
    }
    ∷ []

before-begun : begin_with true before ≡ ok begun
unfolding begin_with check_targets all_valid all_new is_listed same_place root_eq is_valid_name
    has_separator ends_with list_eq has_leftover mark_existed
before-begun = refl

begin_with-IsBack_example :
    AreValid olds
    × All (IsBack olds) begun
    × (final before begun ≡ started true before)
    × Each (For IsRestored) olds (map mark_existed before.slots)
begin_with-IsBack_example = begin_with-IsBack olds true before before-IsUntouched before-begun

-- The new table file is written; there is to be no new index.
abbrev written : Disk ℕ
written = record {
  slots =
      record table_before { target = table_target; new = some 20 }
      ∷ record index_before { target = index_target }
      ∷ [];
  begin_file = none;
  intent_file = some (intent 1 true);
  commit_file = false;
}

-- A part of the first new file, under its temporary name
abbrev half_written : Disk ℕ
half_written = record written {
  slots =
      record table_before { target = table_target; creating = some 1 }
      ∷ record index_before { target = index_target }
      ∷ [];
}

half_written-AreWriting : AreWriting (final before begun) half_written
unfolding Each final
half_written-AreWriting = record {
  begin_same = refl;
  intent_same = refl;
  commit_same = refl;
  slots_same = (
    record { target_same = refl; file_same = refl; old_same = refl },
    (record { target_same = refl; file_same = refl; old_same = refl }, tt),
  );
}

written-AreWritten : AreWritten news (final before begun) written
unfolding Each final wanted
written-AreWritten = record {
  writing = record {
    begin_same = refl;
    intent_same = refl;
    commit_same = refl;
    slots_same = (
      record { target_same = refl; file_same = refl; old_same = refl },
      (record { target_same = refl; file_same = refl; old_same = refl }, tt),
    );
  };
  have_new = (
    record { same = refl; holds = record { new_is = refl } },
    (record { same = refl; holds = record { new_is = refl } }, tt),
  );
}

abbrev committed : List (Disk ℕ)
committed = record written { commit_file = true } ∷ []

written-committed : commit written ≡ ok committed
unfolding commit all_new_there
written-committed = refl

migration_atomic_example :
    AreValid olds
    × All (IsBack olds) begun
    × All (IsBack olds) (half_written ∷ [])
    × IsBack olds written
    × All (IsForward news) committed
    × Completes half half news true (final written committed)
migration_atomic_example =
    migration_atomic half half olds news true before written (half_written ∷ []) before-IsUntouched
      before-begun (half_written-AreWriting, tt) written-AreWritten written-committed

crashed-IsUndoable : Each (For IsUndoable) olds (crashed true).slots
unfolding Each Kept Fresh
crashed-IsUndoable = (
  record { same = refl; holds = record { is_kept = record { kept = inl refl }; fresh = tt } },
  (
    record {
      same = refl;
      holds = record { is_kept = record { kept = inr (refl, refl) }; fresh = tt };
    },
    tt,
  ),
)

swap_undone_example :
    All
      (λ u.
        All (IsBack olds) (roll_back half u)
        × ((final u (roll_back half u)).intent_file ≡ none)
        × ((final u (roll_back half u)).commit_file ≡ false)
        × Each (For IsRestored) olds (final u (roll_back half u)).slots)
      (on_slots (aside andthen place) (crashed true))
swap_undone_example = swap_undone half olds (crashed true) false refl crashed-IsUndoable
