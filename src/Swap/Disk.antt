-- ===== src/Swap/Disk.antt =====
-- A migration on disk: the targets, the marker files and the operations of `Migration`
-- (src/migration/encrypted/marker.rs). Every call of the file system succeeds in the model; a crash
-- stops an operation after any of its steps. The marker's list of targets is the list of the slots.
pub mod Invariant
pub mod Steps
pub mod Settle
pub mod Recover
pub mod Begin
pub mod Complete
use clove1db.Prelude.{
  ℕ, Bool, true, false, not, ◌&&◌, ◌||◌, List, [], ◌∷◌, ◌++◌, map, Option, none, some,
  if◌then◌else◌, ◌==◌,
}
use clove1db.Prelude.Results.{
  Result, ok, err, ClError, migration_error, database_in_use, io_error, ◌>>=◌, ◌>>◌, guard,
}
use clove1db.Swap.Trace.{Op, final, ◌andthen◌, each}
use clove1db.Swap.Names.{Target, check_targets}
use clove1db.Swap.Slot.{Slot, exists, aside, place, check_state, remove_old, restore}

-- What a marker file says: nothing that can be read, or `Intent`.
pub data Marker : Type 0 where
  unreadable : Marker
  intent : (version : ℕ) (wipe : Bool) → Marker

pub data Recovery : Type 0 where
  nothing : Recovery
  rolled_back : Recovery
  rolled_forward : Recovery

pub record Disk (C : Type 0) : Type 0 where
  pub slots : List (Slot C)
  -- the marker while it is being made, the marker, the decision
  pub begin_file : Option Marker
  pub intent_file : Option Marker
  pub commit_file : Bool

-- The locks that programs which are alive hold on the marker files.
pub record Locks : Type 0 where
  pub begin_held : Bool
  pub intent_held : Bool

abbrev pub has_marker : Option Marker → Bool
has_marker none = false
has_marker (some m) = true

-- `lock_or_busy`, where the file is there
unfoldable pub lock_or_busy : Option Marker → Bool → Result (Unit {0})
lock_or_busy file held = guard (not (has_marker file && held)) (database_in_use "the database")

module _ {C : Type 0} where
  abbrev pub targets : List (Slot C) → List Target
  targets l = map (λ s. s.target) l

  -- `t.existed = path(t, "").exists()`
  unfoldable pub mark_existed : Slot C → Slot C
  mark_existed s = record s { target = record (s.target) { existed = exists s.file } }

  unfoldable pub has_leftover : List (Slot C) → Bool
  has_leftover [] = false
  has_leftover (s ∷ rest) = (exists s.new || exists s.old) || has_leftover rest

  -- The marker is written under its temporary name, and whole when it gets its real one.
  unfoldable pub begin_with : Bool → Disk C → Result (List (Disk C))
  begin_with wipe d = do
    check_targets (targets d.slots)
    guard
        (not (
          has_marker d.intent_file
          || (has_marker d.begin_file || (d.commit_file || has_leftover d.slots))))
        (migration_error
          "a migration of this database is under way or was cut short: open the database to finish it")
    let marked = record d { slots = map mark_existed d.slots }
    ok (
        record marked { begin_file = some unreadable }
        ∷ record marked { begin_file = some (intent 1 wipe) }
        ∷ record marked { begin_file = some (intent 1 wipe); intent_file = some (intent 1 wipe) }
        ∷ record marked { intent_file = some (intent 1 wipe) }
        ∷ [])

  unfoldable pub all_new_there : List (Slot C) → Bool
  all_new_there [] = true
  all_new_there (s ∷ rest) = (not s.target.replace || exists s.new) && all_new_there rest

  -- The decision is one file, made in one step.
  unfoldable pub commit : Disk C → Result (List (Disk C))
  commit d = do
    guard (all_new_there d.slots) (migration_error "a new file is missing: nothing was committed")
    guard (not d.commit_file) (io_error "File exists")
    ok (record d { commit_file = true } ∷ [])

  -- A step on every target, in order.
  unfoldable pub on_slots : Op (Slot C) → Op (Disk C)
  on_slots f d = map (λ l. record d { slots = l }) (each f d.slots)

  unfoldable pub all_checked : List (Slot C) → Bool
  all_checked [] = true
  all_checked (s ∷ rest) = check_state s && all_checked rest

  unfoldable pub swap : Disk C → Result (List (Disk C))
  swap d = do
    guard (all_checked d.slots)
        (migration_error "the files of the migration are in a state this version does not know")
    ok (on_slots (aside andthen place) d)

  unfoldable pub remove_intent : Op (Disk C)
  remove_intent d = if has_marker d.intent_file then record d { intent_file = none } ∷ [] else []

  unfoldable pub remove_commit : Op (Disk C)
  remove_commit d = if d.commit_file then record d { commit_file = false } ∷ [] else []

  unfoldable pub remove_begin : Op (Disk C)
  remove_begin d = if has_marker d.begin_file then record d { begin_file = none } ∷ [] else []

  unfoldable pub check_free : Locks → Disk C → Result (Unit {0})
  check_free locks d = do
    lock_or_busy d.begin_file locks.begin_held
    lock_or_busy d.intent_file locks.intent_held

  -- What goes on after a check that may stop it.
  unfoldable pub once :
      Result (Unit {0}) → List (Disk C) × Result Recovery → List (Disk C) × Result Recovery
  once (err e) rest = ([], err e)
  once (ok _) rest = rest

  unfoldable pub roll_back : (C → List C) → Op (Disk C)
  roll_back removing = remove_commit andthen on_slots (restore removing) andthen remove_intent

  module _ (wiped removing : C → List C) where
    unfoldable pub finish : Bool → Op (Disk C)
    finish wipe =
        on_slots (remove_old wiped removing wipe) andthen remove_intent andthen remove_commit

    -- What follows a swap; the states on the way and how it came out.
    unfoldable pub end_forward :
        Bool → Disk C → Result (List (Disk C)) → List (Disk C) × Result Recovery
    end_forward wipe d (err e) = ([], err e)
    end_forward wipe d (ok steps) = (steps ++ finish wipe (final d steps), ok rolled_forward)

    -- What a marker that was found says, once its lock is taken.
    unfoldable pub settle : Option Marker → Disk C → List (Disk C) × Result Recovery
    settle none d = if d.commit_file then (remove_commit d, ok rolled_forward) else ([], ok nothing)
    settle (some unreadable) d =
        ([], err (migration_error "the marker of an unfinished migration cannot be read"))
    settle (some (intent version wipe)) d =
        let checked = do
          guard (version == 1)
              (migration_error "the marker of an unfinished migration is of a newer version")
          check_targets (targets d.slots)
        in once checked (
          if d.commit_file
          then end_forward wipe d (swap d)
          else (roll_back removing d, ok rolled_back))

    -- The part of `recover` after the marker that was still being made.
    unfoldable pub recover_marker : Locks → Disk C → List (Disk C) × Result Recovery
    recover_marker locks d =
        once (lock_or_busy d.intent_file locks.intent_held) (settle d.intent_file d)

    unfoldable pub recover : Locks → Disk C → List (Disk C) × Result Recovery
    recover locks d =
        let cleaned = remove_begin d in
        let rest = recover_marker locks (final d cleaned) in
        once (lock_or_busy d.begin_file locks.begin_held) (cleaned ++ rest.0, rest.1)
