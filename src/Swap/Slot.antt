-- ===== src/Swap/Slot.antt =====
-- One target of a migration on disk: the file under its three names and the name an encrypted file
-- is made under, and the steps that move it (src/migration/encrypted/marker.rs). A slot holds its
-- target as the marker records it. Overwriting a file and removing a folder take several steps,
-- which the file system chooses: `wiped` and `removing` are the contents on the way.
pub mod Forward
pub mod Back
use clove1db.Prelude.{
  Bool, true, false, not, ◌&&◌, ◌||◌, List, [], ◌∷◌, ◌++◌, map, Option, none, some, if◌then◌else◌,
}
use clove1db.Swap.Trace.{Op, ◌andthen◌}
use clove1db.Swap.Names.{Target}

pub record Slot (C : Type 0) : Type 0 where
  pub target : Target
  pub file : Option C
  pub new : Option C
  pub old : Option C
  pub creating : Option C

abbrev pub exists : {C : Type 0} → Option C → Bool
exists none = false
exists (some c) = true

module _ {C : Type 0} where
  -- A file that is to be replaced is the old one only while its new file is waiting.
  unfoldable pub aside : Op (Slot C)
  aside s =
      if ((not s.target.replace || exists s.new) && exists s.file) && not (exists s.old)
      then record s { old = s.file; file = none } ∷ []
      else []

  unfoldable pub place : Op (Slot C)
  place s =
      if s.target.replace && (exists s.new && not (exists s.file))
      then record s { file = s.new; new = none } ∷ []
      else []

  -- The state is one that the sequence can produce.
  unfoldable pub check_state : Slot C → Bool
  check_state s =
      not ((exists s.file && exists s.new) && exists s.old)
      && not (s.target.replace && (not (exists s.file) && not (exists s.new)))

  -- `rename(&old, &file)`, where there is an old file
  unfoldable pub put_back : Op (Slot C)
  put_back s = if exists s.old then record s { file = s.old; old = none } ∷ [] else []

  module _ (wiped : C → List C) where
    -- `wipe_path`, where the file is there
    unfoldable pub wipe_path : Op (Option C)
    wipe_path none = []
    wipe_path (some c) = map some (wiped c)

    unfoldable pub wipe_old : Op (Slot C)
    wipe_old s = map (λ o. record s { old = o }) (wipe_path s.old)

  module _ (removing : C → List C) where
    -- `remove_any`: a name that is not there is no error.
    unfoldable pub remove_any : Op (Option C)
    remove_any none = []
    remove_any (some c) = map some (removing c) ++ none ∷ []

    unfoldable pub drop_old : Op (Slot C)
    drop_old s = map (λ o. record s { old = o }) (remove_any s.old)

    unfoldable pub drop_file : Op (Slot C)
    drop_file s = map (λ o. record s { file = o }) (remove_any s.file)

    unfoldable pub drop_new : Op (Slot C)
    drop_new s = map (λ o. record s { new = o }) (remove_any s.new)

    unfoldable pub drop_creating : Op (Slot C)
    drop_creating s = map (λ o. record s { creating = o }) (remove_any s.creating)

    -- What was not there goes; an old file gets its name back.
    unfoldable pub restore_file : Op (Slot C)
    restore_file s =
        let replaced = (drop_file andthen put_back) s in
        if not s.target.existed then drop_file s else if exists s.old then replaced else []

    unfoldable pub restore : Op (Slot C)
    restore = restore_file andthen drop_new andthen drop_creating

  unfoldable pub remove_old : (C → List C) → (C → List C) → Bool → Op (Slot C)
  remove_old wiped removing false s = drop_old removing s
  remove_old wiped removing true s = (wipe_old wiped andthen drop_old removing) s
