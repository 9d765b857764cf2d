-- ===== src/Swap/Names.antt =====
-- The names a migration may list: `Root`, `Target`, `check_targets` and `path`
-- (src/migration/encrypted/marker.rs).
pub mod Distinct
use clove1db.Prelude.{
  ℕ, ◌≡◌, refl, Bool, true, false, not, ◌&&◌, ◌||◌, List, [], ◌∷◌, ◌++◌, map, list_eq, ◌==◌,
  if◌then◌else◌,
}
use clove1db.Prelude.Bytes.{Text}
use clove1db.Prelude.Results.{Result, ok, err, ClError, migration_error, ◌>>◌, guard}

pub data Root : Type 0 where
  main : Root
  backup : Root

pub record Target : Type 0 where
  pub root : Root
  pub name : Text
  pub replace : Bool
  pub existed : Bool

abbrev pub new_suffix : Text
new_suffix = b'.' ∷ b'm' ∷ b'i' ∷ b'g' ∷ b'-' ∷ b'n' ∷ b'e' ∷ b'w' ∷ []

abbrev pub old_suffix : Text
old_suffix = b'.' ∷ b'm' ∷ b'i' ∷ b'g' ∷ b'-' ∷ b'o' ∷ b'l' ∷ b'd' ∷ []

abbrev pub creating_suffix : Text
creating_suffix = b'.' ∷ b'c' ∷ b'r' ∷ b'e' ∷ b'a' ∷ b't' ∷ b'i' ∷ b'n' ∷ b'g' ∷ []

-- `n.contains(['/', '\\'])`
unfoldable pub has_separator : Text → Bool
has_separator [] = false
has_separator (b ∷ rest) = (b == b'/') || ((b == b'\\') || has_separator rest)

-- `n.ends_with(suffix)`
unfoldable pub ends_with : Text → Text → Bool
ends_with [] suffix = list_eq [] suffix
ends_with (b ∷ rest) suffix = list_eq (b ∷ rest) suffix || ends_with rest suffix

unfoldable pub is_valid_name : Text → Bool
is_valid_name n = not (
    list_eq n []
    || (list_eq n (b'.' ∷ [])
        || (list_eq n (b'.' ∷ b'.' ∷ [])
            || (has_separator n || (ends_with n new_suffix || ends_with n old_suffix)))))

unfoldable pub root_eq : Root → Root → Bool
root_eq main main = true
root_eq backup backup = true
root_eq _ _ = false

unfoldable pub same_place : Target → Target → Bool
same_place t u = root_eq t.root u.root && list_eq t.name u.name

unfoldable pub is_listed : Target → List Target → Bool
is_listed t [] = false
is_listed t (u ∷ rest) = same_place t u || is_listed t rest

unfoldable pub all_valid : List Target → Bool
all_valid [] = true
all_valid (t ∷ rest) = is_valid_name t.name && all_valid rest

-- No target stands twice in the list.
unfoldable pub all_new : List Target → Bool
all_new [] = true
all_new (t ∷ rest) = not (is_listed t rest) && all_new rest

unfoldable pub check_targets : List Target → Result (Unit {0})
check_targets targets = do
  guard (all_valid targets) (migration_error "a file name of the migration is not valid")
  guard (all_new targets) (migration_error "a file is listed twice in the migration")

-- The two folders. The same one twice when the backup lives next to the database.
pub record Places : Type 0 where
  pub main_folder : Text
  pub backup_folder : Text

unfoldable pub base_of : Places → Root → Text
base_of places main = places.main_folder
base_of places backup = places.backup_folder

-- The path of a target's file under one of its suffixes: the folder, and the name in it.
unfoldable pub path_name : Places → Target → Text → Text × Text
path_name places t suffix = (base_of places t.root, t.name ++ suffix)
