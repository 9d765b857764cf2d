-- ===== src/IdContract.antt =====
-- Declared row identities (src/id_contract.rs): the string at a table's path in every row is the
-- row's key. Paths are those of src/fields. Reading a path in the JSON of a row, and the encoding of
-- a path as JSON, are parameters: `string_at` gives the string there, or nothing where the value is
-- no string.
pub mod Stored
pub mod Laws
mod Examples
use Prim.Native.String.{String}
use clove1db.Prelude.{
  ℕ, Bool, true, false, not, ◌&&◌, ◌||◌, List, [], ◌∷◌, Option, none, some, list_eq, if◌then◌else◌,
}
use clove1db.Prelude.Bytes.{Text}
use clove1db.Prelude.Results.{Result, ok, err, id_field_mismatch, validation, ◌>>=◌, ◌>>◌, guard}
use clove1db.Journal.Row.{ChangeKind, upsert, table_reset, delete, blob_put, blob_delete}

pub data ValueKind : Type 0 where
  auto date_time date naive_date_time epoch_seconds epoch_millis : ValueKind

pub data Step : Type 0 where
  at_key : Text → Step
  at_index : ℕ → Step
  any every len : Step

pub data TransformKind : Type 0 where
  trim lowercase normalize_arabic : TransformKind

pub record Transform : Type 0 where
  pub kind : TransformKind
  pub version : ℕ

pub record FieldPath : Type 0 where
  pub steps : List Step
  pub kind : ValueKind
  pub transforms : List Transform

-- The definitions by table, each path as it is stored.
abbrev pub Defs : Type 0
Defs = List (Text × List ℕ)

-- The rows of every table.
abbrev pub Tables : Type 0
Tables = Text → List (Text × List ℕ)

unfoldable pub lookup : Text → Defs → Option (List ℕ)
lookup t [] = none
lookup t ((u, p) ∷ defs) = if list_eq u t then some p else lookup t defs

unfoldable pub store : Text → List ℕ → Defs → Defs
store t p [] = (t, p) ∷ []
store t p ((u, q) ∷ defs) =
    let rest = store t p defs in if list_eq u t then (t, p) ∷ defs else (u, q) ∷ rest

abbrev pub is_auto : ValueKind → Bool
is_auto auto = true
is_auto _ = false

abbrev pub is_step : Step → Bool
is_step (at_key k) = true
is_step (at_index i) = true
is_step _ = false

abbrev pub all_steps : List Step → Bool
all_steps [] = true
all_steps (s ∷ rest) = is_step s && all_steps rest

abbrev pub no_transforms : List Transform → Bool
no_transforms [] = true
no_transforms (t ∷ rest) = false

unfoldable pub is_scalar : FieldPath → Bool
is_scalar p = is_auto p.kind && (no_transforms p.transforms && all_steps p.steps)

-- `table` is configured.
unfoldable pub is_configured : Text → List (Text × FieldPath) → Bool
is_configured t [] = false
is_configured t ((u, p) ∷ rest) = list_eq u t || is_configured t rest

unfoldable pub drop_obsolete : List (Text × FieldPath) → Defs → Defs
drop_obsolete configured [] = []
drop_obsolete configured ((t, p) ∷ defs) =
    let rest = drop_obsolete configured defs in
    if is_configured t configured then (t, p) ∷ rest else rest

abbrev pub is_same : Option (List ℕ) → List ℕ → Bool
is_same none encoded = false
is_same (some p) encoded = list_eq p encoded

abbrev pub is_key : Option Text → Text → Bool
is_key none key = false
is_key (some id) key = list_eq id key

module _ (string_at : List ℕ → FieldPath → Result (Option Text)) (encode_path : FieldPath → List ℕ)
    (decode_path : List ℕ → Result FieldPath) where
  unfoldable pub check : FieldPath → Text → List ℕ → Result (Unit {0})
  check path key bytes = do v ← string_at bytes path; guard (is_key v key) id_field_mismatch

  unfoldable pub check_rows : FieldPath → List (Text × List ℕ) → Result (Unit {0})
  check_rows path [] = ok tt
  check_rows path ((k, v) ∷ rows) = check path k v >> check_rows path rows

  -- One entry of the configuration; rows are read where it differs from what is stored.
  unfoldable pub configure_one : Tables → Text → FieldPath → Defs → Result Defs
  configure_one tables table path defs = do
    guard (is_scalar path) (validation "id_field requires an untransformed scalar path")
    let encoded = encode_path path
    let checked = check_rows path (tables table) >> ok (store table encoded defs)
    if is_same (lookup table defs) encoded then ok defs else checked

  unfoldable pub configure_all : Tables → List (Text × FieldPath) → Defs → Result Defs
  configure_all tables [] defs = ok defs
  configure_all tables ((table, path) ∷ rest) defs = do
    next ← configure_one tables table path defs
    configure_all tables rest next

  unfoldable pub configure : Tables → List (Text × FieldPath) → Defs → Result Defs
  configure tables configured defs = do
    all ← configure_all tables configured defs
    ok (drop_obsolete configured all)

  -- With the definition of the effect's table.
  unfoldable pub check_with : Tables → ChangeKind → FieldPath → Result (Unit {0})
  check_with tables (upsert table key value) path = check path key value
  check_with tables (table_reset table snapshot) path = check_rows path (tables snapshot)
  check_with tables _ path = ok tt

  unfoldable pub check_stored : Tables → ChangeKind → Option (List ℕ) → Result (Unit {0})
  check_stored tables effect none = ok tt
  check_stored tables effect (some p) = decode_path p >>= check_with tables effect

  unfoldable pub check_effect : Tables → Defs → ChangeKind → Result (Unit {0})
  check_effect tables defs (upsert table key value) =
      check_stored tables (upsert table key value) (lookup table defs)
  check_effect tables defs (table_reset table snapshot) =
      check_stored tables (table_reset table snapshot) (lookup table defs)
  check_effect tables defs _ = ok tt

  unfoldable pub check_effects : Tables → Defs → List ChangeKind → Result (Unit {0})
  check_effects tables defs [] = ok tt
  check_effects tables defs (effect ∷ effects) =
      check_effect tables defs effect >> check_effects tables defs effects

  unfoldable pub validate : Tables → Defs → List ChangeKind → Result (Unit {0})
  validate tables [] effects = ok tt
  validate tables (d ∷ defs) effects = check_effects tables (d ∷ defs) effects
