-- ===== src/Plan.antt =====
-- What a migration is to do: `resolve_plan` (src/migration/plan.rs) with the types it takes
-- (src/migration/types.rs), and the check of the target table (src/migration/guard.rs). Paths are
-- byte strings.
pub mod Safety
mod Examples
use Prim.Native.String.{String}
use text.Mathlib.Text.{◌==◌ as str_eq}
use clove1db.Prelude.{
  ℕ, Bool, true, false, ◌&&◌, Option, none, some, list_eq, ◌==◌, if◌then◌else◌, List, [], ◌∷◌,
}
use clove1db.Prelude.Bytes.{Text}
use clove1db.Prelude.Results.{Result, ok, err, migration_error, target_table_occupied, ◌>>=◌, ok_or}

pub data MigrationKind : Type 0 where
  in_place_evolve data_transfer external_import : MigrationKind

pub data TargetConflictPolicy : Type 0 where
  fail skip overwrite_if_compatible overwrite : TargetConflictPolicy

pub data KeyDecoder : Type 0 where
  utf8_string u64_as_string : KeyDecoder

pub data ValueDecoder : Type 0 where
  raw_passthrough json_validate json_string json_value utf8_text bytes_as_array base64_string :
      ValueDecoder

pub data TableStorageMode : Type 0 where
  inline_json blob_sidecar : TableStorageMode

pub record MigrationFrom : Type 0 where
  pub db : String
  pub table : String

pub record MigrationTo : Type 0 where
  pub db : String
  pub table : Option String
  pub delete_source : Bool

pub record ExternalFrom : Type 0 where
  pub path : Text
  pub table : String
  pub key_decoder : KeyDecoder
  pub value_decoder : ValueDecoder

pub data MigrationSource : Type 0 where
  clove : MigrationFrom → MigrationSource
  external : ExternalFrom → MigrationSource

pub record ResolvedEndpoint : Type 0 where
  pub db : String
  pub table : String
  pub storage : TableStorageMode

pub record MigrationPlan : Type 0 where
  pub kind : MigrationKind
  pub source : ResolvedEndpoint
  pub target : ResolvedEndpoint
  pub effective_delete_source : Bool
  pub external_source : Option ExternalFrom

abbrev pub inline : String → String → ResolvedEndpoint
inline db table = record { db = db; table = table; storage = inline_json }

-- `to.table`, or the source's table
abbrev pub table_or : Option String → String → String
table_or none table = table
table_or (some t) table = t

-- The database, the table and the wish to delete the source.
unfoldable pub target_of : MigrationFrom → Option MigrationTo → (String × String) × Bool
target_of f none = ((f.db, f.table), false)
target_of f (some t) = ((t.db, table_or t.table f.table), t.delete_source)

-- The plan, by whether it stays in place.
unfoldable pub plan_for : Bool → MigrationFrom → String → String → Bool → MigrationPlan
plan_for true f to_db to_table delete_source = record {
  kind = in_place_evolve;
  source = inline f.db f.table;
  target = inline to_db to_table;
  effective_delete_source = false;
  external_source = none;
}
plan_for false f to_db to_table delete_source = record {
  kind = data_transfer;
  source = inline f.db f.table;
  target = inline to_db to_table;
  effective_delete_source = delete_source;
  external_source = none;
}

unfoldable pub resolve_clove : MigrationFrom → String → String → Bool → MigrationPlan
resolve_clove f to_db to_table delete_source =
    plan_for (str_eq f.db to_db && str_eq f.table to_table) f to_db to_table delete_source

unfoldable pub resolve_plan : MigrationSource → Option MigrationTo → Result MigrationPlan
resolve_plan (external ext) to_place = do
  place ← ok_or to_place (migration_error "external migration requires .to(...)")
  target_table ← ok_or place.table (migration_error "external migration requires to.table")
  ok (record {
    kind = external_import;
    source = inline "external" ext.table;
    target = inline place.db target_table;
    effective_delete_source = false;
    external_source = some ext;
  })
resolve_plan (clove f) to_place =
    let t = target_of f to_place in ok (resolve_clove f t.0.0 t.0.1 t.1)

-- `count` is `count_keys` of the plan's target table.
unfoldable pub assert_target_available :
    MigrationPlan → ℕ → TargetConflictPolicy → Result (Unit {0})
assert_target_available plan count policy = go plan.kind policy
  where
    occupied : TargetConflictPolicy → Result (Unit {0})
    occupied fail = err (target_table_occupied plan.target.db plan.target.table count)
    occupied _ = ok tt

    go : MigrationKind → TargetConflictPolicy → Result (Unit {0})
    go in_place_evolve policy = ok tt
    go _ policy = if count == 0 then ok tt else occupied policy
