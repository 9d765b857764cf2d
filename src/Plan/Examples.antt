-- ===== src/Plan/Examples.antt =====
-- Plans on concrete inputs.
use clove1db.Prelude.{◌≡◌, refl, true, false, none, some}
use clove1db.Prelude.Results.{ok}
use clove1db.Plan.{
  MigrationFrom, MigrationTo, MigrationPlan, clove, data_transfer, inline, plan_for, resolve_clove,
  resolve_plan, target_of,
}
use clove1db.Plan.Safety.{same_place, Goes, same_table, deletes_elsewhere, resolve_plan-Goes}

abbrev notes : MigrationFrom
notes = record { db = "app"; table = "notes" }

-- To another database, with the wish to delete the source.
abbrev archive : MigrationTo
archive = record { db = "archive"; table = none; delete_source = true }

abbrev plan : MigrationPlan
plan = record {
  kind = data_transfer;
  source = inline "app" "notes";
  target = inline "archive" "notes";
  effective_delete_source = true;
  external_source = none;
}

plans : resolve_plan (clove notes) (some archive) ≡ ok plan
unfolding resolve_plan resolve_clove plan_for target_of
plans = refl

deletes_elsewhere_example : (data_transfer ≡ data_transfer) × (same_place plan ≡ false)
deletes_elsewhere_example = deletes_elsewhere (clove notes) (some archive) plan plans refl

resolve_plan-Goes_example :
    (p : MigrationPlan) × (resolve_plan (clove notes) (some archive) ≡ ok p)
    × Goes notes "archive" "notes" true p
resolve_plan-Goes_example =
    resolve_plan-Goes notes (some archive) "archive" "notes" true (same_table "archive" true)
