-- ===== src/Plan/Safety.antt =====
-- A plan never deletes what it writes.
use Prim.Native.String.{String}
use text.Mathlib.Text.{◌==◌ as str_eq}
use text.Mathlib.TextEquality.{eq_iff}
use clove1db.Prelude.{
  ◌≡◌, ◌≢◌, Bool-cases, refl, ◌⊎◌, inl, inr, Bool, true, false, ◌&&◌, Option, none, some,
}
use mathlib.Core.Path.{subst}
use clove1db.Prelude.Results.{Result, ok, migration_error, ok_or, >>=-eq-ok}
use clove1db.Plan.{
  in_place_evolve, data_transfer, MigrationFrom, MigrationTo, MigrationSource, clove, external,
  MigrationPlan, target_of, plan_for, resolve_clove, resolve_plan,
}

abbrev pub same_place : MigrationPlan → Bool
same_place p = str_eq p.source.db p.target.db && str_eq p.source.table p.target.table

-- What is deleted is elsewhere.
abbrev IsSafe : MigrationPlan → Type 0
IsSafe p = p.effective_delete_source ≡ true → (p.kind ≡ data_transfer) × (same_place p ≡ false)

resolve_clove-IsSafe :
    (f : MigrationFrom) (db table : String) (wish : Bool) → IsSafe (resolve_clove f db table wish)
unfolding resolve_clove plan_for
resolve_clove-IsSafe f db table wish = go (str_eq f.db db && str_eq f.table table) refl
  where
    go :
        (b : Bool)
        → (str_eq f.db db && str_eq f.table table) ≡ b
        → IsSafe (plan_for b f db table wish)
    go true e = λ d. cc d
    go false e = λ d. (refl, e)

ok_eq : (p q : MigrationPlan) → Result.ok p ≡ ok q → p ≡ q
ok_eq p q h = cc

-- A plan that deletes its source moves its data to another place: another database, or another
-- table.
pub deletes_elsewhere :
    (source : MigrationSource) (to_place : Option MigrationTo) (p : MigrationPlan)
    → resolve_plan source to_place ≡ ok p
    → p.effective_delete_source ≡ true
    → (p.kind ≡ data_transfer) × (same_place p ≡ false)
unfolding resolve_plan
deletes_elsewhere (external ext) none p h = cc
deletes_elsewhere (external ext) (some t) p h =
    let (table, _, h1) =
      >>=-eq-ok (ok_or t.table (migration_error "external migration requires to.table")) _ h in
    subst IsSafe (ok_eq _ p h1) (λ d. cc d)
deletes_elsewhere (clove f) to_place p h =
    let t = target_of f to_place in
    subst IsSafe (ok_eq _ p h) (resolve_clove-IsSafe f t.0.0 t.0.1 t.1)

-- The place that is asked for: without a place it is the source's, and without a table the place's
-- database has the table under the source's name.
pub data IsAsked (f : MigrationFrom) : Option MigrationTo → String → String → Bool → Type 0 where
  stay : IsAsked f none f.db f.table false
  same_table :
      (db : String) (wish : Bool)
      → IsAsked f (some (record { db = db; table = none; delete_source = wish })) db f.table wish
  other_table :
      (db table : String) (wish : Bool)
      → IsAsked f
          (some (record { db = db; table = some table; delete_source = wish }))
          db
          table
          wish

-- Where a plan goes, and what it does there.
pub record Goes (f : MigrationFrom) (db table : String) (wish : Bool) (p : MigrationPlan)
    : Type 0 where
  pub from_source : (p.source.db ≡ f.db) × (p.source.table ≡ f.table)
  pub to_target : (p.target.db ≡ db) × (p.target.table ≡ table)
  pub own : p.external_source ≡ none
  pub action :
      ((p.kind ≡ in_place_evolve)
        × (f.db ≡ db)
        × (f.table ≡ table)
        × (p.effective_delete_source ≡ false))
      ⊎ ((p.kind ≡ data_transfer)
          × ((f.db ≢ db) ⊎ (f.table ≢ table))
          × (p.effective_delete_source ≡ wish))

apart : (a b : String) → str_eq a b ≡ false → a ≢ b
apart a b h e = cc ((eq_iff a b).1 e, h)

resolve_clove-Goes :
    (f : MigrationFrom) (db table : String) (wish : Bool)
    → Goes f db table wish (resolve_clove f db table wish)
unfolding resolve_clove plan_for
resolve_clove-Goes f db table wish = elim (Bool-cases (str_eq f.db db)) [
  | inl one ↦ elim (Bool-cases (str_eq f.table table)) [
    | inl both ↦
        rw (one, both)
          (record {
            from_source = (refl, refl);
            to_target = (refl, refl);
            own = refl;
            action = inl (refl, (eq_iff f.db db).0 one, (eq_iff f.table table).0 both, refl);
          })
    | inr other ↦
        rw (one, other)
          (record {
            from_source = (refl, refl);
            to_target = (refl, refl);
            own = refl;
            action = inr (refl, inr (apart f.table table other), refl);
          })
  ]
  | inr other ↦ rw other (record {
    from_source = (refl, refl);
    to_target = (refl, refl);
    own = refl;
    action = inr (refl, inl (apart f.db db other), refl);
  })
]

-- A migration of the program's own tables has a plan from the source to the place that is asked for.
-- It is in place, and deletes nothing, where that place is the source; otherwise it moves the data,
-- and deletes the source if that is wished.
pub resolve_plan-Goes :
    (f : MigrationFrom) (to_place : Option MigrationTo) (db table : String) (wish : Bool)
    → IsAsked f to_place db table wish
    → (p : MigrationPlan) × (resolve_plan (clove f) to_place ≡ ok p) × Goes f db table wish p
unfolding resolve_plan target_of
resolve_plan-Goes f _ _ _ _ stay =
    (resolve_clove f f.db f.table false, refl, resolve_clove-Goes f f.db f.table false)
resolve_plan-Goes f _ _ _ _ (same_table db wish) =
    (resolve_clove f db f.table wish, refl, resolve_clove-Goes f db f.table wish)
resolve_plan-Goes f _ _ _ _ (other_table db table wish) =
    (resolve_clove f db table wish, refl, resolve_clove-Goes f db table wish)
