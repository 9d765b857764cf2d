-- ===== src/Prelude/Results.antt =====
-- The error type of units.rs and the `Result` that fallible code returns. Of `ClError` three
-- variants are left out: `Database`, `Serialization` and `StreamExternal`, which carry errors of
-- redb, serde_json and the stream reader that no modelled function raises by itself.
use Prim.Native.Nat.{ℕ}
use Prim.Native.String.{String}
use mathlib.Core.Path.{◌≡◌, refl}
use mathlib.Core.Bool.{Bool, true, false}
use mathlib.Core.List.{List}
use mathlib.Core.Option.{Option, none, some}
use mathlib.Core.Logic.{◌⊎◌, inl, inr}

pub data ClError : Type 0 where
  id_field_mismatch : ClError
  non_unique : ℕ → ClError
  invalid_cursor : ClError
  unsupported_sum : ClError
  decimal_sum_limit : ClError
  sum_overflow : ClError
  unique_violation : ClError
  duplicate_groups : ℕ → ClError
  consumer_expired : ClError
  consumer_needs_rebuild : ClError
  io_error : String → ClError
  validation_error : String → ClError
  search_error : String → ClError
  permission_denied : String → ClError
  execution_error : String → ClError
  image_not_found : String → ClError
  invalid_coordinates : String → ClError
  key_not_found : String → ClError
  directory_not_found : String → ClError
  database_in_use : String → ClError
  backup_open_failed : String → String → ClError
  out_of_memory : String → ℕ → ClError
  corrupt_migration_index : String → String → ClError
  not_found : String → ClError
  validation : String → ClError
  cache : String → ClError
  utf8_error : String → ClError
  option_none : ClError
  migration_error : String → ClError
  not_restorable : ℕ → String → String → String → ClError
  migration_conflict : String → String → String → ClError
  decoder_not_found : String → String → String → ClError
  layout_mismatch : String → String → ℕ → ClError
  legacy_migration_format : String → ClError
  target_table_occupied : String → String → ℕ → ClError
  external_mapping_required : String → ClError
  incompatible_overwrite : String → String → ClError
  table_mismatch : List String → List String → ClError
  backup_normalize_failed : String → ClError
  not_clove_database : String → ClError
  upgrade_incomplete : String → ClError
  closed : String → ClError
  encrypted_open_failed : ClError
  data_tampered : ClError

-- `Result<T, ClError>`
pub data Result {κ} (T : Type κ) : Type κ where
  err : ClError → Result T
  ok : T → Result T

infixl 5 ◌>>=◌ ◌>>◌
-- What `?` does: the first error ends the function.
abbrev pub ◌>>=◌ {κ μ} : {T : Type κ} {U : Type μ} → Result T → (T → Result U) → Result U
err failure >>= next = err failure
ok value >>= next = next value

abbrev pub ◌>>◌ {μ} : {U : Type μ} → Result (Unit {0}) → Result U → Result U
check >> rest = check >>= λ (_ : Unit {0}). rest

-- An early `return Err(e)` unless the test holds.
abbrev pub guard : Bool → ClError → Result (Unit {0})
guard false failure = err failure
guard true failure = ok tt

-- `Option::ok_or`
abbrev pub ok_or {ℓ} : {A : Type ℓ} → Option A → ClError → Result A
ok_or none e = err e
ok_or (some a) e = ok a

-- A chain that ends well went well at its first step.
pub >>=-eq-ok {κ μ} :
    {T : Type κ} {U : Type μ} (first : Result T) (next : T → Result U) {u : U}
    → (first >>= next) ≡ ok u
    → (t : T) × (first ≡ ok t) × (next t ≡ ok u)
>>=-eq-ok (err failure) next e = cc
>>=-eq-ok (ok t) next e = (t, refl, e)

pub guard-ok : (b : Bool) (e : ClError) (x : Unit {0}) → guard b e ≡ ok x → b ≡ true
guard-ok true e x h = refl
guard-ok false e x h = cc

pub Result-cases {ℓ} :
    {A : Type ℓ} (r : Result A) → ((a : A) × (r ≡ ok a)) ⊎ ((e : ClError) × (r ≡ err e))
Result-cases (ok a) = inl (a, refl)
Result-cases (err e) = inr (e, refl)

pub ok-injective {ℓ} : {A : Type ℓ} {a b : A} → Result.ok a ≡ ok b → a ≡ b
ok-injective h = cc
