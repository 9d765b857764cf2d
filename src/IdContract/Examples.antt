-- ===== src/IdContract/Examples.antt =====
-- A table `t` whose rows are their own identity: the string at the path is the whole row.
use clove1db.Prelude.{ℕ, ◌≡◌, refl, false, List, [], ◌∷◌, Option, none, some, list_eq}
use clove1db.Prelude.Bytes.{Text}
use clove1db.Prelude.Results.{Result, ok}
use clove1db.Journal.Row.{ChangeKind, upsert, table_reset}
use clove1db.IdContract.{
  FieldPath, auto, at_key, Defs, Tables, lookup, store, is_scalar, is_configured, drop_obsolete,
  check, check_rows, configure_one, configure_all, configure, check_with, check_stored,
  check_effect, check_effects, validate,
}
use clove1db.IdContract.Laws.{HasId, resets, Holds, validate-HasId, configure-Holds}

abbrev id_path : FieldPath
id_path = record { steps = at_key (b'i' ∷ b'd' ∷ []) ∷ []; kind = auto; transforms = [] }

abbrev whole_row : List ℕ → FieldPath → Result (Option Text)
whole_row bytes path = ok (some bytes)

abbrev to_json : FieldPath → List ℕ
to_json path = 1 ∷ []

abbrev of_json : List ℕ → Result FieldPath
of_json bytes = ok id_path

abbrev table_t : Text
table_t = b't' ∷ []

abbrev row_a : Text
row_a = b'a' ∷ []

abbrev tables : Tables
tables t = (row_a, row_a) ∷ []

abbrev stored : Defs
stored = (table_t, 1 ∷ []) ∷ []

abbrev snapshot : Text
snapshot = b's' ∷ []

abbrev written : List ChangeKind
written = upsert table_t row_a row_a ∷ table_reset table_t snapshot ∷ []

accepted : validate whole_row to_json of_json tables stored written ≡ ok tt
unfolding validate check_effects check_effect check_stored check_with check check_rows lookup
    list_eq
accepted = refl

defined : lookup table_t stored ≡ some (1 ∷ [])
unfolding lookup list_eq
defined = refl

validate-HasId_example : HasId whole_row to_json of_json id_path (row_a, row_a)
validate-HasId_example =
    validate-HasId whole_row to_json of_json tables stored written 1 (table_reset table_t snapshot)
      table_t (row_a, row_a) (1 ∷ []) id_path accepted refl
      (resets table_t snapshot (row_a, row_a) 0 refl) defined refl

nothing_stored : Holds whole_row to_json of_json tables []
unfolding lookup
nothing_stored = record { rows_have = λ table bytes path l d. cc l }

configured : configure whole_row to_json of_json tables ((table_t, id_path) ∷ []) [] ≡ ok stored
unfolding configure configure_all configure_one is_scalar check_rows check lookup store
    drop_obsolete is_configured list_eq
configured = refl

configure-Holds_example :
    Holds whole_row to_json of_json tables stored
    × ((table : Text)
        → is_configured table ((table_t, id_path) ∷ []) ≡ false
        → lookup table stored ≡ none)
configure-Holds_example =
    configure-Holds whole_row to_json of_json tables ((table_t, id_path) ∷ []) [] stored (refl, tt)
      nothing_stored configured
