-- ===== src/Unique/Examples.antt =====
-- One table whose rows are unique by their whole text. A key starts with the length and the name of
-- its table.
use mathlib.Core.List.{append_assoc}
use clove1db.Prelude.{
  ℕ, ◌≡◌, refl, sym, ◌∙◌, ap, false, List, [], ◌∷◌, ◌++◌, none, some, All, length, take,
  take-length_append, list_eq, if◌then◌else◌, inl, inr, Bool-cases, arith, ◌||◌,
}
use clove1db.Prelude.Bytes.{Text}
use clove1db.Prelude.Dict.{get, put, has, text_eq}
use clove1db.Prelude.Results.{Result, ok, err, unique_violation, duplicate_groups}
use clove1db.Prelude.Options.{none-ne}
use clove1db.Values.{Value, string, is_empty}
use clove1db.Journal.Row.{ChangeKind, upsert}
use clove1db.IdContract.{FieldPath, Tables, auto}
use clove1db.Unique.{
  Unique, State, row_at, has_defs, configure, validate, check_defs, names_items, is_unchanged,
  groups, count_keys, add_member,
}
use clove1db.Codec.{encode_tuple, text}
use clove1db.Unique.Changed.{names_row, names_table}
use clove1db.Unique.Steps.{IsDelimited}
use clove1db.Unique.Validate.{Stands, validate_unique}
use clove1db.Unique.Exact.{IsExact}
use clove1db.Unique.Exact.Validated.{validate-IsExact}
use clove1db.Unique.Exact.Configured.{configure-IsExact}
use clove1db.Unique.Configure.{IsTable}
use clove1db.Unique.Configured.{IsDistinct, configure-Stands}

abbrev raw : Text → Result Text
raw token = ok token

abbrev whole : List ℕ → FieldPath → Result Value
whole bytes path = ok (string bytes)

abbrev prefix : Text → ℕ → List ℕ
prefix table i = length table ∷ (table ++ i ∷ [])

head-eq : {a b : ℕ} {x y : List ℕ} → a ∷ x ≡ b ∷ y → (a ≡ b) × (x ≡ y)
head-eq h = (cc, cc)

delimited : IsDelimited raw whole prefix
delimited t u i j a b h =
    let (n, e) = head-eq h in
    sym (take-length_append t (i ∷ a))
    ∙ (ap (take (length t)) (sym (append_assoc t (i ∷ []) a) ∙ (e ∙ append_assoc u (j ∷ []) b))
        ∙ (ap (λ k. take k (u ++ j ∷ b)) n ∙ take-length_append u (j ∷ b)))

abbrev path : FieldPath
path = record { steps = []; kind = auto; transforms = [] }

abbrev people : Text
people = 1 ∷ []

abbrev configured : List (Text × List Unique)
configured = (people, record { paths = path ∷ [] } ∷ []) ∷ []

abbrev before : Tables
before t = if list_eq people t then (10 ∷ [], 65 ∷ []) ∷ [] else []

abbrev now : Tables
now t = if list_eq people t then (10 ∷ [], 65 ∷ []) ∷ (11 ∷ [], 66 ∷ []) ∷ [] else []

abbrev fresh : State
fresh = record { defs = []; keys = []; reverse = [] }

abbrev state_of : Result State → State
state_of (ok s) = s
state_of (err e) = fresh

abbrev adds : List ChangeKind
adds = upsert people (11 ∷ []) (66 ∷ []) ∷ []

abbrev start : State
unfolding configure
start = state_of (configure raw whole prefix before configured fresh)

abbrev after : State
unfolding configure validate
after = state_of (validate raw whole prefix now adds start)

-- Two rows with one text
abbrev twice : Tables
twice t = if list_eq people t then (10 ∷ [], 65 ∷ []) ∷ (11 ∷ [], 65 ∷ []) ∷ [] else []

taken :
    validate raw whole prefix twice (upsert people (11 ∷ []) (65 ∷ []) ∷ []) start
    ≡ err unique_violation
unfolding validate configure check_defs names_items is_unchanged list_eq is_empty encode_tuple
    groups count_keys put get add_member row_at text has
taken = refl

shared : configure raw whole prefix twice configured fresh ≡ err (duplicate_groups 1)
unfolding configure check_defs names_items is_unchanged list_eq is_empty encode_tuple groups
    count_keys put get add_member row_at text has
shared = refl

nothing-Stands : Stands raw whole prefix before [] fresh
unfolding get
nothing-Stands = (
  record { reverse_owned = λ at ks h. absurd (none-ne h) },
  record { rows_owned = λ at v defs ks d r p hk. absurd (none-ne d) },
)

rows_found : (u : Text) → IsTable (before u)
unfolding row_at list_eq
rows_found u = elim (Bool-cases (list_eq people u)) [ inl e ↦ rw e (refl, tt) | inr e ↦ rw e tt ]

nothing-IsExact : IsExact raw whole prefix before [] fresh
unfolding get
nothing-IsExact = record {
  live = λ at ks h. absurd (none-ne h);
  no_other = record { used = λ k row h. absurd (none-ne h) };
}

configure-IsExact_example :
    Stands raw whole prefix before [] start
    × IsExact raw whole prefix before start.defs start
    × All (λ e. get e.0 start.defs ≡ some e.1) configured
    × ((if has_defs (2 ∷ []) configured then none else get (2 ∷ []) start.defs) ≡ none)
unfolding configure IsDistinct check_defs names_items is_unchanged list_eq is_empty encode_tuple
    groups count_keys put get add_member row_at text has
configure-IsExact_example =
    configure-IsExact raw whole prefix delimited before configured fresh start (2 ∷ []) rows_found
      tt (refl, tt) nothing-Stands nothing-IsExact refl

start-Stands : Stands raw whole prefix before [] start
unfolding configure IsDistinct check_defs names_items is_unchanged list_eq is_empty encode_tuple
    groups count_keys put get add_member row_at text has
start-Stands =
    (configure-Stands raw whole prefix delimited before configured fresh start (2 ∷ []) rows_found
      tt (refl, tt) nothing-Stands refl).0

start-IsExact : IsExact raw whole prefix before start.defs start
unfolding configure IsDistinct check_defs names_items is_unchanged list_eq is_empty encode_tuple
    groups count_keys put get add_member row_at text has
start-IsExact =
    (configure-IsExact raw whole prefix delimited before configured fresh start (2 ∷ []) rows_found
      tt (refl, tt) nothing-Stands nothing-IsExact refl).1

same_rows :
    (at : Text × Text)
    → (names_row at adds || names_table at.0 adds) ≡ false
    → row_at at.1 (now at.0) ≡ row_at at.1 (before at.0)
unfolding names_row names_table row_at list_eq
same_rows at h = ground arith

-- The one row gets another text.
abbrev edited : Tables
edited t = if list_eq people t then (10 ∷ [], 67 ∷ []) ∷ [] else []

abbrev edits : List ChangeKind
edits = upsert people (10 ∷ []) (67 ∷ []) ∷ []

abbrev after_edit : State
unfolding configure validate
after_edit = state_of (validate raw whole prefix edited edits start)

edited_rows :
    (at : Text × Text)
    → (names_row at edits || names_table at.0 edits) ≡ false
    → row_at at.1 (edited at.0) ≡ row_at at.1 (before at.0)
unfolding names_row names_table row_at list_eq
edited_rows at h = ground arith

validate-IsExact_example :
    Stands raw whole prefix edited [] after_edit
    × IsExact raw whole prefix edited after_edit.defs after_edit
    × (after_edit.defs ≡ start.defs)
unfolding configure validate check_defs names_items is_unchanged list_eq is_empty encode_tuple
    groups count_keys put get add_member row_at text has clove1db.Prelude.Dict.remove
validate-IsExact_example =
    validate-IsExact raw whole prefix delimited before edited edits start edited_rows start-Stands
      start-IsExact refl

validate_unique_example : ◌≡◌ {A = Text} (11 ∷ []) (11 ∷ [])
unfolding configure validate check_defs names_items is_unchanged list_eq is_empty encode_tuple
    groups count_keys put get add_member row_at text has
validate_unique_example =
    validate_unique raw whole prefix delimited before now adds start after same_rows start-Stands
      refl people (11 ∷ []) (11 ∷ []) (66 ∷ []) (66 ∷ []) (record { paths = path ∷ [] } ∷ [])
      (1 ∷ 1 ∷ 0 ∷ 8 ∷ 7 ∷ 66 ∷ 0 ∷ 0 ∷ 0 ∷ []) _ _ refl refl refl refl refl refl refl
