-- ===== src/Unique.antt =====
-- Unique constraints (src/unique.rs): the tables of definitions, of keys and of the keys of each row,
-- `configure` and `validate`. A definition is stored as JSON and read back as itself, and so are the
-- keys of a row; the key of a row in `__unique_rows`, the JSON of its table and name, is the pair.
-- `path_value` reads a path in a row, and `prefix` is the JSON of a table and a number.
pub mod Keys
pub mod Changed
pub mod Steps
pub mod Validate
pub mod Configure
pub mod Configured
pub mod Cleared
pub mod Exact
mod Examples
use clove1db.Prelude.{
  ℕ, suc, ◌+◌, Bool, true, false, not, ◌&&◌, ◌||◌, List, [], ◌∷◌, ◌++◌, map, Option, none, some,
  list_eq, ltb, ◌==◌, if◌then◌else◌,
}
use Prim.Native.Nat.{Ordering}
use native.Mathlib.Decide.{ℕ_discrete}
use clove1db.Prelude.Bytes.{Text}
use clove1db.Prelude.Dict.{has, get, put, remove as erase, text_eq, pair_eq}
use clove1db.Prelude.Results.{
  Result, ok, err, validation, unique_violation, duplicate_groups, option_none, ◌>>=◌, ◌>>◌, guard,
}
use clove1db.Values.{Value, is_empty, Items, item}
use clove1db.Codec.{encode_tuple}
use clove1db.Codec.Compare.{compare_bytes, then_cmp}
use clove1db.IdContract.{FieldPath, Step, any, every, Tables, is_configured}
use clove1db.LastWrite.{or_zero}
use clove1db.Journal.Row.{ChangeKind, upsert, delete, table_reset, blob_put, blob_delete}

pub record Unique : Type 0 where
  pub paths : List FieldPath

pub record State : Type 0 where
  -- `__unique_definitions`
  pub defs : List (Text × List Unique)
  -- `__unique_keys`: whose key it is
  pub keys : List (List ℕ × Text)
  -- `__unique_rows`: the keys of a row of a table
  pub reverse : List ((Text × Text) × List (List ℕ))

abbrev pub is_quantifier : Step → Bool
is_quantifier any = true
is_quantifier every = true
is_quantifier _ = false

unfoldable pub names_items : List Step → Bool
names_items [] = false
names_items (s ∷ steps) = is_quantifier s || names_items steps

unfoldable pub row_at : Text → List (Text × List ℕ) → Option (List ℕ)
row_at row [] = none
row_at row ((k, v) ∷ rows) = if list_eq k row then some v else row_at row rows

-- A set in order, with a further member.
abbrev pub compare_row : Text × Text → Text × Text → Ordering
compare_row a b = then_cmp (compare_bytes a.0 b.0) (compare_bytes a.1 b.1)

-- Before, at or behind a member, where `rest` has it behind.
abbrev pub place : {A : Type 0} → Ordering → A → A → List A → List A → List A
place Ordering.lt x y l rest = x ∷ y ∷ l
place Ordering.eq x y l rest = y ∷ l
place Ordering.gt x y l rest = y ∷ rest

unfoldable pub add_member : {A : Type 0} → (A → A → Ordering) → A → List A → List A
add_member cmp x [] = x ∷ []
add_member cmp x (y ∷ l) = let rest = add_member cmp x l in place (cmp x y) x y l rest

unfoldable pub forget : List (List ℕ) → List (List ℕ × Text) → List (List ℕ × Text)
forget [] m = m
forget (k ∷ ks) m = forget ks (erase k m)

abbrev pub drop_row : Text × Text → Option (List (List ℕ)) → State → State
drop_row at none s = s
drop_row at (some old) s = record s { reverse = erase at s.reverse; keys = forget old s.keys }

-- `remove`
unfoldable pub remove : Text × Text → State → State
unfolding forget
remove at s = drop_row at (get at s.reverse) s

-- The entries of one table, of the ones that were there at the start.
unfoldable pub clear_rows : Text → List ((Text × Text) × List (List ℕ)) → State → State
unfolding remove
clear_rows table [] s = s
clear_rows table ((at, ks) ∷ entries) s =
    clear_rows table entries (if list_eq at.0 table then remove at s else s)

unfoldable pub clear : Text → State → State
unfolding clear_rows
clear table s = clear_rows table s.reverse s

abbrev pub is_free : Text → Option Text → Bool
is_free row none = true
is_free row (some other) = list_eq other row

-- The keys of a row are entered, unless one is another row's.
unfoldable pub claim : Text → List (List ℕ) → List (List ℕ × Text) → Result (List (List ℕ × Text))
claim row [] m = ok m
claim row (k ∷ ks) m = do guard (is_free row (get k m)) unique_violation; claim row ks (put k row m)

abbrev pub put_keys :
    Text × Text
    → List (List ℕ)
    → List ((Text × Text) × List (List ℕ))
    → List ((Text × Text) × List (List ℕ))
put_keys at [] m = m
put_keys at (k ∷ ks) m = put at (k ∷ ks) m

-- How often each key occurs.
unfoldable pub count_keys : List (List ℕ) → List (List ℕ × ℕ) → List (List ℕ × ℕ)
count_keys [] m = m
count_keys (k ∷ ks) m = count_keys ks (put k (suc (or_zero (get k m))) m)

unfoldable pub groups : List (List ℕ × ℕ) → ℕ
groups [] = 0
groups ((k, n) ∷ m) = let rest = groups m in if ltb 1 n then suc rest else rest

abbrev pub cons_item : Value → Option Items → Option Items
cons_item v none = none
cons_item v (some vs) = some (item v vs)

abbrev pub is_some {ℓ} : {A : Type ℓ} → Option A → Bool
is_some none = false
is_some (some a) = true

abbrev pub is_nil : {A : Type 0} → List A → Bool
is_nil [] = true
is_nil (x ∷ l) = false

pub Step-discrete : Discrete Step
Step-discrete = hlevel (ℕ_discrete)

pub FieldPath-discrete : Discrete FieldPath
FieldPath-discrete = hlevel (ℕ_discrete, Step-discrete)

pub Unique-discrete : Discrete Unique
Unique-discrete = hlevel (FieldPath-discrete)

pub Defs-discrete : Discrete (List Unique)
Defs-discrete = hlevel (Unique-discrete)

abbrev pub is_yes {ℓ} : {A : Type ℓ} → Dec A → Bool
is_yes (yes a) = true
is_yes (no na) = false

-- `d == defs`
unfoldable pub same_defs : List Unique → List Unique → Bool
unfolding Defs-discrete Unique-discrete FieldPath-discrete Step-discrete
same_defs a b = is_yes (Defs-discrete a b)

-- The rows that effects name, and the tables that they replace; of the tables that have definitions.
abbrev pub has_defs : Text → List (Text × List Unique) → Bool
has_defs table defs = is_some (get table defs)

unfoldable pub changed_rows :
    List (Text × List Unique) → List ChangeKind → List (Text × Text) → List (Text × Text)
changed_rows defs [] l = l
changed_rows defs (upsert table key value ∷ effects) l =
    changed_rows defs effects
      (if has_defs table defs then add_member compare_row (table, key) l else l)
changed_rows defs (delete table key ∷ effects) l =
    changed_rows defs effects
      (if has_defs table defs then add_member compare_row (table, key) l else l)
changed_rows defs (effect ∷ effects) l = changed_rows defs effects l

unfoldable pub resets : List (Text × List Unique) → List ChangeKind → List Text → List Text
resets defs [] l = l
resets defs (table_reset table snapshot ∷ effects) l =
    resets defs effects (if has_defs table defs then add_member compare_bytes table l else l)
resets defs (effect ∷ effects) l = resets defs effects l

-- Every row of a table that was replaced.
unfoldable pub add_rows : Text → List (Text × List ℕ) → List (Text × Text) → List (Text × Text)
add_rows table [] l = l
add_rows table ((k, v) ∷ rows) l = add_rows table rows (add_member compare_row (table, k) l)

unfoldable pub clear_resets :
    Tables → List Text → State × List (Text × Text) → State × List (Text × Text)
unfolding clear add_rows
clear_resets tables [] acc = acc
clear_resets tables (table ∷ rest) acc =
    clear_resets tables rest (clear table acc.0, add_rows table (tables table) acc.1)

unfoldable pub remove_all : List (Text × Text) → State → State
unfolding remove
remove_all [] s = s
remove_all (at ∷ rest) s = remove_all rest (remove at s)

module _ (raw_value : Text → Result Text) (path_value : List ℕ → FieldPath → Result Value)
    (prefix : Text → ℕ → List ℕ) where
  -- The values at the paths of a definition, or none where one of them is empty.
  unfoldable pub values : List ℕ → List FieldPath → Result (Option Items)
  values bytes [] = ok (some Items.none)
  values bytes (p ∷ paths) = do
    guard (not (names_items p.steps)) (validation "unique requires scalar paths")
    v ← path_value bytes p
    let rest = values bytes paths >>= λ vs. ok (cons_item v vs)
    if is_empty v then ok none else rest

  -- The key of one definition; a row with no values for it has none.
  unfoldable pub key_of : Text → ℕ → Option Items → Result (List (List ℕ))
  key_of table i (some (item v vs)) = do
    tuple ← encode_tuple raw_value (item v vs)
    ok ((prefix table i ++ tuple) ∷ [])
  key_of table i _ = ok []

  unfoldable pub keys_from : ℕ → Text → List ℕ → List Unique → Result (List (List ℕ))
  unfolding values key_of
  keys_from i table bytes [] = ok []
  keys_from i table bytes (d ∷ defs) = do
    vs ← values bytes d.paths
    first ← key_of table i vs
    rest ← keys_from (suc i) table bytes defs
    ok (first ++ rest)

  -- `keys`
  unfoldable pub row_keys : Text → List ℕ → List Unique → Result (List (List ℕ))
  unfolding keys_from
  row_keys = keys_from 0

  unfoldable pub insert : Text × Text → List ℕ → List Unique → State → Result State
  unfolding row_keys claim
  insert at bytes defs s = do
    ks ← row_keys at.0 bytes defs
    claimed ← claim at.1 ks s.keys
    ok (record s { keys = claimed; reverse = put_keys at ks s.reverse })

  unfoldable pub all_keys : Text → List Unique → List (Text × List ℕ) → Result (List (List ℕ))
  unfolding row_keys
  all_keys table defs [] = ok []
  all_keys table defs ((k, v) ∷ rows) = do
    ks ← row_keys table v defs
    rest ← all_keys table defs rows
    ok (ks ++ rest)

  unfoldable pub insert_rows : Text → List Unique → List (Text × List ℕ) → State → Result State
  unfolding insert
  insert_rows table defs [] s = ok s
  insert_rows table defs ((k, v) ∷ rows) s = do
    t ← insert (table, k) v defs s
    insert_rows table defs rows t

  abbrev pub insert_value : Text × Text → List Unique → Option (List ℕ) → State → Result State
  insert_value at defs none s = ok s
  insert_value at defs (some v) s = insert at v defs s

  -- The row that a change names, as it is now.
  abbrev pub insert_row : Tables → Text × Text → Option (List Unique) → State → Result State
  insert_row tables at none s = err option_none
  insert_row tables at (some defs) s = insert_value at defs (row_at at.1 (tables at.0)) s

  unfoldable pub insert_changed : Tables → List (Text × Text) → State → Result State
  insert_changed tables [] s = ok s
  insert_changed tables (at ∷ rest) s = do
    t ← insert_row tables at (get at.0 s.defs) s
    insert_changed tables rest t

  unfoldable pub validate : Tables → List ChangeKind → State → Result State
  unfolding changed_rows resets clear_resets remove_all insert_changed
  validate tables effects s =
      let start =
        clear_resets tables (resets s.defs effects []) (s, changed_rows s.defs effects []) in
      let changed = insert_changed tables start.1 (remove_all start.1 start.0) in
      if is_nil s.defs then ok s else changed

  unfoldable pub check_paths : List FieldPath → Result (Unit {0})
  check_paths [] = ok tt
  check_paths (p ∷ paths) =
      guard (not (names_items p.steps)) (validation "unique requires scalar paths")
      >> check_paths paths

  unfoldable pub check_defs : List Unique → Result (Unit {0})
  unfolding check_paths
  check_defs [] = ok tt
  check_defs (d ∷ defs) = check_paths d.paths >> check_defs defs

  unfoldable pub is_unchanged : Text → List Unique → List (Text × List Unique) → Bool
  is_unchanged table defs [] = false
  is_unchanged table defs ((t, d) ∷ old) =
      (list_eq t table && same_defs d defs) || is_unchanged table defs old

  -- The tables whose definitions are gone.
  unfoldable pub drop_old : List (Text × List Unique) → List (Text × List Unique) → State → State
  unfolding clear
  drop_old configured [] s = s
  drop_old configured ((table, d) ∷ old) s =
      let cleared = clear table s in
      drop_old configured old (
        if has_defs table configured then s else record cleared { defs = erase table cleared.defs })

  -- The keys of a table are built anew, unless two of its rows share one.
  unfoldable pub rebuild : Tables → Text → List Unique → State → Result State
  unfolding all_keys insert_rows
  rebuild tables table defs s = do
    ks ← all_keys table defs (tables table)
    let shared = groups (count_keys ks [])
    guard (shared == 0) (duplicate_groups shared)
    t ← insert_rows table defs (tables table) (clear table s)
    ok (record t { defs = put table defs t.defs })

  unfoldable pub configure_all :
      Tables → List (Text × List Unique) → List (Text × List Unique) → State → Result State
  unfolding rebuild
  configure_all tables old [] s = ok s
  configure_all tables old ((table, defs) ∷ rest) s = do
    check_defs defs
    t ← if is_unchanged table defs old then ok s else rebuild tables table defs s
    configure_all tables old rest t

  unfoldable pub configure : Tables → List (Text × List Unique) → State → Result State
  unfolding drop_old configure_all
  configure tables configured s =
      configure_all tables s.defs configured (drop_old configured s.defs s)
