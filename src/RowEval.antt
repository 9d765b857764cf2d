-- ===== src/RowEval.antt =====
-- Evaluating a query expression on a row (src/query/eval.rs): `RowEvaluation` with the values it
-- keeps, `quantified` and `matches`. Reading a row's JSON and comparing values are an interface,
-- `RowReader`, that src/fields and the rest of eval.rs stand behind.
pub mod Cache
pub mod Fuel
pub mod Nested
mod Examples
use Prim.Native.String.{String}
use clove1db.Prelude.{
  ℕ, zero, suc, Bool, true, false, not, ◌&&◌, ◌||◌, List, [], ◌∷◌, ◌++◌, map, Option, none, some,
  list_eq, ◌==◌, if◌then◌else◌, length,
}
use clove1db.Prelude.Results.{Result, ok, err, validation, ◌>>=◌}
use clove1db.IdContract.{FieldPath, Step, any, every, at_index}

pub data Presence : Type 0 where
  exists null missing empty : Presence

pub record RowReader : Type 1 where
  -- the bytes of a row, or of an element of an array
  pub Doc : Type 0
  pub Value : Type 0
  -- the comparison of an expression, with its operator
  pub Op : Type 0
  pub extract : Doc → List Step → Result Value
  pub path_value : Doc → FieldPath → Result Value
  pub interpret_all : FieldPath → List Value → Result (List Value)
  pub scalar : Value → Op → List Value → Result Bool
  pub has : Presence → Value → Bool
  -- the items of an array
  pub items : Value → Option (List Value)
  pub json_bytes : Value → Result Doc
  -- equality of paths
  pub same : FieldPath → FieldPath → Bool

module _ (r : RowReader) where
  open r use {
    Doc, Value, Op, extract, path_value, interpret_all, scalar, has, items, json_bytes, same,
  }

  pub data Expr : Type 0 where
    compare : FieldPath → Op → List Value → Expr
    presence : FieldPath → Presence → Expr
    both : Expr → Expr → Expr
    either : Expr → Expr → Expr
    negate : Expr → Expr
    elem_match : FieldPath → Expr → Expr
    never : Expr
    invalid : String → Expr

  -- The kept paths, with the values read so far.
  abbrev pub Kept : Type 0
  Kept = List (FieldPath × Option Value)

  -- `RowEvaluation::new`
  unfoldable pub nothing_read : List FieldPath → Kept
  nothing_read paths = map (λ p. (p, none)) paths

  -- The value at a path that is kept, read at most once.
  unfoldable pub keep : Doc → FieldPath → Option Value → Kept → Result (Value × Kept)
  keep doc p (some v) rest = ok (v, (p, some v) ∷ rest)
  keep doc p none rest = do v ← path_value doc p; ok (v, (p, some v) ∷ rest)

  unfoldable pub value : Doc → FieldPath → Kept → Result (Value × Kept)
  value doc path [] = do v ← path_value doc path; ok (v, [])
  value doc path ((p, o) ∷ rest) =
      let later = value doc path rest >>= λ vk. ok (vk.0, (p, o) ∷ vk.1) in
      if same p path then keep doc p o rest else later

  unfoldable pub is_quantifier : Step → Bool
  is_quantifier any = true
  is_quantifier every = true
  is_quantifier _ = false

  unfoldable pub has_quantifier : List Step → Bool
  has_quantifier [] = false
  has_quantifier (s ∷ steps) = is_quantifier s || has_quantifier steps

  -- The first element for which the answer is that one, or its opposite for none.
  unfoldable pub first_of : {A : Type 0} → Bool → (A → Result Bool) → List A → Result Bool
  first_of stop test [] = ok (not stop)
  first_of stop test (x ∷ xs) = do
    answer ← test x
    let rest = first_of stop test xs
    if (if answer then stop else not stop) then ok stop else rest

  -- `matches` on each item of an array.
  unfoldable pub any_item : (Doc → Result Bool) → List Value → Result Bool
  any_item test [] = ok false
  any_item test (v ∷ vs) = do
    doc ← json_bytes v
    answer ← test doc
    let rest = any_item test vs
    if answer then ok true else rest

  unfoldable pub items_match : (Doc → Result Bool) → Option (List Value) → Result Bool
  items_match test none = ok false
  items_match test (some vs) = any_item test vs

  unfoldable pub longer :
      Step → Option ((List Step × Bool) × List Step) → Option ((List Step × Bool) × List Step)
  longer s none = none
  longer s (some ((front, all), back)) = some ((s ∷ front, all), back)

  -- The steps before the first quantifier, whether it is `All`, and the steps after it.
  unfoldable pub split : List Step → Option ((List Step × Bool) × List Step)
  split [] = none
  split (any ∷ steps) = some (([], false), steps)
  split (every ∷ steps) = some (([], true), steps)
  split (s ∷ steps) = longer s (split steps)

  unfoldable pub count_to : ℕ → ℕ → List ℕ
  count_to from zero = []
  count_to from (suc n) = from ∷ count_to (suc from) n

  -- A quantifier needs an array; any other value is no match.
  unfoldable pub over_items : Bool → (ℕ → Result Bool) → Option (List Value) → Result Bool
  over_items all test none = ok false
  over_items all test (some vs) = first_of (not all) test (count_to 0 (length vs))

  -- One quantifier: its array is read, and the path goes on with the index of each item.
  unfoldable pub at_quantifier :
      Doc
      → FieldPath
      → (FieldPath → Result Bool)
      → Result Bool
      → Option ((List Step × Bool) × List Step)
      → Result Bool
  at_quantifier doc path inner at_leaf none = at_leaf
  at_quantifier doc path inner at_leaf (some ((front, all), back)) = do
    v ← extract doc front
    over_items all (λ n. inner (record path { steps = front ++ at_index n ∷ back })) (items v)

  -- On fuel: each quantifier becomes an index, so `test_path` gives the number of steps.
  unfoldable pub quantified : ℕ → Doc → FieldPath → (Value → Result Bool) → Result Bool
  quantified zero doc path leaf = path_value doc path >>= leaf
  quantified (suc fuel) doc path leaf =
      at_quantifier doc path (λ p. quantified fuel doc p leaf) (path_value doc path >>= leaf)
        (split path.steps)

  -- A test of one path: through its quantifiers, or on the value that is kept.
  unfoldable pub test_path : Doc → FieldPath → (Value → Result Bool) → Kept → Result (Bool × Kept)
  test_path doc path leaf kept =
      let through = quantified (length path.steps) doc path leaf >>= λ b. ok (b, kept) in
      let direct = value doc path kept >>= λ vk. leaf vk.0 >>= λ b. ok (b, vk.1) in
      if has_quantifier path.steps then through else direct

  -- `RowEvaluation::matches`
  unfoldable pub matches : Doc → Expr → Kept → Result (Bool × Kept)
  matches doc (compare path op values) kept =
      interpret_all path values >>= λ vs. test_path doc path (λ v. scalar v op vs) kept
  matches doc (presence path op) kept = test_path doc path (λ v. ok (has op v)) kept
  matches doc (both a b) kept = matches doc a kept >>= λ xk.
      let more = matches doc b xk.1 in if xk.0 then more else ok (false, xk.1)
  matches doc (either a b) kept = matches doc a kept >>= λ xk.
      let more = matches doc b xk.1 in if xk.0 then ok (true, xk.1) else more
  matches doc (negate a) kept = matches doc a kept >>= λ xk. ok (not xk.0, xk.1)
  matches doc (elem_match path inner) kept = value doc path kept >>= λ vk.
      items_match (λ d. matches d inner [] >>= λ xk. ok xk.0) (items vk.0) >>= λ b. ok (b, vk.1)
  matches doc never kept = ok (false, kept)
  matches doc (invalid s) kept = err (validation "invalid query expression")
