-- ===== src/RowEval/Examples.antt =====
-- Rows that are numbers, read at any path as themselves, with themselves as their one item; only paths of one index are told equal.
use clove1db.Prelude.{
  ℕ, ◌≡◌, refl, sym, ◌∙◌, ap, Bool, true, false, List, [], ◌∷◌, Option, none, some, ◌==◌, ==_iff,
}
use clove1db.Prelude.Results.{ok, ◌>>=◌}
use clove1db.IdContract.{
  FieldPath, Step, at_key, at_index, any, every, len, ValueKind, auto, date_time, date,
  naive_date_time, epoch_seconds, epoch_millis, Transform,
}
use clove1db.RowEval.{RowReader, Expr, compare, both, matches, nothing_read, quantified}
use clove1db.RowEval.Cache.{matches_kept}
use clove1db.RowEval.Nested.{nested, quantified-nested}

abbrev index_of : List Step → ValueKind → List Transform → Option ℕ
index_of (at_index i ∷ []) auto [] = some i
index_of _ _ _ = none

abbrev index_path : ℕ → FieldPath
index_path i = record { steps = at_index i ∷ []; kind = auto; transforms = [] }

index_of-eq :
    (steps : List Step) (kind : ValueKind) (ts : List Transform) (i : ℕ)
    → index_of steps kind ts ≡ some i
    → record { steps = steps; kind = kind; transforms = ts } ≡ index_path i
index_of-eq [] kind ts i h = cc
index_of-eq (at_key k ∷ l) kind ts i h = cc
index_of-eq (any ∷ l) kind ts i h = cc
index_of-eq (every ∷ l) kind ts i h = cc
index_of-eq (len ∷ l) kind ts i h = cc
index_of-eq (at_index j ∷ s ∷ l) kind ts i h = cc
index_of-eq (at_index j ∷ []) date_time ts i h = cc
index_of-eq (at_index j ∷ []) date ts i h = cc
index_of-eq (at_index j ∷ []) naive_date_time ts i h = cc
index_of-eq (at_index j ∷ []) epoch_seconds ts i h = cc
index_of-eq (at_index j ∷ []) epoch_millis ts i h = cc
index_of-eq (at_index j ∷ []) auto (t ∷ ts) i h = cc
index_of-eq (at_index j ∷ []) auto [] i h = ap index_path (number-eq j i h)
  where
    number-eq : (a b : ℕ) → some a ≡ some b → a ≡ b
    number-eq a b e = cc

abbrev index : FieldPath → Option ℕ
index p = index_of p.steps p.kind p.transforms

abbrev same_index : Option ℕ → Option ℕ → Bool
same_index (some i) (some j) = i == j
same_index _ _ = false

abbrev numbers : RowReader
numbers = record {
  Doc = ℕ;
  Value = ℕ;
  Op = Unit {0};
  extract = λ doc steps. ok doc;
  path_value = λ doc path. ok doc;
  interpret_all = λ path vs. ok vs;
  scalar = λ v op vs. ok (is_first v vs);
  has = λ op v. true;
  items = λ v. some (v ∷ []);
  json_bytes = λ v. ok v;
  same = λ p q. same_index (index p) (index q);
}
  where
    is_first : ℕ → List ℕ → Bool
    is_first v [] = false
    is_first v (w ∷ ws) = v == w

numbers-law : (p q : FieldPath) → numbers.same p q ≡ true → p ≡ q
numbers-law p q h = go (index p) (index q) refl refl h
  where
    go : (a b : Option ℕ) → index p ≡ a → index q ≡ b → same_index a b ≡ true → p ≡ q
    go none b ea eb e = cc
    go (some i) none ea eb e = cc
    go (some i) (some j) ea eb e =
        index_of-eq p.steps p.kind p.transforms i ea
        ∙ ap index_path ((==_iff i j).0 e)
        ∙ sym (index_of-eq q.steps q.kind q.transforms j eb)

-- Row 7 against 7 and against 8, at one path.
abbrev seven_and_eight : Expr numbers
seven_and_eight = both (compare (index_path 0) tt (7 ∷ [])) (compare (index_path 0) tt (8 ∷ []))

matches_kept_example :
    (matches numbers 7 seven_and_eight (nothing_read numbers (index_path 0 ∷ [])) >>= λ xk. ok xk.0)
    ≡ (matches numbers 7 seven_and_eight [] >>= λ xk. ok xk.0)
matches_kept_example = matches_kept numbers numbers-law 7 seven_and_eight (index_path 0 ∷ [])

-- Any element, then all of its elements.
abbrev any_every : FieldPath
any_every = record { steps = any ∷ every ∷ []; kind = auto; transforms = [] }

quantified-nested_example :
    quantified numbers 2 7 any_every (λ v. ok (v == 7))
    ≡ nested numbers 7 any_every (λ v. ok (v == 7)) [] (any ∷ every ∷ [])
quantified-nested_example = quantified-nested numbers 7 any_every (λ v. ok (v == 7))
