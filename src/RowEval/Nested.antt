-- ===== src/RowEval/Nested.antt =====
-- What a path with quantifiers means: each of them goes over the items of its array, from left to right
-- (`quantified` of src/query/eval.rs).
use clove1db.Prelude.{
  ℕ, zero, suc, ◌+◌, ◌≤◌, ◌≡◌, refl, sym, ◌∙◌, ap, Bool, true, false, List, [], ◌∷◌, ◌++◌, Option,
  none, some, length, arith, if◌then◌else◌,
}
use mathlib.Core.List.{append_assoc, append-nil}
use clove1db.Prelude.Results.{Result, ok, err, ◌>>=◌}
use clove1db.IdContract.{FieldPath, Step, at_key, at_index, any, every, len}
use clove1db.RowEval.{
  RowReader, first_of, split, longer, count_to, over_items, at_quantifier, quantified,
}
use clove1db.RowEval.Fuel.{quantifiers, quantifiers-le-length}

-- Some number of `n` ones from `i` on passes the test; the first that does ends the search.
unfoldable pub some_pass : (ℕ → Result Bool) → ℕ → ℕ → Result Bool
some_pass test i zero = ok false
some_pass test i (suc n) = do
  answer ← test i
  let rest = some_pass test (suc i) n
  if answer then ok true else rest

-- All of them pass; the first that does not ends the search.
unfoldable pub all_pass : (ℕ → Result Bool) → ℕ → ℕ → Result Bool
all_pass test i zero = ok true
all_pass test i (suc n) = do
  answer ← test i
  let rest = all_pass test (suc i) n
  if answer then rest else ok false

module _ (r : RowReader) where
  open r use {Doc, Value, path_value, extract, items}

  -- A test of the items of an array by their numbers; what is no array does not pass.
  abbrev pub of_items :
      ((ℕ → Result Bool) → ℕ → ℕ → Result Bool)
      → (ℕ → Result Bool)
      → Option (List Value)
      → Result Bool
  of_items pass test none = ok false
  of_items pass test (some vs) = pass test 0 (length vs)

  -- The steps that are left, behind those taken, in which each quantifier has become an index.
  unfoldable pub nested :
      Doc → FieldPath → (Value → Result Bool) → List Step → List Step → Result Bool
  nested doc path leaf taken [] = path_value doc (record path { steps = taken }) >>= leaf
  nested doc path leaf taken (any ∷ steps) = extract doc taken >>= λ v.
      of_items some_pass (λ i. nested doc path leaf (taken ++ at_index i ∷ []) steps) (items v)
  nested doc path leaf taken (every ∷ steps) = extract doc taken >>= λ v.
      of_items all_pass (λ i. nested doc path leaf (taken ++ at_index i ∷ []) steps) (items v)
  nested doc path leaf taken (at_key k ∷ steps) =
      nested doc path leaf (taken ++ at_key k ∷ []) steps
  nested doc path leaf taken (at_index j ∷ steps) =
      nested doc path leaf (taken ++ at_index j ∷ []) steps
  nested doc path leaf taken (len ∷ steps) = nested doc path leaf (taken ++ len ∷ []) steps

  first_of-some :
      (f g : ℕ → Result Bool) (i n : ℕ)
      → ((k : ℕ) → f k ≡ g k)
      → first_of r true f (count_to r i n) ≡ some_pass g i n
  unfolding first_of count_to some_pass
  first_of-some f g i zero h = refl
  first_of-some f g i (suc n) h = rw (h i, first_of-some f g (suc i) n h) (go (g i))
    where
      go :
          (a : Result Bool)
          → (a >>= λ b. if (if b then true else false) then ok true else some_pass g (suc i) n)
            ≡ (a >>= λ b. if b then ok true else some_pass g (suc i) n)
      go (ok true) = refl
      go (ok false) = refl
      go (err e) = refl

  first_of-all :
      (f g : ℕ → Result Bool) (i n : ℕ)
      → ((k : ℕ) → f k ≡ g k)
      → first_of r false f (count_to r i n) ≡ all_pass g i n
  unfolding first_of count_to all_pass
  first_of-all f g i zero h = refl
  first_of-all f g i (suc n) h = rw (h i, first_of-all f g (suc i) n h) (go (g i))
    where
      go :
          (a : Result Bool)
          → (a >>= λ b. if (if b then false else true) then ok false else all_pass g (suc i) n)
            ≡ (a >>= λ b. if b then all_pass g (suc i) n else ok false)
      go (ok true) = refl
      go (ok false) = refl
      go (err e) = refl

  over_items-some :
      (f g : ℕ → Result Bool) (o : Option (List Value))
      → ((k : ℕ) → f k ≡ g k)
      → over_items r false f o ≡ of_items some_pass g o
  unfolding over_items
  over_items-some f g none h = refl
  over_items-some f g (some vs) h = first_of-some f g 0 (length vs) h

  over_items-all :
      (f g : ℕ → Result Bool) (o : Option (List Value))
      → ((k : ℕ) → f k ≡ g k)
      → over_items r true f o ≡ of_items all_pass g o
  unfolding over_items
  over_items-all f g none h = refl
  over_items-all f g (some vs) h = first_of-all f g 0 (length vs) h

  abbrev quantifier : Bool → Step
  quantifier true = every
  quantifier false = any

  -- The steps taken have no quantifier, so the first one is where they end.
  split-first :
      (all : Bool) (taken steps : List Step)
      → quantifiers taken ≡ 0
      → split r (taken ++ quantifier all ∷ steps) ≡ some ((taken, all), steps)
  unfolding split longer quantifiers
  split-first true [] steps h = refl
  split-first false [] steps h = refl
  split-first all (any ∷ taken) steps h = absurd (omega (arith, h))
  split-first all (every ∷ taken) steps h = absurd (omega (arith, h))
  split-first all (at_key k ∷ taken) steps h =
      ap (longer r (at_key k)) (split-first all taken steps h)
  split-first all (at_index i ∷ taken) steps h =
      ap (longer r (at_index i)) (split-first all taken steps h)
  split-first all (len ∷ taken) steps h = ap (longer r len) (split-first all taken steps h)

  split-none : (taken : List Step) → quantifiers taken ≡ 0 → split r taken ≡ none
  unfolding split longer quantifiers
  split-none [] h = refl
  split-none (any ∷ taken) h = absurd (omega (arith, h))
  split-none (every ∷ taken) h = absurd (omega (arith, h))
  split-none (at_key k ∷ taken) h = ap (longer r (at_key k)) (split-none taken h)
  split-none (at_index i ∷ taken) h = ap (longer r (at_index i)) (split-none taken h)
  split-none (len ∷ taken) h = ap (longer r len) (split-none taken h)

  quantifiers-append :
      (xs ys : List Step) → quantifiers (xs ++ ys) ≡ quantifiers xs + quantifiers ys
  unfolding quantifiers
  quantifiers-append [] ys = omega arith
  quantifiers-append (any ∷ xs) ys = omega (arith, quantifiers-append xs ys)
  quantifiers-append (every ∷ xs) ys = omega (arith, quantifiers-append xs ys)
  quantifiers-append (at_key k ∷ xs) ys = quantifiers-append xs ys
  quantifiers-append (at_index i ∷ xs) ys = quantifiers-append xs ys
  quantifiers-append (len ∷ xs) ys = quantifiers-append xs ys

  bind-ext :
      (a : Result Value) (f g : Value → Result Bool)
      → ((v : Value) → f v ≡ g v)
      → (a >>= f) ≡ (a >>= g)
  bind-ext (ok v) f g h = h v
  bind-ext (err e) f g h = refl

  module _ (doc : Doc) (path : FieldPath) (leaf : Value → Result Bool) where
    abbrev at_steps : List Step → FieldPath
    at_steps l = record path { steps = l }

    -- No quantifier is left: the value at the steps taken is tested.
    quantified-leaf :
        (fuel : ℕ) (taken : List Step)
        → quantifiers taken ≡ 0
        → quantified r fuel doc (at_steps taken) leaf ≡ (path_value doc (at_steps taken) >>= leaf)
    unfolding quantified at_quantifier
    quantified-leaf zero taken h = refl
    quantified-leaf (suc fuel) taken h = rw (split-none taken h) refl

    quantified-first :
        (all : Bool) (fuel : ℕ) (taken steps : List Step)
        → quantifiers taken ≡ 0
        → quantified r (suc fuel) doc (at_steps (taken ++ quantifier all ∷ steps)) leaf ≡ (
            extract doc taken >>= λ v.
            over_items r all
              (λ n. quantified r fuel doc (at_steps (taken ++ at_index n ∷ steps)) leaf)
              (items v))
    unfolding quantified at_quantifier
    quantified-first all fuel taken steps h = rw (split-first all taken steps h) refl

    -- One step more is taken.
    taken_on :
        (s : Step) (steps taken : List Step) (fuel : ℕ) {answer : Result Bool}
        → quantified r fuel doc (at_steps ((taken ++ s ∷ []) ++ steps)) leaf ≡ answer
        → quantified r fuel doc (at_steps (taken ++ s ∷ steps)) leaf ≡ answer
    taken_on s steps taken fuel h =
        ap (λ l. quantified r fuel doc (at_steps l) leaf) (sym (append_assoc taken (s ∷ []) steps))
        ∙ h

    still_none :
        (s : Step) (taken : List Step)
        → quantifiers (s ∷ []) ≡ 0
        → quantifiers taken ≡ 0
        → quantifiers (taken ++ s ∷ []) ≡ 0
    still_none s taken plain h = omega (arith, quantifiers-append taken (s ∷ []), plain, h)

    quantified-from :
        (steps taken : List Step) (fuel : ℕ)
        → quantifiers taken ≡ 0
        → quantifiers steps ≤ fuel
        → quantified r fuel doc (at_steps (taken ++ steps)) leaf ≡ nested doc path leaf taken steps
    unfolding nested quantifiers
    quantified-from [] taken fuel h le =
        ap (λ l. quantified r fuel doc (at_steps l) leaf) (append-nil taken)
        ∙ quantified-leaf fuel taken h
    quantified-from (any ∷ steps) taken zero h le = absurd (omega (arith, le))
    quantified-from (any ∷ steps) taken (suc fuel) h le =
        quantified-first false fuel taken steps h
        ∙ bind-ext (extract doc taken) _ _ (λ v. over_items-some _ _ (items v) (λ i.
          taken_on (at_index i) steps taken fuel (
            quantified-from steps (taken ++ at_index i ∷ []) fuel
              (still_none (at_index i) taken refl h) (omega (arith, le)))))
    quantified-from (every ∷ steps) taken zero h le = absurd (omega (arith, le))
    quantified-from (every ∷ steps) taken (suc fuel) h le =
        quantified-first true fuel taken steps h
        ∙ bind-ext (extract doc taken) _ _ (λ v. over_items-all _ _ (items v) (λ i.
          taken_on (at_index i) steps taken fuel (
            quantified-from steps (taken ++ at_index i ∷ []) fuel
              (still_none (at_index i) taken refl h) (omega (arith, le)))))
    quantified-from (at_key k ∷ steps) taken fuel h le = taken_on (at_key k) steps taken fuel (
        quantified-from steps (taken ++ at_key k ∷ []) fuel (still_none (at_key k) taken refl h) le)
    quantified-from (at_index i ∷ steps) taken fuel h le = taken_on (at_index i) steps taken fuel (
        quantified-from steps (taken ++ at_index i ∷ []) fuel (still_none (at_index i) taken refl h)
          le)
    quantified-from (len ∷ steps) taken fuel h le =
        taken_on len steps taken fuel
          (quantified-from steps (taken ++ len ∷ []) fuel (still_none len taken refl h) le)

    -- The evaluation that replaces the first quantifier by each index and starts again is the one that
    -- walks the steps once: `Any` is passed where some item passes, `All` where every item does, from
    -- left to right with the first answer that decides, and the value at the end is tested. The number
    -- of steps is enough fuel.
    pub quantified-nested :
        quantified r (length path.steps) doc path leaf ≡ nested doc path leaf [] path.steps
    quantified-nested =
        quantified-from path.steps [] (length path.steps) (unfold quantifiers in refl)
          (quantifiers-le-length path.steps)
