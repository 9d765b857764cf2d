-- ===== src/RowEval/Cache.antt =====
-- Keeping the values of some paths does not change what an expression comes to.
use clove1db.Prelude.{
  ◌≡◌, refl, sym, ◌∙◌, Bool, true, false, not, List, [], ◌∷◌, Option, none, some, All,
  if◌then◌else◌, length,
}
use mathlib.Core.Path.{subst}
use clove1db.Prelude.Results.{Result, ok, err, ClError, validation, ◌>>=◌}
use clove1db.IdContract.{FieldPath}
use clove1db.RowEval.{
  RowReader, Expr, compare, presence, both, either, negate, elem_match, never, invalid, Kept,
  nothing_read, keep, value, test_path, matches, quantified, items_match, has_quantifier,
}

module _ (r : RowReader) (same_law : (p q : FieldPath) → r.same p q ≡ true → p ≡ q) where
  open r use {Doc, Value, Op, path_value, scalar, has, items, same, interpret_all}

  -- A value that is kept is the one that reading the path gives.
  unfoldable pub IsRead : Doc → FieldPath × Option Value → Type 0
  IsRead doc (p, none) = Unit {0}
  IsRead doc (p, some v) = path_value doc p ≡ ok v

  abbrev pub AreRead : Doc → Kept r → Type 0
  AreRead doc kept = All (IsRead doc) kept

  -- The evaluation without kept values.
  unfoldable plain_test : Doc → FieldPath → (Value → Result Bool) → Result Bool
  plain_test doc path leaf =
      let through = quantified r (length path.steps) doc path leaf in
      if has_quantifier r path.steps then through else path_value doc path >>= leaf

  unfoldable plain : Doc → Expr r → Result Bool
  plain doc (compare path op values) =
      interpret_all path values >>= λ vs. plain_test doc path (λ v. scalar v op vs)
  plain doc (presence path op) = plain_test doc path (λ v. ok (has op v))
  plain doc (both a b) = plain doc a >>= λ x. let more = plain doc b in if x then more else ok false
  plain doc (either a b) =
      plain doc a >>= λ x. let more = plain doc b in if x then ok true else more
  plain doc (negate a) = plain doc a >>= λ x. ok (not x)
  plain doc (elem_match path inner) = path_value doc path >>= λ v.
      items_match r (λ d. matches r d inner [] >>= λ xk. ok xk.0) (items v)
  plain doc never = ok false
  plain doc (invalid s) = err (validation "invalid query expression")

  -- A result without its kept values is that one, and the kept values are still right.
  pub data Agrees {A : Type 0} (doc : Doc) : Result (A × Kept r) → Result A → Type 0 where
    agree_ok : (a : A) (kept : Kept r) → AreRead doc kept → Agrees doc (ok (a, kept)) (ok a)
    agree_err : (e : ClError) → Agrees doc (err e) (err e)

  -- Chains agree where their parts do.
  Agrees-chain :
      {A B : Type 0} (doc : Doc) (m : Result (A × Kept r)) (n : Result A)
      (f : A × Kept r → Result (B × Kept r)) (g : A → Result B)
      → Agrees doc m n
      → ((a : A) (kept : Kept r) → AreRead doc kept → Agrees doc (f (a, kept)) (g a))
      → Agrees doc (m >>= f) (n >>= g)
  Agrees-chain doc m n f g (agree_ok a kept k) h = h a kept k
  Agrees-chain doc m n f g (agree_err e) h = agree_err e

  Agrees-kept :
      {A : Type 0} (doc : Doc) (n : Result A) (kept : Kept r)
      → AreRead doc kept
      → Agrees doc (n >>= λ a. ok (a, kept)) n
  Agrees-kept doc (ok a) kept k = agree_ok a kept k
  Agrees-kept doc (err e) kept k = agree_err e

  keep-Agrees :
      (doc : Doc) (p : FieldPath) (o : Option Value) (rest : Kept r)
      → IsRead doc (p, o)
      → AreRead doc rest
      → Agrees doc (keep r doc p o rest) (path_value doc p)
  unfolding keep IsRead
  keep-Agrees doc p (some v) rest h k =
      subst (Agrees doc (ok (v, (p, some v) ∷ rest))) (sym h)
        (agree_ok v ((p, some v) ∷ rest) (h, k))
  keep-Agrees doc p none rest h k = read (path_value doc p) refl
    where
      read :
          (m : Result Value)
          → path_value doc p ≡ m
          → Agrees doc (m >>= λ v. ok (v, (p, some v) ∷ rest)) m
      read (ok v) e = agree_ok v ((p, some v) ∷ rest) (e, k)
      read (err x) e = agree_err x

  value-Agrees :
      (doc : Doc) (path : FieldPath) (kept : Kept r)
      → AreRead doc kept
      → Agrees doc (value r doc path kept) (path_value doc path)
  unfolding value
  value-Agrees doc path [] k = Agrees-kept doc (path_value doc path) [] tt
  value-Agrees doc path ((p, o) ∷ rest) k =
      choose (same p path) refl (value-Agrees doc path rest k.1)
    where
      choose :
          (b : Bool)
          → same p path ≡ b
          → Agrees doc (value r doc path rest) (path_value doc path)
          → Agrees doc
              (if b
                then keep r doc p o rest
                else (value r doc path rest >>= λ vk. ok (vk.0, (p, o) ∷ vk.1)))
              (path_value doc path)
      choose true e ih =
          subst (λ q. Agrees doc (keep r doc p o rest) (path_value doc q)) (same_law p path e)
            (keep-Agrees doc p o rest k.0 k.1)
      choose false e ih = longer (value r doc path rest) (path_value doc path) ih
        where
          longer :
              (m : Result (Value × Kept r)) (n : Result Value)
              → Agrees doc m n
              → Agrees doc (m >>= λ vk. ok (vk.0, (p, o) ∷ vk.1)) n
          longer m n (agree_ok a kept h) = agree_ok a ((p, o) ∷ kept) (k.0, h)
          longer m n (agree_err x) = agree_err x

  test_path-Agrees :
      (doc : Doc) (path : FieldPath) (leaf : Value → Result Bool) (kept : Kept r)
      → AreRead doc kept
      → Agrees doc (test_path r doc path leaf kept) (plain_test doc path leaf)
  unfolding test_path plain_test
  test_path-Agrees doc path leaf kept k = choose (has_quantifier r path.steps)
    where
      through : Result Bool
      through = quantified r (length path.steps) doc path leaf

      choose :
          (b : Bool)
          → Agrees doc
              (if b
                then (through >>= λ b. ok (b, kept))
                else (value r doc path kept >>= λ vk. leaf vk.0 >>= λ b. ok (b, vk.1)))
              (if b then through else path_value doc path >>= leaf)
      choose true = Agrees-kept doc through kept k
      choose false =
          Agrees-chain doc (value r doc path kept) (path_value doc path) _ leaf
            (value-Agrees doc path kept k) (λ v after h. Agrees-kept doc (leaf v) after h)

  matches-Agrees :
      (doc : Doc) (x : Expr r) (kept : Kept r)
      → AreRead doc kept
      → Agrees doc (matches r doc x kept) (plain doc x)
  unfolding matches plain
  matches-Agrees doc (compare path op values) kept k = interpreted (interpret_all path values)
    where
      interpreted :
          (m : Result (List Value))
          → Agrees doc
              (m >>= λ vs. test_path r doc path (λ v. scalar v op vs) kept)
              (m >>= λ vs. plain_test doc path (λ v. scalar v op vs))
      interpreted (ok vs) = test_path-Agrees doc path (λ v. scalar v op vs) kept k
      interpreted (err e) = agree_err e
  matches-Agrees doc (presence path op) kept k =
      test_path-Agrees doc path (λ v. ok (has op v)) kept k
  matches-Agrees doc (both a b) kept k =
      Agrees-chain doc (matches r doc a kept) (plain doc a) _ _ (matches-Agrees doc a kept k)
        (λ x after h. more x after h (matches-Agrees doc b after h))
    where
      more :
          (x : Bool) (after : Kept r)
          → AreRead doc after
          → Agrees doc (matches r doc b after) (plain doc b)
          → Agrees doc
              (if x then matches r doc b after else ok (false, after))
              (if x then plain doc b else ok false)
      more true after h ih = ih
      more false after h ih = agree_ok false after h
  matches-Agrees doc (either a b) kept k =
      Agrees-chain doc (matches r doc a kept) (plain doc a) _ _ (matches-Agrees doc a kept k)
        (λ x after h. more x after h (matches-Agrees doc b after h))
    where
      more :
          (x : Bool) (after : Kept r)
          → AreRead doc after
          → Agrees doc (matches r doc b after) (plain doc b)
          → Agrees doc
              (if x then ok (true, after) else matches r doc b after)
              (if x then ok true else plain doc b)
      more false after h ih = ih
      more true after h ih = agree_ok true after h
  matches-Agrees doc (negate a) kept k =
      Agrees-chain doc (matches r doc a kept) (plain doc a) _ _ (matches-Agrees doc a kept k)
        (λ x after h. agree_ok (not x) after h)
  matches-Agrees doc (elem_match path inner) kept k =
      Agrees-chain doc (value r doc path kept) (path_value doc path) _ _
        (value-Agrees doc path kept k)
        (λ v after h.
          Agrees-kept doc (items_match r (λ d. matches r d inner [] >>= λ xk. ok xk.0) (items v))
            after h)
  matches-Agrees doc never kept k = agree_ok false kept k
  matches-Agrees doc (invalid s) kept k = agree_err _

  nothing_read-AreRead : (doc : Doc) (paths : List FieldPath) → AreRead doc (nothing_read r paths)
  unfolding nothing_read IsRead
  nothing_read-AreRead doc [] = tt
  nothing_read-AreRead doc (p ∷ paths) = (tt, nothing_read-AreRead doc paths)

  forget-Agrees :
      (doc : Doc) (m : Result (Bool × Kept r)) (n : Result Bool)
      → Agrees doc m n
      → (m >>= λ xk. ok xk.0) ≡ n
  forget-Agrees doc m n (agree_ok a kept k) = refl
  forget-Agrees doc m n (agree_err e) = refl

  -- Where equal paths are the same path: an expression comes to the same answer, or the same error,
  -- on a row whichever paths the evaluation keeps the values of.
  pub matches_kept :
      (doc : Doc) (x : Expr r) (paths : List FieldPath)
      → (matches r doc x (nothing_read r paths) >>= λ xk. ok xk.0)
        ≡ (matches r doc x [] >>= λ xk. ok xk.0)
  matches_kept doc x paths =
      forget-Agrees doc _ (plain doc x)
        (matches-Agrees doc x (nothing_read r paths) (nothing_read-AreRead doc paths))
      ∙ sym (forget-Agrees doc _ (plain doc x) (matches-Agrees doc x [] tt))
