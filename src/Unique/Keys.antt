-- ===== src/Unique/Keys.antt =====
-- Keys of rows and of tables, and tables of keys.
use clove1db.Prelude.{
  ℕ, suc, ◌≡◌, refl, ◌∙◌, ap, true, List, [], ◌∷◌, ◌++◌, Option, none, some, All, All-append, arith,
  inl, inr, Bool-cases, if◌then◌else◌, list_eq, list_eq_iff, list_eq_refl,
}
use mathlib.Core.Path.{subst}
use clove1db.Prelude.Bytes.{Text}
use clove1db.Prelude.Dict.{
  Eq, has, get, put, remove as erase, text_eq, pair_eq, get-remove, get-put,
}
use clove1db.Prelude.Results.{Result, ok, >>=-eq-ok, guard, guard-ok, ok-injective}
use clove1db.Values.{Value, Items, item}
use clove1db.IdContract.{FieldPath}
use clove1db.Codec.{encode_tuple}
use clove1db.Unique.{Unique, forget, claim, is_free, values, key_of, keys_from, row_keys}

module _ {K : Type 0} ⦃e : Eq K⦄ where
  pub All-has {κ} : (P : K → Type κ) (k : K) (l : List K) → All P l → has k l ≡ true → P k
  unfolding has
  All-has P k [] a h = cc
  All-has P k (j ∷ l) a h = elim (Bool-cases (e.same j k)) [
    | inl s ↦ subst P ((e.same_iff j k).0 s) a.0
    | inr d ↦ All-has P k l a.1 (rw d at h)
  ]

pub get-forget :
    (k : List ℕ) (ks : List (List ℕ)) (m : List (List ℕ × Text))
    → get k (forget ks m) ≡ (if has k ks then none else get k m)
unfolding forget has
get-forget k [] m = refl
get-forget k (j ∷ ks) m =
    ground (arith, list_eq_iff j k, get-forget k ks (erase j m), get-remove j k m)

pub claim-cons :
    (row : Text) (k : List ℕ) (ks : List (List ℕ)) (m : List (List ℕ × Text))
    {n : List (List ℕ × Text)}
    → claim row (k ∷ ks) m ≡ ok n
    → (is_free row (get k m) ≡ true) × (claim row ks (put k row m) ≡ ok n)
unfolding claim
claim-cons row k ks m h =
    let (x, hg, hc) = >>=-eq-ok (guard (is_free row (get k m)) _) _ h in (guard-ok _ _ x hg, hc)

free-eq : (row other : Text) (o : Option Text) → is_free row o ≡ true → o ≡ some other → row ≡ other
free-eq row other none f g = cc
free-eq row other (some r) f g = ground (arith, list_eq_iff r row)

put_keeps :
    (row other : Text) (j k : List ℕ) (m : List (List ℕ × Text))
    → is_free row (get j m) ≡ true
    → get k m ≡ some other
    → get k (put j row m) ≡ some other
put_keeps row other j k m f g = elim (Bool-cases (list_eq j k)) [
  | inl same ↦
      let one : j ≡ k = (list_eq_iff j k).0 same in
      get-put j k row m
      ∙ rw same (ap some (free-eq row other (get j m) f (ap (λ i. get i m) one ∙ g)))
  | inr differ ↦ get-put j k row m ∙ rw differ g
]

-- What is entered is not lost: only a free key is taken.
pub claim_keeps :
    (row other : Text) (k : List ℕ) (ks : List (List ℕ)) (m : List (List ℕ × Text))
    {n : List (List ℕ × Text)}
    → claim row ks m ≡ ok n
    → get k m ≡ some other
    → get k n ≡ some other
claim_keeps row other k [] m h g =
    unfold claim in subst (λ t. get k t ≡ some other) (ok-injective h) g
claim_keeps row other k (j ∷ ks) m h g =
    let (f, hc) = claim-cons row j ks m h in
    claim_keeps row other k ks (put j row m) hc (put_keeps row other j k m f g)

pub claim_owns :
    (row : Text) (ks : List (List ℕ)) (m : List (List ℕ × Text)) {n : List (List ℕ × Text)}
    → claim row ks m ≡ ok n
    → All (λ k. get k n ≡ some row) ks
claim_owns row [] m h = tt
claim_owns row (k ∷ ks) m h =
    let (f, hc) = claim-cons row k ks m h in
    (
      claim_keeps row row k ks (put k row m) hc (get-put k k row m ∙ rw (list_eq_refl k) refl),
      claim_owns row ks (put k row m) hc,
    )

module _ (raw_value : Text → Result Text) (path_value : List ℕ → FieldPath → Result Value)
    (prefix : Text → ℕ → List ℕ) where
  -- A key of a table.
  abbrev pub IsOf : Text → List ℕ → Type 0
  IsOf table k = (i : ℕ) × (rest : List ℕ) × (k ≡ prefix table i ++ rest)

  key_of-IsOf :
      (table : Text) (i : ℕ) (vs : Option Items) {ks : List (List ℕ)}
      → key_of raw_value path_value prefix table i vs ≡ ok ks
      → All (IsOf table) ks
  unfolding key_of
  key_of-IsOf table i none h = subst (All (IsOf table)) (ok-injective h) tt
  key_of-IsOf table i (some Items.none) h = subst (All (IsOf table)) (ok-injective h) tt
  key_of-IsOf table i (some (item v vs)) h =
      let (tuple, ht, e) = >>=-eq-ok (encode_tuple raw_value (item v vs)) _ h in
      subst (All (IsOf table)) (ok-injective e) ((i, tuple, refl), tt)

  keys_from-IsOf :
      (i : ℕ) (table : Text) (bytes : List ℕ) (defs : List Unique) {ks : List (List ℕ)}
      → keys_from raw_value path_value prefix i table bytes defs ≡ ok ks
      → All (IsOf table) ks
  unfolding keys_from
  keys_from-IsOf i table bytes [] h = subst (All (IsOf table)) (ok-injective h) tt
  keys_from-IsOf i table bytes (d ∷ defs) h =
      let (vs, hv, h1) = >>=-eq-ok (values raw_value path_value prefix bytes d.paths) _ h in
      let (first, hf, h2) = >>=-eq-ok (key_of raw_value path_value prefix table i vs) _ h1 in
      let (rest, hr, e) =
        >>=-eq-ok (keys_from raw_value path_value prefix (suc i) table bytes defs) _ h2 in
      subst (All (IsOf table)) (ok-injective e) (
        All-append (IsOf table) first rest (key_of-IsOf table i vs hf)
          (keys_from-IsOf (suc i) table bytes defs hr))

  pub row_keys-IsOf :
      (table : Text) (bytes : List ℕ) (defs : List Unique) {ks : List (List ℕ)}
      → row_keys raw_value path_value prefix table bytes defs ≡ ok ks
      → All (IsOf table) ks
  unfolding row_keys
  row_keys-IsOf table bytes defs h = keys_from-IsOf 0 table bytes defs h
