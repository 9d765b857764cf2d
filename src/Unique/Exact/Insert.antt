-- ===== src/Unique/Exact/Insert.antt =====
-- Entering the keys of a row that is there keeps the tables of keys exact (src/unique.rs).
use clove1db.Prelude.{
  ℕ, ◌≡◌, refl, sym, ◌∙◌, ap, true, List, [], ◌∷◌, some, inl, inr, ◌⊎◌, Bool-cases, list_eq,
}
use mathlib.Core.Path.{subst}
use clove1db.Prelude.Bytes.{Text}
use clove1db.Prelude.Options.{some-eq}
use clove1db.Prelude.Dict.{
  has, get, put, text_eq, pair_eq, pair_same, pair_same_iff, get-put, same_refl,
}
use clove1db.Prelude.Results.{Result, ok, >>=-eq-ok, ok-injective}
use clove1db.Values.{Value}
use clove1db.IdContract.{FieldPath, Tables}
use clove1db.Unique.{Unique, State, row_at, row_keys, claim, put_keys, insert}
use clove1db.Unique.Keys.{claim-cons}
use clove1db.Unique.Steps.{put_keys-eq}
use clove1db.Unique.Exact.{AreKeysOf, IsExact}

-- A key that is found afterwards was entered, or was there.
claim-found :
    (row : Text) (ks : List (List ℕ)) (m : List (List ℕ × Text)) {n : List (List ℕ × Text)}
    (k : List ℕ) (other : Text)
    → claim row ks m ≡ ok n
    → get k n ≡ some other
    → ((row ≡ other) × (has k ks ≡ true)) ⊎ (get k m ≡ some other)
unfolding has
claim-found row [] m k other h g =
    inr (unfold claim in subst (λ t. get k t ≡ some other) (sym (ok-injective h)) g)
claim-found row (j ∷ ks) m k other h g =
    let (_, hc) = claim-cons row j ks m h in
    elim (claim-found row ks (put j row m) k other hc g) [
      | inl (e, inside) ↦ elim (Bool-cases (list_eq j k)) [
        | inl same ↦ inl (e, rw same refl)
        | inr ne ↦ inl (e, rw ne inside)
      ]
      | inr before ↦ elim (Bool-cases (list_eq j k)) [
        | inl same ↦ inl (some-eq (sym (get-put j k row m ∙ rw same refl) ∙ before), rw same refl)
        | inr ne ↦ inr (sym (get-put j k row m ∙ rw ne refl) ∙ before)
      ]
    ]

-- An entry with the same keys, or of another row, is there afterwards.
put_keys-kept :
    (a b : Text × Text) (ks ls : List (List ℕ)) (m : List ((Text × Text) × List (List ℕ)))
    → (pair_same a b ≡ true → ks ≡ ls)
    → get b m ≡ some ls
    → get b (put_keys a ks m) ≡ some ls
put_keys-kept a b [] ls m f g = g
put_keys-kept a b (k ∷ ks) ls m f g =
    get-put a b (k ∷ ks) m
    ∙ elim (Bool-cases (pair_same a b)) [ inl same ↦ rw same (ap some (f same)) | inr ne ↦ rw ne g ]

put_keys-entered :
    (a : Text × Text) (k : List ℕ) (ks : List (List ℕ)) (m : List ((Text × Text) × List (List ℕ)))
    → has k ks ≡ true
    → get a (put_keys a ks m) ≡ some ks
unfolding has
put_keys-entered a k [] m h = cc
put_keys-entered a k (j ∷ ks) m h = get-put a a (j ∷ ks) m ∙ rw (same_refl a) refl

module _ (raw_value : Text → Result Text) (path_value : List ℕ → FieldPath → Result Value)
    (prefix : Text → ℕ → List ℕ) where
  -- A row has one list of keys.
  AreKeysOf-unique :
      (tables : Tables) (all : List (Text × List Unique)) (a : Text × Text) (ks ls : List (List ℕ))
      → AreKeysOf raw_value path_value prefix tables all a ks
      → AreKeysOf raw_value path_value prefix tables all a ls
      → ks ≡ ls
  AreKeysOf-unique tables all a ks ls (v, d, gd, r, hk) (w, e, ge, q, hl) =
      let value : v ≡ w = some-eq (sym r ∙ q) in
      let definitions : d ≡ e = some-eq (sym gd ∙ ge) in
      ok-injective (
        sym hk
        ∙ (ap (λ x. row_keys raw_value path_value prefix a.0 x d) value
            ∙ (ap (row_keys raw_value path_value prefix a.0 w) definitions ∙ hl)))

  pub insert-IsExact :
      (tables : Tables) (all : List (Text × List Unique)) (a : Text × Text) (v : List ℕ)
      (defs : List Unique) (s : State) {t : State}
      → get a.0 all ≡ some defs
      → row_at a.1 (tables a.0) ≡ some v
      → insert raw_value path_value prefix a v defs s ≡ ok t
      → IsExact raw_value path_value prefix tables all s
      → IsExact raw_value path_value prefix tables all t
  unfolding insert
  insert-IsExact tables all a v defs s d r h x =
      let (ks, hk, h1) = >>=-eq-ok (row_keys raw_value path_value prefix a.0 v defs) _ h in
      let (m, hm, e) = >>=-eq-ok (claim a.1 ks s.keys) _ h1 in
      subst (IsExact raw_value path_value prefix tables all) (ok-injective e) (record {
        live = λ b ls g.
            entry ks hk b ls (put_keys-eq raw_value path_value prefix a b ks ls s.reverse g);
        no_other = record {
          used = λ k row g. holder ks hk k row (claim-found a.1 ks s.keys k row hm g);
        };
      })
    where
      entry :
          (ks : List (List ℕ))
          → row_keys raw_value path_value prefix a.0 v defs ≡ ok ks
          → (b : Text × Text) (ls : List (List ℕ))
          → ((pair_same a b ≡ true) × (ks ≡ ls)) ⊎ (get b s.reverse ≡ some ls)
          → AreKeysOf raw_value path_value prefix tables all b ls
      entry ks hk b ls (inl (same, e)) =
          subst (λ x. AreKeysOf raw_value path_value prefix tables all x ls)
            ((pair_same_iff a b).0 same) (v, defs, d, r, hk ∙ ap ok e)
      entry ks hk b ls (inr g) = x.live b ls g

      holder :
          (ks : List (List ℕ))
          → row_keys raw_value path_value prefix a.0 v defs ≡ ok ks
          → (k : List ℕ) (row : Text)
          → ((a.1 ≡ row) × (has k ks ≡ true)) ⊎ (get k s.keys ≡ some row)
          → (table : Text) × (ls : List (List ℕ)) × (get (table, row) (put_keys a ks s.reverse)
              ≡ some ls)
            × (has k ls ≡ true)
      holder ks hk k row (inl (e, inside)) = (
        a.0,
        ks,
        subst (λ x. get (a.0, x) (put_keys a ks s.reverse) ≡ some ks) e
            (put_keys-entered a k ks s.reverse inside),
        inside,
      )
      holder ks hk k row (inr g) =
          let (table, ls, listed, inside) = x.no_other.used k row g in
          (
            table,
            ls,
            put_keys-kept a (table, row) ks ls s.reverse
                (λ same.
                  AreKeysOf-unique tables all (table, row) ks ls
                    (entry ks hk (table, row) ks (inl (same, refl)))
                    (x.live (table, row) ls listed))
                listed,
            inside,
          )
