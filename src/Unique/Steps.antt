-- ===== src/Unique/Steps.antt =====
-- What `remove`, `clear` and `insert` keep: an entered key belongs to its row, and a row that is not
-- pending has its keys entered.
use clove1db.Prelude.{
  ℕ, ◌≡◌, refl, sym, ◌∙◌, ap, true, false, List, [], ◌∷◌, ◌++◌, Option, none, some, All, All-both,
  All-map, arith, inl, inr, Bool-cases, if◌then◌else◌, list_eq_iff, ◌⊎◌, contradict,
}
use mathlib.Core.Path.{subst}
use clove1db.Prelude.Options.{some-eq, none-ne}
use clove1db.Prelude.Bytes.{Text}
use clove1db.Prelude.Dict.{
  has, get, text_eq, pair_eq, pair_same, pair_same_iff, get-remove, get-put,
}
use clove1db.Prelude.Results.{Result, ok, >>=-eq-ok, ok-injective}
use clove1db.Values.{Value}
use clove1db.IdContract.{FieldPath, Tables}
use clove1db.Unique.{
  Unique, State, row_at, forget, drop_row, remove, claim, put_keys, row_keys, insert,
}
use clove1db.Unique.Keys.{All-has, get-forget, claim_keeps, claim_owns, IsOf, row_keys-IsOf}

module _ (raw_value : Text → Result Text) (path_value : List ℕ → FieldPath → Result Value)
    (prefix : Text → ℕ → List ℕ) where
  abbrev pub Owned : Text × Text → List (List ℕ × Text) → List ℕ → Type 0
  Owned at m k = (get k m ≡ some at.1) × IsOf raw_value path_value prefix at.0 k

  -- The keys that the reverse table has for a row are that row's.
  pub record InStep (s : State) : Type 0 where
    pub reverse_owned :
        (at : Text × Text) (ks : List (List ℕ))
        → get at s.reverse ≡ some ks
        → All (Owned at s.keys) ks

  -- A row whose table has definitions has its keys entered, unless it is pending.
  pub record Covers (tables : Tables) (pending : List (Text × Text)) (s : State) : Type 0 where
    pub rows_owned :
        (at : Text × Text) (v : List ℕ) (defs : List Unique) (ks : List (List ℕ))
        → get at.0 s.defs ≡ some defs
        → row_at at.1 (tables at.0) ≡ some v
        → has at pending ≡ false
        → row_keys raw_value path_value prefix at.0 v defs ≡ ok ks
        → All (Owned at s.keys) ks

  -- JSON of a table and a number, followed by anything: the table can be read off.
  abbrev pub IsDelimited : Type 0
  IsDelimited = (t u : Text) (i j : ℕ) (a b : List ℕ) → prefix t i ++ a ≡ prefix u j ++ b → t ≡ u

  module _ (delimited : IsDelimited) where
    owner-eq :
        (a b : Text × Text) (m : List (List ℕ × Text)) (k : List ℕ)
        → Owned a m k
        → Owned b m k
        → pair_same a b ≡ true
    owner-eq a b m k (ga, (i, x, ea)) (gb, (j, y, eb)) =
        let t : a.0 ≡ b.0 = delimited a.0 b.0 i j x y (sym ea ∙ eb) in
        let r : a.1 ≡ b.1 = some-eq (sym ga ∙ gb) in
        ground (arith, list_eq_iff a.0 b.0, list_eq_iff a.1 b.1)

    -- Taking away a row's keys leaves those of other rows.
    forget-Owned :
        (a b : Text × Text) (m : List (List ℕ × Text)) (old : List (List ℕ)) (k : List ℕ)
        → All (Owned a m) old
        → pair_same a b ≡ false
        → Owned b m k
        → Owned b (forget old m) k
    forget-Owned a b m old k own ne o = elim (Bool-cases (has k old)) [
      | inl inside ↦
          absurd (contradict (owner-eq a b m k (All-has (Owned a m) k old own inside) o) ne)
      | inr outside ↦ (get-forget k old m ∙ rw outside o.0, o.1)
    ]

    drop_row-InStep :
        (a : Text × Text) (o : Option (List (List ℕ))) (s : State)
        → get a s.reverse ≡ o
        → InStep s
        → InStep (drop_row a o s)
    drop_row-InStep a none s e h = h
    drop_row-InStep a (some old) s e h = record {
      reverse_owned =
          λ b ks g. other b ks (Bool-cases (pair_same a b)) (sym (get-remove a b s.reverse) ∙ g);
    }
      where
        other :
            (b : Text × Text) (ks : List (List ℕ))
            → (pair_same a b ≡ true) ⊎ (pair_same a b ≡ false)
            → (if pair_same a b then none else get b s.reverse) ≡ some ks
            → All (Owned b (forget old s.keys)) ks
        other b ks (inl same) g = absurd (none-ne (sym (rw same refl) ∙ g))
        other b ks (inr ne) g =
            All-map _ _ ks (λ k. forget-Owned a b s.keys old k (h.reverse_owned a old e) ne)
              (h.reverse_owned b ks (sym (rw ne refl) ∙ g))

        none-ne : {l : List (List ℕ)} → none ≡ some l → ⊥
        none-ne p = cc

    pub remove-InStep : (a : Text × Text) (s : State) → InStep s → InStep (remove a s)
    unfolding remove
    remove-InStep a s h = drop_row-InStep a (get a s.reverse) s refl h

    drop_row-Covers :
        (tables : Tables) (pending : List (Text × Text)) (a : Text × Text)
        (o : Option (List (List ℕ))) (s : State)
        → get a s.reverse ≡ o
        → ((v : List ℕ) → row_at a.1 (tables a.0) ≡ some v → has a pending ≡ true)
        → InStep s
        → Covers tables pending s
        → Covers tables pending (drop_row a o s)
    drop_row-Covers tables pending a none s e named h c = c
    drop_row-Covers tables pending a (some old) s e named h c = record {
      rows_owned = λ b v defs ks d r p hk.
          All-map _ _ ks
            (λ k. forget-Owned a b s.keys old k (h.reverse_owned a old e) (apart b v r p))
            (c.rows_owned b v defs ks d r p hk);
    }
      where
        apart :
            (b : Text × Text) (v : List ℕ)
            → row_at b.1 (tables b.0) ≡ some v
            → has b pending ≡ false
            → pair_same a b ≡ false
        apart b v r p = elim (Bool-cases (pair_same a b)) [
          | inl same ↦
              let one : a ≡ b = (pair_same_iff a b).0 same in
              absurd (
                contradict
                  (subst (λ x. has x pending ≡ true) one
                    (named v (subst (λ x. row_at x.1 (tables x.0) ≡ some v) (sym one) r)))
                  p)
          | inr ne ↦ ne
        ]

    pub remove-Covers :
        (tables : Tables) (pending : List (Text × Text)) (a : Text × Text) (s : State)
        → ((v : List ℕ) → row_at a.1 (tables a.0) ≡ some v → has a pending ≡ true)
        → InStep s
        → Covers tables pending s
        → Covers tables pending (remove a s)
    unfolding remove
    remove-Covers tables pending a s named h c =
        drop_row-Covers tables pending a (get a s.reverse) s refl named h c

  pub put_keys-eq :
      (a b : Text × Text) (ks ls : List (List ℕ)) (m : List ((Text × Text) × List (List ℕ)))
      → get b (put_keys a ks m) ≡ some ls
      → ((pair_same a b ≡ true) × (ks ≡ ls)) ⊎ (get b m ≡ some ls)
  put_keys-eq a b [] ls m g = inr g
  put_keys-eq a b (k ∷ ks) ls m g =
      let g' : (if pair_same a b then some (k ∷ ks) else get b m) ≡ some ls =
        sym (get-put a b (k ∷ ks) m) ∙ g in
      elim (Bool-cases (pair_same a b)) [
        | inl same ↦ inl (same, some-eq (rw same at g'))
        | inr ne ↦ inr (rw ne at g')
      ]

  pub insert-InStep :
      (a : Text × Text) (v : List ℕ) (defs : List Unique) (s : State) {t : State}
      → insert raw_value path_value prefix a v defs s ≡ ok t
      → InStep s
      → InStep t
  unfolding insert
  insert-InStep a v defs s h i =
      let (ks, hk, h1) = >>=-eq-ok (row_keys raw_value path_value prefix a.0 v defs) _ h in
      let (m, hm, e) = >>=-eq-ok (claim a.1 ks s.keys) _ h1 in
      subst InStep (ok-injective e) (record {
        reverse_owned = λ b ls g. entered ks m hk hm b ls (put_keys-eq a b ks ls s.reverse g);
      })
    where
      entered :
          (ks : List (List ℕ)) (m : List (List ℕ × Text))
          → row_keys raw_value path_value prefix a.0 v defs ≡ ok ks
          → claim a.1 ks s.keys ≡ ok m
          → (b : Text × Text) (ls : List (List ℕ))
          → ((pair_same a b ≡ true) × (ks ≡ ls)) ⊎ (get b s.reverse ≡ some ls)
          → All (Owned b m) ls
      entered ks m hk hm b ls (inl (same, e)) =
          subst (λ x. All (Owned x m) ls) ((pair_same_iff a b).0 same)
            (subst (All (Owned a m)) e (
              All-both _ _ (Owned a m) ks (λ k p q. (p, q)) (claim_owns a.1 ks s.keys hm)
                (row_keys-IsOf raw_value path_value prefix a.0 v defs hk)))
      entered ks m hk hm b ls (inr g) =
          All-map _ _ ls (λ k o. (claim_keeps a.1 b.1 k ks s.keys hm o.0, o.1))
            (i.reverse_owned b ls g)

  -- The row that is entered is pending no longer.
  pub insert-Covers :
      (tables : Tables) (pending : List (Text × Text)) (a : Text × Text) (v : List ℕ)
      (defs : List Unique) (s : State) {t : State}
      → get a.0 s.defs ≡ some defs
      → row_at a.1 (tables a.0) ≡ some v
      → insert raw_value path_value prefix a v defs s ≡ ok t
      → Covers tables (a ∷ pending) s
      → Covers tables pending t
  unfolding insert
  insert-Covers tables pending a v defs s d r h c =
      let (ks, hk, h1) = >>=-eq-ok (row_keys raw_value path_value prefix a.0 v defs) _ h in
      let (m, hm, e) = >>=-eq-ok (claim a.1 ks s.keys) _ h1 in
      subst (Covers tables pending) (ok-injective e) (record {
        rows_owned = λ b w ds ls db rb p hb.
            covered ks m hk hm b w ds ls db rb p hb (Bool-cases (pair_same a b));
      })
    where
      covered :
          (ks : List (List ℕ)) (m : List (List ℕ × Text))
          → row_keys raw_value path_value prefix a.0 v defs ≡ ok ks
          → claim a.1 ks s.keys ≡ ok m
          → (b : Text × Text) (w : List ℕ) (ds : List Unique) (ls : List (List ℕ))
          → get b.0 s.defs ≡ some ds
          → row_at b.1 (tables b.0) ≡ some w
          → has b pending ≡ false
          → row_keys raw_value path_value prefix b.0 w ds ≡ ok ls
          → (pair_same a b ≡ true) ⊎ (pair_same a b ≡ false)
          → All (Owned b m) ls
      covered ks m hk hm b w ds ls db rb p hb (inr ne) =
          All-map _ _ ls (λ k o. (claim_keeps a.1 b.1 k ks s.keys hm o.0, o.1))
            (c.rows_owned b w ds ls db rb (unfold has in rw ne p) hb)
      covered ks m hk hm b w ds ls db rb p hb (inl same) =
          let one : a ≡ b = (pair_same_iff a b).0 same in
          let rows : row_at a.1 (tables a.0) ≡ some w =
            subst (λ x. row_at x.1 (tables x.0) ≡ some w) (sym one) rb in
          let stored : get a.0 s.defs ≡ some ds =
            subst (λ x. get x.0 s.defs ≡ some ds) (sym one) db in
          let value : v ≡ w = some-eq (sym r ∙ rows) in
          let definitions : defs ≡ ds = some-eq (sym d ∙ stored) in
          let one_keys : ks ≡ ls = ok-injective (
            sym hk
            ∙ (ap (λ x. row_keys raw_value path_value prefix a.0 x defs) value
                ∙ (ap (row_keys raw_value path_value prefix a.0 w) definitions
                    ∙ (ap (λ x. row_keys raw_value path_value prefix x.0 w ds) one ∙ hb)))) in
          subst (λ x. All (Owned x m) ls) one
            (subst (All (Owned a m)) one_keys (
              All-both _ _ (Owned a m) ks (λ k x y. (x, y)) (claim_owns a.1 ks s.keys hm)
                (row_keys-IsOf raw_value path_value prefix a.0 v defs hk)))
