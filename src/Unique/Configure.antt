-- ===== src/Unique/Configure.antt =====
-- `configure` puts the tables of keys in step with the rows.
use clove1db.Prelude.{
  ℕ, ◌≡◌, refl, sym, ◌∙◌, ap, Bool, true, false, List, [], ◌∷◌, none, some, All, inl, inr, ◌==◌,
  Bool-cases, contradict, if◌then◌else◌, list_eq, list_eq_iff, list_eq_refl,
}
use mathlib.Core.Path.{subst}
use clove1db.Prelude.Bytes.{Text}
use clove1db.Prelude.Options.{none-ne}
use clove1db.Prelude.Dict.{has, get, put, remove as erase, text_eq, pair_eq, get-put, get-remove}
use clove1db.Prelude.Results.{Result, ok, >>=-eq-ok, ok-injective, guard}
use clove1db.Values.{Value}
use clove1db.IdContract.{FieldPath, Tables}
use clove1db.Unique.{
  Unique, State, row_at, has_defs, clear, claim, row_keys, insert, all_keys, insert_rows,
  is_unchanged, check_defs, drop_old, rebuild, configure_all, groups, count_keys,
}
use clove1db.Unique.Steps.{IsDelimited, insert-InStep, insert-Covers}
use clove1db.Unique.Validate.{Stands, clear_rows-Stands, if-both, defs-insert}

-- Each row is found under its name.
abbrev pub IsTable : List (Text × List ℕ) → Type 0
IsTable rows = All (λ kv. row_at kv.0 rows ≡ some kv.1) rows

unfoldable names : Text → List (Text × List ℕ) → List (Text × Text)
names table [] = []
names table ((k, v) ∷ rows) = (table, k) ∷ names table rows

has-names :
    (table row : Text) (rows : List (Text × List ℕ)) {v : List ℕ}
    → row_at row rows ≡ some v
    → has (table, row) (names table rows) ≡ true
unfolding has names row_at
has-names table row [] h = absurd (none-ne h)
has-names table row ((k, w) ∷ rows) h = elim (Bool-cases (list_eq k row)) [
  | inl e ↦ rw (list_eq_refl table, e) refl
  | inr ne ↦ rw (list_eq_refl table, ne) (has-names table row rows (rw ne at h))
]

names-other :
    (b : Text × Text) (table : Text) (rows : List (Text × List ℕ))
    → list_eq table b.0 ≡ false
    → has b (names table rows) ≡ false
unfolding has names
names-other b table [] h = refl
names-other b table ((k, w) ∷ rows) h = rw (h, names-other b table rows h) refl

module _ (raw_value : Text → Result Text) (path_value : List ℕ → FieldPath → Result Value)
    (prefix : Text → ℕ → List ℕ) where
  -- With other definitions: nothing but the stored definitions differs.
  insert-defs :
      (a : Text × Text) (v : List ℕ) (defs : List Unique) (s : State) {t : State}
      (new : List (Text × List Unique))
      → insert raw_value path_value prefix a v defs s ≡ ok t
      → insert raw_value path_value prefix a v defs (record s { defs = new })
        ≡ ok (record t { defs = new })
  unfolding insert
  insert-defs a v defs s new h =
      let (ks, hk, h1) = >>=-eq-ok (row_keys raw_value path_value prefix a.0 v defs) _ h in
      let (m, hm, e) = >>=-eq-ok (claim a.1 ks s.keys) _ h1 in
      rw (hk, hm) (ap (λ (t : State). ok (record t { defs = new })) (ok-injective e))

  insert_rows-defs :
      (table : Text) (defs : List Unique) (rows : List (Text × List ℕ)) (s : State) {t : State}
      (new : List (Text × List Unique))
      → insert_rows raw_value path_value prefix table defs rows s ≡ ok t
      → insert_rows raw_value path_value prefix table defs rows (record s { defs = new })
        ≡ ok (record t { defs = new })
  unfolding insert_rows
  insert_rows-defs table defs [] s new h =
      ap (λ (t : State). ok (record t { defs = new })) (ok-injective h)
  insert_rows-defs table defs ((k, v) ∷ rows) s new h =
      let (u, hu, h1) = >>=-eq-ok (insert raw_value path_value prefix (table, k) v defs s) _ h in
      rw (insert-defs (table, k) v defs s new hu) (insert_rows-defs table defs rows u new h1)

  insert_rows-Stands :
      (tables : Tables) (table : Text) (defs : List Unique) (rows : List (Text × List ℕ))
      (s : State) {t : State}
      → get table s.defs ≡ some defs
      → All (λ kv. row_at kv.0 (tables table) ≡ some kv.1) rows
      → insert_rows raw_value path_value prefix table defs rows s ≡ ok t
      → Stands raw_value path_value prefix tables (names table rows) s
      → Stands raw_value path_value prefix tables [] t
  unfolding insert_rows names
  insert_rows-Stands tables table defs [] s d rs h i =
      subst (Stands raw_value path_value prefix tables []) (ok-injective h) i
  insert_rows-Stands tables table defs ((k, v) ∷ rows) s d rs h i =
      let (u, hu, h1) = >>=-eq-ok (insert raw_value path_value prefix (table, k) v defs s) _ h in
      insert_rows-Stands tables table defs rows u
        (ap (get table) (defs-insert raw_value path_value prefix (table, k) v defs s hu) ∙ d) rs.1
        h1
        (
          insert-InStep raw_value path_value prefix (table, k) v defs s hu i.0,
          insert-Covers raw_value path_value prefix tables (names table rows) (table, k) v defs s d
              rs.0 hu i.1,
        )

  pub defs-insert_rows :
      (table : Text) (defs : List Unique) (rows : List (Text × List ℕ)) (s : State) {t : State}
      → insert_rows raw_value path_value prefix table defs rows s ≡ ok t
      → t.defs ≡ s.defs
  unfolding insert_rows
  defs-insert_rows table defs [] s h = sym (ap State.defs (ok-injective h))
  defs-insert_rows table defs ((k, v) ∷ rows) s h =
      let (u, hu, h1) = >>=-eq-ok (insert raw_value path_value prefix (table, k) v defs s) _ h in
      defs-insert_rows table defs rows u h1
      ∙ defs-insert raw_value path_value prefix (table, k) v defs s hu

  -- All rows of a table become pending.
  more_pending :
      (tables : Tables) (l : List (Text × Text)) (s : State)
      → Stands raw_value path_value prefix tables [] s
      → Stands raw_value path_value prefix tables l s
  more_pending tables l s h = (
    h.0,
    record {
      rows_owned = λ b v defs ks d r p hk. h.1.rows_owned b v defs ks d r (unfold has in refl) hk;
    },
  )

  -- Where all rows of a table are pending its definitions do not matter.
  other_defs :
      (tables : Tables) (table : Text) (s : State) (new : List (Text × List Unique))
      → ((u : Text) (defs : List Unique)
          → list_eq table u ≡ false
          → get u new ≡ some defs
          → get u s.defs ≡ some defs)
      → Stands raw_value path_value prefix tables (names table (tables table)) s
      → Stands raw_value path_value prefix tables
          (names table (tables table))
          (record s { defs = new })
  other_defs tables table s new same h = (
    record { reverse_owned = h.0.reverse_owned },
    record {
      rows_owned = λ b v defs ks d r p hk.
          h.1.rows_owned b v defs ks (same b.0 defs (differs b v r p) d) r p hk;
    },
  )
    where
      differs :
          (b : Text × Text) (v : List ℕ)
          → row_at b.1 (tables b.0) ≡ some v
          → has b (names table (tables table)) ≡ false
          → list_eq table b.0 ≡ false
      differs b v r p = elim (Bool-cases (list_eq table b.0)) [
        | inl e ↦
            let one : table ≡ b.0 = (list_eq_iff table b.0).0 e in
            absurd (
              contradict
                (has-names table b.1 (tables table)
                  (subst (λ u. row_at b.1 (tables u) ≡ some v) (sym one) r))
                (subst (λ u. has (u, b.1) (names table (tables table)) ≡ false) (sym one) p))
        | inr ne ↦ ne
      ]

  -- A table whose definitions are gone has no row to check.
  no_rows_pending :
      (tables : Tables) (table : Text) (s : State)
      → get table s.defs ≡ none
      → Stands raw_value path_value prefix tables (names table (tables table)) s
      → Stands raw_value path_value prefix tables [] s
  no_rows_pending tables table s gone h = (
    h.0,
    record {
      rows_owned = λ b v defs ks d r p hk.
          h.1.rows_owned b v defs ks d r (names-other b table (tables table) (differs b d)) hk;
    },
  )
    where
      differs :
          (b : Text × Text) {defs : List Unique}
          → get b.0 s.defs ≡ some defs
          → list_eq table b.0 ≡ false
      differs b d = elim (Bool-cases (list_eq table b.0)) [
        | inl e ↦
            absurd (none-ne (sym gone ∙ (ap (λ u. get u s.defs) ((list_eq_iff table b.0).0 e) ∙ d)))
        | inr ne ↦ ne
      ]

  module _ (delimited : IsDelimited raw_value path_value prefix) where
    clear-Stands :
        (tables : Tables) (table : Text) (s : State)
        → Stands raw_value path_value prefix tables [] s
        → Stands raw_value path_value prefix tables (names table (tables table)) (clear table s)
    unfolding clear
    clear-Stands tables table s h =
        clear_rows-Stands raw_value path_value prefix delimited tables (names table (tables table))
          table s.reverse s (λ row v r. has-names table row (tables table) r)
          (more_pending tables (names table (tables table)) s h)

    rebuild-Stands :
        (tables : Tables) (table : Text) (defs : List Unique) (s : State) {t : State}
        → IsTable (tables table)
        → rebuild raw_value path_value prefix tables table defs s ≡ ok t
        → Stands raw_value path_value prefix tables [] s
        → Stands raw_value path_value prefix tables [] t
    unfolding rebuild clear
    rebuild-Stands tables table defs s rs h i =
        let (ks, hk, h1) =
          >>=-eq-ok (all_keys raw_value path_value prefix table defs (tables table)) _ h in
        let (x, hg, h2) = >>=-eq-ok (guard (groups (count_keys ks []) == 0) _) _ h1 in
        let (u, hu, e) =
          >>=-eq-ok
            (insert_rows raw_value path_value prefix table defs (tables table) (clear table s)) _
            h2 in
        subst (Stands raw_value path_value prefix tables []) (ok-injective e) (
          insert_rows-Stands tables table defs (tables table)
            (record (clear table s) { defs = put table defs u.defs })
            (get-put table table defs u.defs ∙ rw (list_eq_refl table) refl) rs
            (insert_rows-defs table defs (tables table) (clear table s) (put table defs u.defs) hu)
            (other_defs tables table (clear table s) (put table defs u.defs)
              (λ v ds ne g.
                subst (λ l. get v l ≡ some ds)
                  (defs-insert_rows table defs (tables table) (clear table s) hu)
                  (rw ne at (sym (get-put table v defs u.defs) ∙ g)))
              (clear-Stands tables table s i)))

    drop_one-Stands :
        (tables : Tables) (table : Text) (s : State)
        → Stands raw_value path_value prefix tables [] s
        → Stands raw_value path_value prefix tables []
            (record (clear table s) { defs = erase table (clear table s).defs })
    drop_one-Stands tables table s h =
        no_rows_pending tables table
          (record (clear table s) { defs = erase table (clear table s).defs })
          (get-remove table table (clear table s).defs ∙ rw (list_eq_refl table) refl)
          (other_defs tables table (clear table s) (erase table (clear table s).defs)
            (λ v ds ne g. rw ne at (sym (get-remove table v (clear table s).defs) ∙ g))
            (clear-Stands tables table s h))

    pub drop_old-Stands :
        (tables : Tables) (configured old : List (Text × List Unique)) (s : State)
        → Stands raw_value path_value prefix tables [] s
        → Stands raw_value path_value prefix tables []
            (drop_old raw_value path_value prefix configured old s)
    unfolding drop_old
    drop_old-Stands tables configured [] s h = h
    drop_old-Stands tables configured ((table, d) ∷ old) s h =
        drop_old-Stands tables configured old _ (
          if-both (Stands raw_value path_value prefix tables []) (has_defs table configured) s _
            (λ e. h) (drop_one-Stands tables table s h))

    pub configure_all-Stands :
        (tables : Tables) (old rest : List (Text × List Unique)) (s : State) {t : State}
        → ((u : Text) → IsTable (tables u))
        → configure_all raw_value path_value prefix tables old rest s ≡ ok t
        → Stands raw_value path_value prefix tables [] s
        → Stands raw_value path_value prefix tables [] t
    unfolding configure_all
    configure_all-Stands tables old [] s rs h i =
        subst (Stands raw_value path_value prefix tables []) (ok-injective h) i
    configure_all-Stands tables old ((table, defs) ∷ rest) s rs h i =
        let (x, hx, h1) = >>=-eq-ok (check_defs raw_value path_value prefix defs) _ h in
        let (u, hu, h2) =
          >>=-eq-ok
            (if is_unchanged raw_value path_value prefix table defs old
              then ok s
              else rebuild raw_value path_value prefix tables table defs s)
            _ h1 in
        configure_all-Stands tables old rest u rs h2
          (stepped (is_unchanged raw_value path_value prefix table defs old) u hu)
      where
        stepped :
            (b : Bool) (u : State)
            → (if b then ok s else rebuild raw_value path_value prefix tables table defs s) ≡ ok u
            → Stands raw_value path_value prefix tables [] u
        stepped true u e = subst (Stands raw_value path_value prefix tables []) (ok-injective e) i
        stepped false u e = rebuild-Stands tables table defs s (rs table) e i
