-- ===== src/Unique/Validate.antt =====
-- `validate` keeps the tables of keys in step with the rows, and no two rows share a key.
use clove1db.Prelude.{
  ℕ, ◌≡◌, refl, sym, ◌∙◌, ap, Bool, true, false, List, [], ◌∷◌, Option, none, some, inl, inr, ◌||◌,
  Bool-cases, Option-cases, contradict, if◌then◌else◌, list_eq, list_eq_iff, list_eq_refl, arith,
}
use mathlib.Core.Path.{subst}
use clove1db.Prelude.Bytes.{Text}
use clove1db.Prelude.Options.{some-eq, none-ne}
use clove1db.Prelude.Dict.{has, get, text_eq, pair_eq, pair_same, pair_same_iff, same_refl}
use clove1db.Prelude.Results.{Result, ok, >>=-eq-ok, ok-injective}
use clove1db.Values.{Value}
use clove1db.Journal.Row.{ChangeKind}
use clove1db.IdContract.{FieldPath, Tables}
use clove1db.Unique.{
  Unique, State, row_at, is_nil, remove, clear_rows, clear, changed_rows, resets, clear_resets,
  remove_all, claim, row_keys, insert, insert_value, insert_row, insert_changed, validate,
}
use clove1db.Unique.Keys.{All-has}
use clove1db.Unique.Changed.{
  names_row, names_table, changed_rows-named, resets-named, clear_resets-has, clear_resets-row,
}
use clove1db.Unique.Steps.{
  InStep, Covers, IsDelimited, remove-InStep, remove-Covers, insert-InStep, insert-Covers,
}

defs-remove : (a : Text × Text) (s : State) → (remove a s).defs ≡ s.defs
unfolding remove
defs-remove a s = elim (Option-cases (get a s.reverse)) [
  | inl e ↦ rw e refl
  | inr (old, e) ↦ rw e refl
]

-- What holds on either branch of a test.
pub if-both {ℓ κ} :
    {A : Type ℓ} (P : A → Type κ) (b : Bool) (x y : A)
    → (b ≡ true → P x)
    → P y
    → P (if b then x else y)
if-both P true x y f p = f refl
if-both P false x y f p = p

pub defs-clear_rows :
    (table : Text) (entries : List ((Text × Text) × List (List ℕ))) (s : State)
    → (clear_rows table entries s).defs ≡ s.defs
unfolding clear_rows
defs-clear_rows table [] s = refl
defs-clear_rows table ((at, ks) ∷ entries) s =
    defs-clear_rows table entries (if list_eq at.0 table then remove at s else s)
    ∙ if-both (λ (t : State). t.defs ≡ s.defs) (list_eq at.0 table) (remove at s) s
        (λ e. defs-remove at s) refl

pub defs-clear_resets :
    (tables : Tables) (ts : List Text) (acc : State × List (Text × Text))
    → (clear_resets tables ts acc).0.defs ≡ acc.0.defs
unfolding clear_resets clear
defs-clear_resets tables [] acc = refl
defs-clear_resets tables (t ∷ ts) acc =
    defs-clear_resets tables ts _ ∙ defs-clear_rows t acc.0.reverse acc.0

pub defs-remove_all : (l : List (Text × Text)) (s : State) → (remove_all l s).defs ≡ s.defs
unfolding remove_all
defs-remove_all [] s = refl
defs-remove_all (a ∷ l) s = defs-remove_all l (remove a s) ∙ defs-remove a s

module _ (raw_value : Text → Result Text) (path_value : List ℕ → FieldPath → Result Value)
    (prefix : Text → ℕ → List ℕ) where
  -- The tables of keys are in step with the rows, but for pending ones.
  abbrev pub Stands : Tables → List (Text × Text) → State → Type 0
  Stands tables pending s =
      InStep raw_value path_value prefix s × Covers raw_value path_value prefix tables pending s

  -- The rows of the table are pending, where there are any.
  abbrev pub AllPending : Tables → List (Text × Text) → Text → Type 0
  AllPending tables pending t =
      (row : Text) (v : List ℕ) → row_at row (tables t) ≡ some v → has (t, row) pending ≡ true

  module _ (delimited : IsDelimited raw_value path_value prefix) where
    remove-Stands :
        (tables : Tables) (pending : List (Text × Text)) (a : Text × Text) (s : State)
        → ((v : List ℕ) → row_at a.1 (tables a.0) ≡ some v → has a pending ≡ true)
        → Stands tables pending s
        → Stands tables pending (remove a s)
    remove-Stands tables pending a s named h = (
      remove-InStep raw_value path_value prefix delimited a s h.0,
      remove-Covers raw_value path_value prefix delimited tables pending a s named h.0 h.1,
    )

    pub clear_rows-Stands :
        (tables : Tables) (pending : List (Text × Text)) (table : Text)
        (entries : List ((Text × Text) × List (List ℕ))) (s : State)
        → AllPending tables pending table
        → Stands tables pending s
        → Stands tables pending (clear_rows table entries s)
    unfolding clear_rows
    clear_rows-Stands tables pending table [] s p h = h
    clear_rows-Stands tables pending table ((at, ks) ∷ entries) s p h =
        clear_rows-Stands tables pending table entries
          (if list_eq at.0 table then remove at s else s) p
          (if-both (Stands tables pending) (list_eq at.0 table) (remove at s) s
            (λ e.
              remove-Stands tables pending at s (λ v r. named ((list_eq_iff at.0 table).0 e) v r) h)
            h)
      where
        named :
            at.0 ≡ table → (v : List ℕ) → row_at at.1 (tables at.0) ≡ some v → has at pending ≡ true
        named e v r =
            subst (λ t. has (t, at.1) pending ≡ true) (sym e)
              (p at.1 v (subst (λ t. row_at at.1 (tables t) ≡ some v) e r))

    clear_resets-Stands :
        (tables : Tables) (pending : List (Text × Text)) (ts : List Text)
        (acc : State × List (Text × Text))
        → ((t : Text) → has t ts ≡ true → AllPending tables pending t)
        → Stands tables pending acc.0
        → Stands tables pending (clear_resets tables ts acc).0
    unfolding clear_resets clear
    clear_resets-Stands tables pending [] acc p h = h
    clear_resets-Stands tables pending (t ∷ ts) acc p h =
        clear_resets-Stands tables pending ts _ (λ u hu. p u (unfold has in ground (arith, hu)))
          (clear_rows-Stands tables pending t acc.0.reverse acc.0
            (p t (unfold has in rw (list_eq_refl t) refl)) h)

    remove_all-Stands :
        (tables : Tables) (pending l : List (Text × Text)) (s : State)
        → ((a : Text × Text) → has a l ≡ true → has a pending ≡ true)
        → Stands tables pending s
        → Stands tables pending (remove_all l s)
    unfolding remove_all
    remove_all-Stands tables pending [] s p h = h
    remove_all-Stands tables pending (a ∷ l) s p h =
        remove_all-Stands tables pending l (remove a s)
          (λ b hb. p b (unfold has in ground (arith, hb)))
          (remove-Stands tables pending a s (λ v r. p a (unfold has in rw (same_refl a) refl)) h)

  -- A row that is not there has no keys to enter.
  absent-Covers :
      (tables : Tables) (pending : List (Text × Text)) (a : Text × Text) (s : State)
      → row_at a.1 (tables a.0) ≡ none
      → Covers raw_value path_value prefix tables (a ∷ pending) s
      → Covers raw_value path_value prefix tables pending s
  absent-Covers tables pending a s r c = record {
    rows_owned = λ b v defs ks d rb p hk.
        c.rows_owned b v defs ks d rb (unfold has in rw (apart b v rb) p) hk;
  }
    where
      apart :
          (b : Text × Text) (v : List ℕ) → row_at b.1 (tables b.0) ≡ some v → pair_same a b ≡ false
      apart b v rb = elim (Bool-cases (pair_same a b)) [
        | inl same ↦ absurd (
            none-ne (
              sym r
              ∙ subst (λ x. row_at x.1 (tables x.0) ≡ some v) (sym ((pair_same_iff a b).0 same))
                  rb))
        | inr ne ↦ ne
      ]

  pub defs-insert :
      (a : Text × Text) (v : List ℕ) (defs : List Unique) (s : State) {t : State}
      → insert raw_value path_value prefix a v defs s ≡ ok t
      → t.defs ≡ s.defs
  unfolding insert
  defs-insert a v defs s h =
      let (ks, hk, h1) = >>=-eq-ok (row_keys raw_value path_value prefix a.0 v defs) _ h in
      let (m, hm, e) = >>=-eq-ok (claim a.1 ks s.keys) _ h1 in sym (ap State.defs (ok-injective e))

  insert_value-Stands :
      (tables : Tables) (pending : List (Text × Text)) (a : Text × Text) (defs : List Unique)
      (o : Option (List ℕ)) (s : State) {t : State}
      → get a.0 s.defs ≡ some defs
      → row_at a.1 (tables a.0) ≡ o
      → insert_value raw_value path_value prefix a defs o s ≡ ok t
      → Stands tables (a ∷ pending) s
      → Stands tables pending t × (t.defs ≡ s.defs)
  insert_value-Stands tables pending a defs none s d r h i =
      let e : s ≡ _ = ok-injective h in
      subst (λ x. Stands tables pending x × (x.defs ≡ s.defs)) e
        ((i.0, absent-Covers tables pending a s r i.1), refl)
  insert_value-Stands tables pending a defs (some v) s d r h i = (
    (
      insert-InStep raw_value path_value prefix a v defs s h i.0,
      insert-Covers raw_value path_value prefix tables pending a v defs s d r h i.1,
    ),
    defs-insert a v defs s h,
  )

  insert_row-Stands :
      (tables : Tables) (pending : List (Text × Text)) (a : Text × Text) (o : Option (List Unique))
      (s : State) {t : State}
      → get a.0 s.defs ≡ o
      → insert_row raw_value path_value prefix tables a o s ≡ ok t
      → Stands tables (a ∷ pending) s
      → Stands tables pending t × (t.defs ≡ s.defs)
  insert_row-Stands tables pending a none s d h i = cc
  insert_row-Stands tables pending a (some defs) s d h i =
      insert_value-Stands tables pending a defs (row_at a.1 (tables a.0)) s d refl h i

  insert_changed-Stands :
      (tables : Tables) (l : List (Text × Text)) (s : State) {t : State}
      → insert_changed raw_value path_value prefix tables l s ≡ ok t
      → Stands tables l s
      → Stands tables [] t × (t.defs ≡ s.defs)
  unfolding insert_changed
  insert_changed-Stands tables [] s h i =
      subst (λ x. Stands tables [] x × (x.defs ≡ s.defs)) (ok-injective h) (i, refl)
  insert_changed-Stands tables (a ∷ l) s h i =
      let (u, hu, h1) =
        >>=-eq-ok (insert_row raw_value path_value prefix tables a (get a.0 s.defs) s) _ h in
      let (iu, du) = insert_row-Stands tables l a (get a.0 s.defs) s refl hu i in
      let (it, dt) = insert_changed-Stands tables l u h1 iu in (it, dt ∙ du)

  -- The rows that differ are all pending.
  changed-Covers :
      (old new : Tables) (effects : List ChangeKind) (s : State)
      → ((at : Text × Text)
          → (names_row at effects || names_table at.0 effects) ≡ false
          → row_at at.1 (new at.0) ≡ row_at at.1 (old at.0))
      → Covers raw_value path_value prefix old [] s
      → Covers raw_value path_value prefix new
          (clear_resets new (resets s.defs effects []) (s, changed_rows s.defs effects [])).1
          s
  changed-Covers old new effects s same c = record {
    rows_owned = λ b v defs ks d r p hk.
        c.rows_owned b v defs ks d (sym (same b (unnamed b v d r p)) ∙ r) (unfold has in refl) hk;
  }
    where
      unnamed :
          (b : Text × Text) (v : List ℕ) {defs : List Unique}
          → get b.0 s.defs ≡ some defs
          → row_at b.1 (new b.0) ≡ some v
          → has b
              (clear_resets new (resets s.defs effects []) (s, changed_rows s.defs effects [])).1
            ≡ false
          → (names_row b effects || names_table b.0 effects) ≡ false
      unnamed b v d r p = elim (Bool-cases (names_row b effects)) [
        | inl n ↦ absurd (
            contradict
              (clear_resets-has b new (resets s.defs effects []) _
                (changed_rows-named s.defs b effects [] (rw d refl) n))
              p)
        | inr n ↦ elim (Bool-cases (names_table b.0 effects)) [
          | inl m ↦ absurd (
              contradict
                (clear_resets-row b new (resets s.defs effects []) _
                  (resets-named s.defs b.0 effects [] (rw d refl) m) r)
                p)
          | inr m ↦ rw (n, m) refl
        ]
      ]

  pub nil-get : (k : Text) (l : List (Text × List Unique)) → is_nil l ≡ true → get k l ≡ none
  unfolding get
  nil-get k [] h = refl
  nil-get k (d ∷ l) h = cc

  -- Where the tables of keys are in step with the rows before a transaction, whose effects name every
  -- row that is another afterwards or replace its table, and `validate` accepts the effects: the
  -- tables of keys are in step with the rows again, and the definitions are the same.
  pub validate-Stands :
      IsDelimited raw_value path_value prefix
      → (old new : Tables) (effects : List ChangeKind) (s : State) {t : State}
      → ((at : Text × Text)
          → (names_row at effects || names_table at.0 effects) ≡ false
          → row_at at.1 (new at.0) ≡ row_at at.1 (old at.0))
      → Stands old [] s
      → validate raw_value path_value prefix new effects s ≡ ok t
      → Stands new [] t × (t.defs ≡ s.defs)
  unfolding validate
  validate-Stands delimited old new effects s {t} same h v = elim (Bool-cases (is_nil s.defs)) [
    | inl nil ↦
        subst (λ x. Stands new [] x × (x.defs ≡ s.defs)) (ok-injective (rw nil at v))
          (
            (
              h.0,
              record {
                rows_owned =
                    λ b w defs ks d r p hk. absurd (none-ne (sym (nil-get b.0 s.defs nil) ∙ d));
              },
            ),
            refl,
          )
    | inr cons ↦
        let stands =
          clear_resets-Stands delimited new start.1 (resets s.defs effects [])
            (s, changed_rows s.defs effects [])
            (λ u hu row w r. clear_resets-row (u, row) new (resets s.defs effects []) _ hu r)
            (h.0, changed-Covers old new effects s same h.1) in
        let (done, d) =
          insert_changed-Stands new start.1 (remove_all start.1 start.0) (rw cons at v)
            (remove_all-Stands delimited new start.1 start.1 start.0 (λ a p. p) stands) in
        (
          done,
          d
              ∙ (defs-remove_all start.1 start.0
                  ∙ defs-clear_resets new (resets s.defs effects []) _),
        )
  ]
    where
      start : State × List (Text × Text)
      start = clear_resets new (resets s.defs effects []) (s, changed_rows s.defs effects [])

  -- Where the tables of keys are in step with the rows before a transaction, whose effects name every
  -- row that is another afterwards or replace its table, and `validate` accepts the effects: two rows
  -- with a key in common, of a table with definitions, are afterwards one row.
  pub validate_unique :
      IsDelimited raw_value path_value prefix
      → (old new : Tables) (effects : List ChangeKind) (s t : State)
      → ((at : Text × Text)
          → (names_row at effects || names_table at.0 effects) ≡ false
          → row_at at.1 (new at.0) ≡ row_at at.1 (old at.0))
      → Stands old [] s
      → validate raw_value path_value prefix new effects s ≡ ok t
      → (table row other : Text) (v w : List ℕ) (defs : List Unique) (k : List ℕ)
        (ks ls : List (List ℕ))
      → get table s.defs ≡ some defs
      → row_at row (new table) ≡ some v
      → row_at other (new table) ≡ some w
      → row_keys raw_value path_value prefix table v defs ≡ ok ks
      → row_keys raw_value path_value prefix table w defs ≡ ok ls
      → has k ks ≡ true
      → has k ls ≡ true
      → row ≡ other
  validate_unique delimited old new effects s t same h v table row other x y defs k ks ls g rx ry hk
        hl ik il =
      let (stands, d) = validate-Stands delimited old new effects s same h v in
      let stored : get table t.defs ≡ some defs = ap (get table) d ∙ g in
      let first =
        All-has _ k ks
          (stands.1.rows_owned (table, row) x defs ks stored rx (unfold has in refl) hk) ik in
      let second =
        All-has _ k ls
          (stands.1.rows_owned (table, other) y defs ls stored ry (unfold has in refl) hl) il in
      some-eq (sym first.0 ∙ second.0)
