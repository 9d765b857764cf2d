-- ===== src/IdContract/Laws.antt =====
-- What the checks of row identities establish.
use clove1db.Prelude.{
  ℕ, zero, suc, ◌≡◌, refl, sym, ◌∙◌, ap, Bool, true, false, List, [], ◌∷◌, Option, none, some,
  list_eq, list_eq_iff, get_elem?, if◌then◌else◌, All,
}
use mathlib.Core.Path.{subst}
use clove1db.Prelude.Bytes.{Text}
use clove1db.Prelude.Results.{
  Result, ok, id_field_mismatch, validation, ◌>>◌, guard, guard-ok, >>=-eq-ok,
}
use clove1db.Journal.Row.{ChangeKind, upsert, table_reset}
use clove1db.IdContract.{
  FieldPath, Defs, Tables, lookup, store, is_same, is_key, is_scalar, is_configured, drop_obsolete,
  check, check_rows, configure_one, configure_all, configure, check_with, check_stored,
  check_effect, check_effects, validate,
}
use clove1db.IdContract.Stored.{lookup-store, lookup-drop_obsolete}

defs-eq : (a b : Defs) → Result.ok a ≡ ok b → a ≡ b
defs-eq a b e = cc

-- The rows that an effect puts into a table: the one it names, or all of its snapshot.
pub data Writes (tables : Tables) : ChangeKind → Text → Text × List ℕ → Type 0 where
  puts :
      (table key : Text) (value : List ℕ)
      → Writes tables (upsert table key value) table (key, value)
  resets :
      (table snapshot : Text) (row : Text × List ℕ) (n : ℕ)
      → get_elem? (tables snapshot) n ≡ some row
      → Writes tables (table_reset table snapshot) table row

at-All :
    {A : Type 0} (P : A → Type 0) (l : List A) (n : ℕ) (x : A)
    → All P l
    → get_elem? l n ≡ some x
    → P x
at-All P [] n x a h = cc
at-All P (y ∷ l) zero x a h = subst P (cc h) a.0
at-All P (y ∷ l) (suc n) x a h = at-All P l n x a.1 h

module _ (string_at : List ℕ → FieldPath → Result (Option Text)) (encode_path : FieldPath → List ℕ)
    (decode_path : List ℕ → Result FieldPath) where
  -- The string at the path is the key.
  abbrev pub HasId : FieldPath → Text × List ℕ → Type 0
  HasId path row = string_at row.1 path ≡ ok (some row.0)

  key-eq : (o : Option Text) (key : Text) → is_key o key ≡ true → o ≡ some key
  key-eq none key h = cc
  key-eq (some id) key h = ap some ((list_eq_iff id key).0 h)

  check-HasId :
      (path : FieldPath) (key : Text) (bytes : List ℕ)
      → check string_at encode_path decode_path path key bytes ≡ ok tt
      → HasId path (key, bytes)
  unfolding check
  check-HasId path key bytes h =
      let (v, hv, hg) = >>=-eq-ok (string_at bytes path) _ h in
      hv ∙ ap ok (key-eq v key (guard-ok (is_key v key) id_field_mismatch tt hg))

  check_rows-HasId :
      (path : FieldPath) (rows : List (Text × List ℕ))
      → check_rows string_at encode_path decode_path path rows ≡ ok tt
      → All (HasId path) rows
  unfolding check_rows
  check_rows-HasId path [] h = tt
  check_rows-HasId path ((k, v) ∷ rows) h =
      let (x, hx, hr) = >>=-eq-ok (check string_at encode_path decode_path path k v) _ h in
      (check-HasId path k v hx, check_rows-HasId path rows hr)

  upsert-check :
      (tables : Tables) (defs : Defs) (table key : Text) (value stored : List ℕ) (path : FieldPath)
      → lookup table defs ≡ some stored
      → decode_path stored ≡ ok path
      → check_effect string_at encode_path decode_path tables defs (upsert table key value)
        ≡ check string_at encode_path decode_path path key value
  unfolding check_effect check_stored check_with
  upsert-check tables defs table key value stored path l d = rw l (rw d refl)

  reset-check :
      (tables : Tables) (defs : Defs) (table snapshot : Text) (stored : List ℕ) (path : FieldPath)
      → lookup table defs ≡ some stored
      → decode_path stored ≡ ok path
      → check_effect string_at encode_path decode_path tables defs (table_reset table snapshot)
        ≡ check_rows string_at encode_path decode_path path (tables snapshot)
  unfolding check_effect check_stored check_with
  reset-check tables defs table snapshot stored path l d = rw l (rw d refl)

  effect-HasId :
      (tables : Tables) (defs : Defs) (effect : ChangeKind) (table : Text) (row : Text × List ℕ)
      (stored : List ℕ) (path : FieldPath)
      → check_effect string_at encode_path decode_path tables defs effect ≡ ok tt
      → Writes tables effect table row
      → lookup table defs ≡ some stored
      → decode_path stored ≡ ok path
      → HasId path row
  effect-HasId tables defs _ _ _ stored path h (puts table key value) l d =
      check-HasId path key value
        (sym (upsert-check tables defs table key value stored path l d) ∙ h)
  effect-HasId tables defs _ _ _ stored path h (resets table snapshot row n at) l d =
      at-All (HasId path) (tables snapshot) n row
        (check_rows-HasId path (tables snapshot)
          (sym (reset-check tables defs table snapshot stored path l d) ∙ h))
        at

  -- Every effect of the list was checked.
  effects-checked :
      (tables : Tables) (defs : Defs) (effects : List ChangeKind)
      → check_effects string_at encode_path decode_path tables defs effects ≡ ok tt
      → All (λ c. check_effect string_at encode_path decode_path tables defs c ≡ ok tt) effects
  unfolding check_effects
  effects-checked tables defs [] h = tt
  effects-checked tables defs (effect ∷ effects) h =
      let (x, hx, hr) =
        >>=-eq-ok (check_effect string_at encode_path decode_path tables defs effect) _ h in
      (hx, effects-checked tables defs effects hr)

  defs-checked :
      (tables : Tables) (defs : Defs) (effects : List ChangeKind) (table : Text) (stored : List ℕ)
      → lookup table defs ≡ some stored
      → validate string_at encode_path decode_path tables defs effects ≡ ok tt
      → check_effects string_at encode_path decode_path tables defs effects ≡ ok tt
  unfolding validate lookup
  defs-checked tables [] effects table stored l h = cc
  defs-checked tables (d ∷ defs) effects table stored l h = h

  -- Where `validate` accepts the effects of a transaction, every row that one of them puts into a
  -- table with a stored definition that decodes has its key at the definition's path: the row of an
  -- upsert, and each row of the snapshot that a table reset takes.
  pub validate-HasId :
      (tables : Tables) (defs : Defs) (effects : List ChangeKind) (i : ℕ) (effect : ChangeKind)
      (table : Text) (row : Text × List ℕ) (stored : List ℕ) (path : FieldPath)
      → validate string_at encode_path decode_path tables defs effects ≡ ok tt
      → get_elem? effects i ≡ some effect
      → Writes tables effect table row
      → lookup table defs ≡ some stored
      → decode_path stored ≡ ok path
      → HasId path row
  validate-HasId tables defs effects i effect table row stored path h g w l d =
      effect-HasId tables defs effect table row stored path
        (at-All (λ c. check_effect string_at encode_path decode_path tables defs c ≡ ok tt) effects
          i effect
          (effects-checked tables defs effects (defs-checked tables defs effects table stored l h))
          g)
        w l d

  -- Every stored definition holds of every row of its table.
  pub record Holds (tables : Tables) (defs : Defs) : Type 0 where
    pub rows_have :
        (table : Text) (stored : List ℕ) (path : FieldPath)
        → lookup table defs ≡ some stored
        → decode_path stored ≡ ok path
        → All (HasId path) (tables table)

  store-Holds :
      (tables : Tables) (defs : Defs) (table : Text) (path : FieldPath)
      → decode_path (encode_path path) ≡ ok path
      → All (HasId path) (tables table)
      → Holds tables defs
      → Holds tables (store table (encode_path path) defs)
  store-Holds tables defs table path law rows h = record {
    rows_have = λ t stored p l d.
        go t stored p (list_eq table t) refl
          (sym (lookup-store t table (encode_path path) defs) ∙ l) d;
  }
    where
      bytes-eq : (a b : List ℕ) → some a ≡ some b → a ≡ b
      bytes-eq a b e = cc

      path-eq : (p q : FieldPath) → Result.ok p ≡ ok q → p ≡ q
      path-eq p q e = cc

      go :
          (t : Text) (stored : List ℕ) (p : FieldPath) (b : Bool)
          → list_eq table t ≡ b
          → (if list_eq table t then some (encode_path path) else lookup t defs) ≡ some stored
          → decode_path stored ≡ ok p
          → All (HasId p) (tables t)
      go t stored p true eb l d =
          let same : encode_path path ≡ stored =
            bytes-eq (encode_path path) stored
              (sym (ap (λ x. if x then some (encode_path path) else lookup t defs) eb) ∙ l) in
          subst (λ q. All (HasId q) (tables t)) (path-eq path p (sym law ∙ ap decode_path same ∙ d))
            (subst (λ u. All (HasId path) (tables u)) ((list_eq_iff table t).0 eb) rows)
      go t stored p false eb l d =
          h.rows_have t stored p
            (sym (ap (λ x. if x then some (encode_path path) else lookup t defs) eb) ∙ l) d

  configure_one-Holds :
      (tables : Tables) (table : Text) (path : FieldPath) (defs next : Defs)
      → decode_path (encode_path path) ≡ ok path
      → Holds tables defs
      → configure_one string_at encode_path decode_path tables table path defs ≡ ok next
      → Holds tables next
  unfolding configure_one
  configure_one-Holds tables table path defs next law h e =
      let (x, hg, e1) =
        >>=-eq-ok
          (guard (is_scalar path) (validation "id_field requires an untransformed scalar path")) _
          e in
      go (is_same (lookup table defs) (encode_path path)) e1
    where
      go :
          (b : Bool)
          → (if b
              then ok defs
              else (check_rows string_at encode_path decode_path path (tables table)
                  >> ok (store table (encode_path path) defs)))
            ≡ ok next
          → Holds tables next
      go true e1 = subst (Holds tables) (defs-eq defs next e1) h
      go false e1 =
          let (y, hr, e2) =
            >>=-eq-ok (check_rows string_at encode_path decode_path path (tables table)) _ e1 in
          subst (Holds tables) (defs-eq (store table (encode_path path) defs) next e2)
            (store-Holds tables defs table path law (check_rows-HasId path (tables table) hr) h)

  configure_all-Holds :
      (tables : Tables) (configured : List (Text × FieldPath)) (defs next : Defs)
      → All (λ c. decode_path (encode_path c.1) ≡ ok c.1) configured
      → Holds tables defs
      → configure_all string_at encode_path decode_path tables configured defs ≡ ok next
      → Holds tables next
  unfolding configure_all
  configure_all-Holds tables [] defs next law h e = subst (Holds tables) (defs-eq defs next e) h
  configure_all-Holds tables ((table, path) ∷ rest) defs next law h e =
      let (one, h1, h2) =
        >>=-eq-ok (configure_one string_at encode_path decode_path tables table path defs) _ e in
      configure_all-Holds tables rest one next law.1
        (configure_one-Holds tables table path defs one law.0 h h1) h2

  -- Where the configured paths read back as what was stored, and the definitions held of the rows, a
  -- configuration that is accepted leaves definitions that hold of the rows, and only for tables
  -- that it names.
  pub configure-Holds :
      (tables : Tables) (configured : List (Text × FieldPath)) (defs next : Defs)
      → All (λ c. decode_path (encode_path c.1) ≡ ok c.1) configured
      → Holds tables defs
      → configure string_at encode_path decode_path tables configured defs ≡ ok next
      → Holds tables next
        × ((table : Text) → is_configured table configured ≡ false → lookup table next ≡ none)
  unfolding configure
  configure-Holds tables configured defs next law h e =
      let (all, h1, h2) =
        >>=-eq-ok (configure_all string_at encode_path decode_path tables configured defs) _ e in
      let kept = configure_all-Holds tables configured defs all law h h1 in
      subst
        (λ n.
          Holds tables n
          × ((table : Text) → is_configured table configured ≡ false → lookup table n ≡ none))
        (defs-eq (drop_obsolete configured all) next h2)
        (
          record {
            rows_have = λ t stored p l d.
                kept.rows_have t stored p
                  (still t stored all (is_configured t configured)
                    (sym (lookup-drop_obsolete t configured all) ∙ l))
                  d;
          },
          (λ t f. lookup-drop_obsolete t configured all ∙ rw f),
        )
    where
      still :
          (t : Text) (stored : List ℕ) (all : Defs) (b : Bool)
          → (if b then lookup t all else none) ≡ some stored
          → lookup t all ≡ some stored
      still t stored all true l = l
      still t stored all false l = cc
