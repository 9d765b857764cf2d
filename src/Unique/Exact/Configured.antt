-- ===== src/Unique/Exact/Configured.antt =====
-- After `configure` the tables of keys hold the keys of the rows and nothing else (src/unique.rs).
use clove1db.Prelude.{
  ℕ, ◌≡◌, refl, sym, ◌∙◌, ap, Bool, true, false, List, [], ◌∷◌, none, some, inl, inr, All, ◌==◌,
  Bool-cases, if◌then◌else◌, list_eq, list_eq_iff, list_eq_refl,
}
use mathlib.Core.Path.{subst}
use clove1db.Prelude.Bytes.{Text}
use clove1db.Prelude.Options.{none-ne}
use clove1db.Prelude.Dict.{get, put, remove as erase, text_eq, pair_eq, get-put, get-remove}
use clove1db.Prelude.Results.{Result, ok, >>=-eq-ok, ok-injective, guard}
use clove1db.Values.{Value}
use clove1db.IdContract.{FieldPath, Tables}
use clove1db.Unique.{
  Unique, State, row_at, has_defs, clear, insert, all_keys, insert_rows, is_unchanged, check_defs,
  drop_old, rebuild, configure_all, configure, groups, count_keys,
}
use clove1db.Unique.Steps.{IsDelimited}
use clove1db.Unique.Validate.{Stands, if-both}
use clove1db.Unique.Configure.{IsTable, defs-insert_rows}
use clove1db.Unique.Configured.{IsDict, IsDistinct, defs-clear, configure-Stands}
use clove1db.Unique.Cleared.{clear-keeps, clear-gone}
use clove1db.Unique.Exact.{Entries, remove-Entries, AreUsed, remove-AreUsed, AreKeysOf, IsExact}
use clove1db.Unique.Exact.Insert.{insert-IsExact}

module _ (raw_value : Text → Result Text) (path_value : List ℕ → FieldPath → Result Value)
    (prefix : Text → ℕ → List ℕ) (tables : Tables) where
  -- The state stands with its own definitions.
  abbrev Stored : State → Type 0
  Stored s = IsExact raw_value path_value prefix tables s.defs s

  -- The stored definitions are not looked at.
  other_defs :
      (all new : List (Text × List Unique)) (s : State)
      → IsExact raw_value path_value prefix tables all s
      → IsExact raw_value path_value prefix tables all (record s { defs = new })
  other_defs all new s x = record { live = x.live; no_other = record { used = (x.no_other).used } }

  -- With a table cleared, its definitions may be any.
  clear-IsExact :
      (table : Text) (new : List (Text × List Unique)) (s : State)
      → ((u : Text) (d : List Unique)
          → list_eq table u ≡ false
          → get u s.defs ≡ some d
          → get u new ≡ some d)
      → Stored s
      → IsExact raw_value path_value prefix tables new (clear table s)
  clear-IsExact table new s same x = record {
    live = λ b ks g. still b ks g (
        clear-keeps (Entries (AreKeysOf raw_value path_value prefix tables s.defs))
          (remove-Entries (AreKeysOf raw_value path_value prefix tables s.defs)) table s x.live b ks
          g);
    no_other = clear-keeps AreUsed remove-AreUsed table s x.no_other;
  }
    where
      still :
          (b : Text × Text) (ks : List (List ℕ))
          → get b (clear table s).reverse ≡ some ks
          → AreKeysOf raw_value path_value prefix tables s.defs b ks
          → AreKeysOf raw_value path_value prefix tables new b ks
      still b ks g (v, d, gd, r, hk) = elim (Bool-cases (list_eq table b.0)) [
        | inl hit ↦
            let one : table ≡ b.0 = (list_eq_iff table b.0).0 hit in
            absurd (
              none-ne
                (sym (clear-gone b s) ∙ subst (λ u. get b (clear u s).reverse ≡ some ks) one g))
        | inr miss ↦ (v, d, same b.0 d miss gd, r, hk)
      ]

  drop_one-Stored :
      (table : Text) (s : State)
      → Stored s
      → Stored (record (clear table s) { defs = erase table (clear table s).defs })
  drop_one-Stored table s x =
      let all = erase table (clear table s).defs in
      other_defs all all (clear table s) (
        clear-IsExact table all s
          (λ u d miss g.
            get-remove table u (clear table s).defs
            ∙ (rw miss (ap (get u) (defs-clear raw_value path_value prefix table s) ∙ g)))
          x)

  drop_old-Stored :
      (configured old : List (Text × List Unique)) (s : State)
      → Stored s
      → Stored (drop_old raw_value path_value prefix configured old s)
  unfolding drop_old
  drop_old-Stored configured [] s x = x
  drop_old-Stored configured ((table, d) ∷ old) s x =
      drop_old-Stored configured old _
        (if-both Stored (has_defs table configured) s _ (λ e. x) (drop_one-Stored table s x))

  insert_rows-IsExact :
      (all : List (Text × List Unique)) (table : Text) (defs : List Unique)
      (rows : List (Text × List ℕ)) (s : State) {t : State}
      → get table all ≡ some defs
      → All (λ kv. row_at kv.0 (tables table) ≡ some kv.1) rows
      → insert_rows raw_value path_value prefix table defs rows s ≡ ok t
      → IsExact raw_value path_value prefix tables all s
      → IsExact raw_value path_value prefix tables all t
  unfolding insert_rows
  insert_rows-IsExact all table defs [] s d rs h x =
      subst (IsExact raw_value path_value prefix tables all) (ok-injective h) x
  insert_rows-IsExact all table defs ((k, v) ∷ rows) s d rs h x =
      let (u, hu, h1) = >>=-eq-ok (insert raw_value path_value prefix (table, k) v defs s) _ h in
      insert_rows-IsExact all table defs rows u d rs.1 h1
        (insert-IsExact raw_value path_value prefix tables all (table, k) v defs s d rs.0 hu x)

  rebuild-Stored :
      (table : Text) (defs : List Unique) (s : State) {t : State}
      → IsTable (tables table)
      → rebuild raw_value path_value prefix tables table defs s ≡ ok t
      → Stored s
      → Stored t
  unfolding rebuild
  rebuild-Stored table defs s rs h x =
      let (ks, hk, h1) =
        >>=-eq-ok (all_keys raw_value path_value prefix table defs (tables table)) _ h in
      let (y, hg, h2) = >>=-eq-ok (guard (groups (count_keys ks []) == 0) _) _ h1 in
      let (u, hu, e) =
        >>=-eq-ok
          (insert_rows raw_value path_value prefix table defs (tables table) (clear table s)) _
          h2 in
      let kept : u.defs ≡ s.defs =
        defs-insert_rows raw_value path_value prefix table defs (tables table) (clear table s) hu
        ∙ defs-clear raw_value path_value prefix table s in
      let all = put table defs u.defs in
      subst Stored (ok-injective e) (
        other_defs all all u (
          insert_rows-IsExact all table defs (tables table) (clear table s)
            (get-put table table defs u.defs ∙ rw (list_eq_refl table) refl) rs hu
            (clear-IsExact table all s
              (λ v d miss g. get-put table v defs u.defs ∙ (rw miss (ap (get v) kept ∙ g))) x)))

  configure_all-Stored :
      (old rest : List (Text × List Unique)) (s : State) {t : State}
      → ((u : Text) → IsTable (tables u))
      → configure_all raw_value path_value prefix tables old rest s ≡ ok t
      → Stored s
      → Stored t
  unfolding configure_all
  configure_all-Stored old [] s rs h x = subst Stored (ok-injective h) x
  configure_all-Stored old ((table, defs) ∷ rest) s rs h x =
      let (y, hy, h1) = >>=-eq-ok (check_defs raw_value path_value prefix defs) _ h in
      let (u, hu, h2) =
        >>=-eq-ok
          (if is_unchanged raw_value path_value prefix table defs old
            then ok s
            else rebuild raw_value path_value prefix tables table defs s)
          _ h1 in
      configure_all-Stored old rest u rs h2
        (stepped (is_unchanged raw_value path_value prefix table defs old) u hu)
    where
      stepped :
          (b : Bool) (u : State)
          → (if b then ok s else rebuild raw_value path_value prefix tables table defs s) ≡ ok u
          → Stored u
      stepped true u e = subst Stored (ok-injective e) x
      stepped false u e = rebuild-Stored table defs s (rs table) e x

module _ (raw_value : Text → Result Text) (path_value : List ℕ → FieldPath → Result Value)
    (prefix : Text → ℕ → List ℕ) where
  -- Where the JSON of a table and a number tells the table whatever follows it, the rows of every table
  -- are found under their names, the stored definitions by their tables, no table is configured twice,
  -- and the tables of keys hold for the stored definitions the keys of every row that can be read and
  -- nothing else: after a `configure` that succeeds they hold for the new definitions the keys of every
  -- row that can be read and nothing else, no key of an earlier definition is left, each configured
  -- table has its definitions, and a table that is not configured has none.
  pub configure-IsExact :
      IsDelimited raw_value path_value prefix
      → (tables : Tables) (configured : List (Text × List Unique)) (s t : State) (table : Text)
      → ((u : Text) → IsTable (tables u))
      → IsDict s.defs
      → IsDistinct configured
      → Stands raw_value path_value prefix tables [] s
      → IsExact raw_value path_value prefix tables s.defs s
      → configure raw_value path_value prefix tables configured s ≡ ok t
      → Stands raw_value path_value prefix tables [] t
        × IsExact raw_value path_value prefix tables t.defs t
        × All (λ e. get e.0 t.defs ≡ some e.1) configured
        × ((if has_defs table configured then none else get table t.defs) ≡ none)
  unfolding configure
  configure-IsExact delimited tables configured s t table rs dict distinct h x c =
      let (stands, all, gone) =
        configure-Stands raw_value path_value prefix delimited tables configured s t table rs dict
          distinct h c in
      (
        stands,
        configure_all-Stored raw_value path_value prefix tables s.defs configured
            (drop_old raw_value path_value prefix configured s.defs s) rs c
            (drop_old-Stored raw_value path_value prefix tables configured s.defs s x),
        all,
        gone,
      )
