-- ===== src/Unique/Configured.antt =====
-- After `configure` the stored definitions are the configured ones, and the keys are in step.
use clove1db.Prelude.{
  ℕ, ◌≡◌, refl, sym, ◌∙◌, ap, Bool, true, false, List, [], ◌∷◌, none, some, All, inl, inr, ◌⊎◌,
  ◌==◌, ◌&&◌, Bool-cases, Option-cases, contradict, if◌then◌else◌, list_eq, list_eq_iff,
  list_eq_refl, arith,
}
use mathlib.Core.Path.{subst}
use clove1db.Prelude.Bytes.{Text}
use clove1db.Prelude.Dict.{get, remove as erase, text_eq, get-put, get-remove}
use clove1db.Prelude.Results.{Result, ok, >>=-eq-ok, ok-injective, guard}
use clove1db.Values.{Value}
use clove1db.IdContract.{FieldPath, Tables}
use clove1db.Unique.{
  Unique, State, has_defs, is_yes, same_defs, Defs-discrete, clear, all_keys, insert_rows,
  is_unchanged, check_defs, drop_old, rebuild, configure_all, configure, groups, count_keys,
}
use clove1db.Unique.Steps.{IsDelimited}
use clove1db.Unique.Validate.{Stands, defs-clear_rows}
use clove1db.Unique.Configure.{IsTable, defs-insert_rows, drop_old-Stands, configure_all-Stands}

-- Each entry is the one of its table.
abbrev pub IsDict : List (Text × List Unique) → Type 0
IsDict l = All (λ e. get e.0 l ≡ some e.1) l

-- No table is configured twice.
unfoldable pub IsDistinct : List (Text × List Unique) → Type 0
IsDistinct [] = Unit {0}
IsDistinct ((t, d) ∷ rest) = (has_defs t rest ≡ false) × IsDistinct rest

yes-eq {ℓ} : {A : Type ℓ} (d : Dec A) → is_yes d ≡ true → A
yes-eq (yes a) h = a
yes-eq (no na) h = cc

same_defs-eq : (a b : List Unique) → same_defs a b ≡ true → a ≡ b
unfolding same_defs
same_defs-eq a b h = yes-eq (Defs-discrete a b) h

has_defs-cons :
    (u t : Text) (d : List Unique) (l : List (Text × List Unique))
    → has_defs u ((t, d) ∷ l) ≡ false
    → (list_eq t u ≡ false) × (has_defs u l ≡ false)
unfolding get
has_defs-cons u t d l e = ground arith

flip : (a b : Text) → list_eq a b ≡ false → list_eq b a ≡ false
flip a b h = ground (arith, list_eq_iff a b, list_eq_iff b a)

module _ (raw_value : Text → Result Text) (path_value : List ℕ → FieldPath → Result Value)
    (prefix : Text → ℕ → List ℕ) where
  unchanged-get :
      (table : Text) (defs : List Unique) (old l : List (Text × List Unique))
      → All (λ e. get e.0 old ≡ some e.1) l
      → is_unchanged raw_value path_value prefix table defs l ≡ true
      → get table old ≡ some defs
  unfolding is_unchanged
  unchanged-get table defs old [] a h = cc
  unchanged-get table defs old ((t, d) ∷ l) a h =
      elim (Bool-cases (list_eq t table && same_defs d defs)) [
        | inl e ↦
            let one : t ≡ table = (list_eq_iff t table).0 (ground (arith, e)) in
            let d_eq : d ≡ defs = same_defs-eq d defs (ground (arith, e)) in
            ap (λ u. get u old) (sym one) ∙ (a.0 ∙ ap some d_eq)
        | inr ne ↦ unchanged-get table defs old l a.1 (rw ne at h)
      ]

  pub defs-clear : (table : Text) (s : State) → (clear table s).defs ≡ s.defs
  unfolding clear
  defs-clear table s = defs-clear_rows table s.reverse s

  rebuild-get :
      (tables : Tables) (table : Text) (defs : List Unique) (s : State) {t : State} (u : Text)
      → rebuild raw_value path_value prefix tables table defs s ≡ ok t
      → get u t.defs ≡ (if list_eq table u then some defs else get u s.defs)
  unfolding rebuild
  rebuild-get tables table defs s u h =
      let (ks, hk, h1) =
        >>=-eq-ok (all_keys raw_value path_value prefix table defs (tables table)) _ h in
      let (x, hg, h2) = >>=-eq-ok (guard (groups (count_keys ks []) == 0) _) _ h1 in
      let (v, hv, e) =
        >>=-eq-ok
          (insert_rows raw_value path_value prefix table defs (tables table) (clear table s)) _
          h2 in
      ap (λ (t : State). get u t.defs) (sym (ok-injective e))
      ∙ (get-put table u defs v.defs
          ∙ ap (λ l. if list_eq table u then some defs else get u l)
              (defs-insert_rows raw_value path_value prefix table defs (tables table)
                  (clear table s) hv
                ∙ defs-clear table s))

  -- One stored table, kept or dropped.
  abbrev drop_one : List (Text × List Unique) → Text → State → State
  drop_one configured table s =
      if has_defs table configured
      then s
      else record (clear table s) { defs = erase table (clear table s).defs }

  drop_one-get :
      (configured : List (Text × List Unique)) (table : Text) (s : State) (u : Text)
      → get u (drop_one configured table s).defs ≡ (
          if has_defs table configured
          then get u s.defs
          else if list_eq table u
          then none
          else get u s.defs)
  drop_one-get configured table s u = elim (Bool-cases (has_defs table configured)) [
    | inl e ↦ rw e refl
    | inr e ↦ rw e (
        get-remove table u (clear table s).defs
        ∙ ap (λ l. if list_eq table u then none else get u l) (defs-clear table s))
  ]

  has_defs-differ :
      (configured : List (Text × List Unique)) (t u : Text)
      → has_defs u configured ≡ true
      → has_defs t configured ≡ false
      → list_eq t u ≡ false
  has_defs-differ configured t u h e = elim (Bool-cases (list_eq t u)) [
    | inl same ↦ absurd (
        contradict (subst (λ x. has_defs x configured ≡ true) (sym ((list_eq_iff t u).0 same)) h) e)
    | inr ne ↦ ne
  ]

  drop_old-get :
      (configured old : List (Text × List Unique)) (s : State) (u : Text)
      → has_defs u configured ≡ true
      → get u (drop_old raw_value path_value prefix configured old s).defs ≡ get u s.defs
  unfolding drop_old
  drop_old-get configured [] s u h = refl
  drop_old-get configured ((table, d) ∷ old) s u h =
      drop_old-get configured old (drop_one configured table s) u h
      ∙ (drop_one-get configured table s u ∙ kept (Bool-cases (has_defs table configured)))
    where
      kept :
          (has_defs table configured ≡ true) ⊎ (has_defs table configured ≡ false)
          → (if has_defs table configured
              then get u s.defs
              else if list_eq table u
              then none
              else get u s.defs)
            ≡ get u s.defs
      kept (inl e) = rw e refl
      kept (inr e) = rw (e, has_defs-differ configured table u h e) refl

  drop_old-gone :
      (configured old : List (Text × List Unique)) (s : State) (u : Text)
      → has_defs u configured ≡ false
      → (get u s.defs ≡ none) ⊎ (has_defs u old ≡ true)
      → get u (drop_old raw_value path_value prefix configured old s).defs ≡ none
  unfolding drop_old get
  drop_old-gone configured [] s u h (inl e) = e
  drop_old-gone configured [] s u h (inr e) = cc
  drop_old-gone configured ((table, d) ∷ old) s u h o =
      drop_old-gone configured old (drop_one configured table s) u h
        (next o (Bool-cases (list_eq table u)))
    where
      next :
          (get u s.defs ≡ none) ⊎ (has_defs u ((table, d) ∷ old) ≡ true)
          → (list_eq table u ≡ true) ⊎ (list_eq table u ≡ false)
          → (get u (drop_one configured table s).defs ≡ none) ⊎ (has_defs u old ≡ true)
      next o (inl same) = inl (
          drop_one-get configured table s u
          ∙ rw ((list_eq_iff table u).0 same, h, list_eq_refl u) refl)
      next (inl e) (inr ne) = inl (drop_one-get configured table s u ∙ rw (ne, e) (ground arith))
      next (inr e) (inr ne) = inr (rw ne at e)

  -- The tables that are still to be configured have the definitions that they had at the start.
  abbrev AsOld : List (Text × List Unique) → List (Text × List Unique) → State → Type 0
  AsOld old rest s = All (λ e. get e.0 s.defs ≡ get e.0 old) rest

  step-get :
      (tables : Tables) (table : Text) (defs : List Unique) (s : State) (b : Bool) {u : State}
      (v : Text)
      → (b ≡ true → get table s.defs ≡ some defs)
      → (if b then ok s else rebuild raw_value path_value prefix tables table defs s) ≡ ok u
      → get v u.defs ≡ (if list_eq table v then some defs else get v s.defs)
  step-get tables table defs s false v f h = rebuild-get tables table defs s v h
  step-get tables table defs s true v f h =
      ap (λ (t : State). get v t.defs) (sym (ok-injective h))
      ∙ elim (Bool-cases (list_eq table v)) [
        | inl same ↦ rw same (ap (λ x. get x s.defs) (sym ((list_eq_iff table v).0 same)) ∙ f refl)
        | inr ne ↦ rw ne refl
      ]

  -- The first entry is configured: from then on only the others matter.
  configure_all-get :
      (tables : Tables) (old rest : List (Text × List Unique)) (s : State) {t : State}
      → IsDict old
      → IsDistinct rest
      → AsOld old rest s
      → configure_all raw_value path_value prefix tables old rest s ≡ ok t
      → All (λ e. get e.0 t.defs ≡ some e.1) rest
        × ((u : Text) → has_defs u rest ≡ false → get u t.defs ≡ get u s.defs)
  unfolding configure_all IsDistinct
  configure_all-get tables old [] s dict distinct as_old h =
      (tt, λ u e. ap (λ (t : State). get u t.defs) (sym (ok-injective h)))
  configure_all-get tables old ((table, defs) ∷ rest) s {t} dict distinct as_old h =
      let (x, hx, h1) = >>=-eq-ok (check_defs raw_value path_value prefix defs) _ h in
      let (u, hu, h2) =
        >>=-eq-ok
          (if is_unchanged raw_value path_value prefix table defs old
            then ok s
            else rebuild raw_value path_value prefix tables table defs s)
          _ h1 in
      let stepped = λ (v : Text).
        step-get tables table defs s (is_unchanged raw_value path_value prefix table defs old) v
          (λ e. as_old.0 ∙ unchanged-get table defs old old dict e) hu in
      let (all, others) =
        configure_all-get tables old rest u dict distinct.1
          (still u rest distinct.0 as_old.1 stepped) h2 in
      (
        (others table distinct.0 ∙ (stepped table ∙ rw (list_eq_refl table) refl), all),
        λ v e. others v (later v e) ∙ (stepped v ∙ rw (differs v e) refl),
      )
    where
      still :
          (u : State) (l : List (Text × List Unique))
          → has_defs table l ≡ false
          → AsOld old l s
          → ((v : Text) → get v u.defs ≡ (if list_eq table v then some defs else get v s.defs))
          → AsOld old l u
      still u [] e a f = tt
      still u ((v, d) ∷ l) e a f =
          let (ne, e') = has_defs-cons table v d l e in
          (f v ∙ rw (flip v table ne) a.0, still u l e' a.1 f)

      later : (v : Text) → has_defs v ((table, defs) ∷ rest) ≡ false → has_defs v rest ≡ false
      later v e = (has_defs-cons v table defs rest e).1

      differs : (v : Text) → has_defs v ((table, defs) ∷ rest) ≡ false → list_eq table v ≡ false
      differs v e = (has_defs-cons v table defs rest e).0

  AsOld-start :
      (configured l : List (Text × List Unique)) (s : State)
      → ((u : Text) → has_defs u l ≡ true → has_defs u configured ≡ true)
      → IsDistinct l
      → AsOld s.defs l (drop_old raw_value path_value prefix configured s.defs s)
  unfolding IsDistinct get
  AsOld-start configured [] s f d = tt
  AsOld-start configured ((t, x) ∷ l) s f d = (
    drop_old-get configured s.defs s t (f t (rw (list_eq_refl t) refl)),
    AsOld-start configured l s
        (λ u h.
          f u (elim (Bool-cases (list_eq t u)) [ inl same ↦ rw same refl | inr ne ↦ rw ne h ]))
        d.1,
  )

  -- Where the rows of every table are found under their names, the stored definitions by their
  -- tables, no table is configured twice, and the keys are in step for the stored definitions: after
  -- a `configure` that succeeds the keys are in step with the rows, each configured table has its
  -- definitions, and a table that is not configured has none.
  pub configure-Stands :
      IsDelimited raw_value path_value prefix
      → (tables : Tables) (configured : List (Text × List Unique)) (s t : State) (table : Text)
      → ((u : Text) → IsTable (tables u))
      → IsDict s.defs
      → IsDistinct configured
      → Stands raw_value path_value prefix tables [] s
      → configure raw_value path_value prefix tables configured s ≡ ok t
      → Stands raw_value path_value prefix tables [] t
        × All (λ e. get e.0 t.defs ≡ some e.1) configured
        × ((if has_defs table configured then none else get table t.defs) ≡ none)
  unfolding configure
  configure-Stands delimited tables configured s t table rs dict distinct h c =
      let (all, others) =
        configure_all-get tables s.defs configured _ dict distinct
          (AsOld-start configured configured s (λ u e. e) distinct) c in
      (
        configure_all-Stands raw_value path_value prefix delimited tables s.defs configured _ rs c
            (drop_old-Stands raw_value path_value prefix delimited tables configured s.defs s h),
        all,
        elim (Bool-cases (has_defs table configured)) [
          | inl e ↦ rw e refl
          | inr e ↦ rw e (others table e ∙ drop_old-gone configured s.defs s table e (stored table))
        ],
      )
    where
      stored : (u : Text) → (get u s.defs ≡ none) ⊎ (has_defs u s.defs ≡ true)
      stored u = elim (Option-cases (get u s.defs)) [ inl e ↦ inl e | inr (d, e) ↦ inr (rw e refl) ]
