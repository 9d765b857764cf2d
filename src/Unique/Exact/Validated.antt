-- ===== src/Unique/Exact/Validated.antt =====
-- After `validate` the tables of keys hold the keys of the rows and nothing else (src/unique.rs).
use clove1db.Prelude.{
  ℕ, ◌≡◌, refl, sym, ◌∙◌, ap, Bool, true, false, List, [], ◌∷◌, Option, none, some, inl, inr, ◌⊎◌,
  ◌||◌, Bool-cases,
}
use mathlib.Core.Path.{subst}
use clove1db.Prelude.Bytes.{Text}
use clove1db.Prelude.Options.{none-ne}
use clove1db.Prelude.Dict.{has, get, text_eq, pair_eq}
use clove1db.Prelude.Results.{Result, ok, >>=-eq-ok, ok-injective}
use clove1db.Values.{Value}
use clove1db.Journal.Row.{ChangeKind}
use clove1db.IdContract.{FieldPath, Tables}
use clove1db.Unique.{
  Unique, State, row_at, is_nil, clear_resets, remove_all, resets, changed_rows, insert_value,
  insert_row, insert_changed, validate,
}
use clove1db.Unique.Changed.{
  names_row, names_table, changed_rows-named, resets-named, clear_resets-has,
}
use clove1db.Unique.Steps.{IsDelimited}
use clove1db.Unique.Validate.{
  Stands, defs-insert, defs-clear_resets, defs-remove_all, nil-get, validate-Stands,
}
use clove1db.Unique.Cleared.{
  clear_resets-keeps, clear_resets-gone, remove_all-keeps, remove_all-gone, remove_all-stays_gone,
}
use clove1db.Unique.Exact.{Entries, remove-Entries, AreUsed, remove-AreUsed, AreKeysOf, IsExact}
use clove1db.Unique.Exact.Insert.{insert-IsExact}

module _ (raw_value : Text → Result Text) (path_value : List ℕ → FieldPath → Result Value)
    (prefix : Text → ℕ → List ℕ) where
  insert_value-IsExact :
      (tables : Tables) (all : List (Text × List Unique)) (a : Text × Text) (defs : List Unique)
      (o : Option (List ℕ)) (s : State) {t : State}
      → s.defs ≡ all
      → get a.0 s.defs ≡ some defs
      → row_at a.1 (tables a.0) ≡ o
      → insert_value raw_value path_value prefix a defs o s ≡ ok t
      → IsExact raw_value path_value prefix tables all s
      → IsExact raw_value path_value prefix tables all t × (t.defs ≡ all)
  insert_value-IsExact tables all a defs none s e d r h x =
      subst (λ u. IsExact raw_value path_value prefix tables all u × (u.defs ≡ all))
        (ok-injective h) (x, e)
  insert_value-IsExact tables all a defs (some v) s e d r h x = (
    insert-IsExact raw_value path_value prefix tables all a v defs s (ap (get a.0) (sym e) ∙ d) r h
        x,
    defs-insert raw_value path_value prefix a v defs s h ∙ e,
  )

  insert_row-IsExact :
      (tables : Tables) (all : List (Text × List Unique)) (a : Text × Text)
      (o : Option (List Unique)) (s : State) {t : State}
      → s.defs ≡ all
      → get a.0 s.defs ≡ o
      → insert_row raw_value path_value prefix tables a o s ≡ ok t
      → IsExact raw_value path_value prefix tables all s
      → IsExact raw_value path_value prefix tables all t × (t.defs ≡ all)
  insert_row-IsExact tables all a none s e d h x = cc
  insert_row-IsExact tables all a (some defs) s e d h x =
      insert_value-IsExact tables all a defs (row_at a.1 (tables a.0)) s e d refl h x

  insert_changed-IsExact :
      (tables : Tables) (all : List (Text × List Unique)) (l : List (Text × Text)) (s : State)
      {t : State}
      → s.defs ≡ all
      → insert_changed raw_value path_value prefix tables l s ≡ ok t
      → IsExact raw_value path_value prefix tables all s
      → IsExact raw_value path_value prefix tables all t
  unfolding insert_changed
  insert_changed-IsExact tables all [] s e h x =
      subst (IsExact raw_value path_value prefix tables all) (ok-injective h) x
  insert_changed-IsExact tables all (a ∷ l) s e h x =
      let (u, hu, h1) =
        >>=-eq-ok (insert_row raw_value path_value prefix tables a (get a.0 s.defs) s) _ h in
      let (xu, du) = insert_row-IsExact tables all a (get a.0 s.defs) s e refl hu x in
      insert_changed-IsExact tables all l u du h1 xu

  module _ (old new : Tables) (effects : List ChangeKind) (s : State) where
    start : State × List (Text × Text)
    start = clear_resets new (resets s.defs effects []) (s, changed_rows s.defs effects [])

    -- What an entry is before the rows are entered: cleared away, or right after the transaction too.
    IsDue : Text × Text → List (List ℕ) → Type 0
    IsDue b ks =
        ((has b start.1 || has b.0 (resets s.defs effects [])) ≡ true)
        ⊎ AreKeysOf raw_value path_value prefix new s.defs b ks

    Entries-IsDue :
        ((at : Text × Text)
          → (names_row at effects || names_table at.0 effects) ≡ false
          → row_at at.1 (new at.0) ≡ row_at at.1 (old at.0))
        → Entries (AreKeysOf raw_value path_value prefix old s.defs) s
        → Entries IsDue s
    unfolding IsDue start
    Entries-IsDue same h b ks g =
        let (v, d, gd, r, hk) = h b ks g in
        elim (Bool-cases (names_row b effects)) [
          | inl n ↦
              let listed =
                clear_resets-has b new (resets s.defs effects [])
                  (s, changed_rows s.defs effects [])
                  (changed_rows-named s.defs b effects [] (rw gd refl) n) in
              inl (rw listed refl)
          | inr n ↦ elim (Bool-cases (names_table b.0 effects)) [
            | inl m ↦
                let listed = resets-named s.defs b.0 effects [] (rw gd refl) m in
                inl (or-second _ _ listed)
            | inr m ↦ inr (v, d, gd, same b (rw (n, m) refl) ∙ r, hk)
          ]
        ]
      where
        or-second : (x y : Bool) → y ≡ true → (x || y) ≡ true
        or-second true y h = refl
        or-second false y h = h

    -- After the clearing only what is right is left.
    cleared-IsExact :
        Entries IsDue s
        → AreUsed s
        → IsExact raw_value path_value prefix new s.defs (remove_all start.1 start.0)
    unfolding start IsDue
    cleared-IsExact due used = record {
      live = λ b ks g. right b ks g (
          remove_all-keeps (Entries IsDue) (remove-Entries IsDue) start.1 start.0
            (clear_resets-keeps (Entries IsDue) (remove-Entries IsDue) new
              (resets s.defs effects []) (s, changed_rows s.defs effects []) due)
            b ks g);
      no_other = remove_all-keeps AreUsed remove-AreUsed start.1 start.0 (
          clear_resets-keeps AreUsed remove-AreUsed new (resets s.defs effects [])
            (s, changed_rows s.defs effects []) used);
    }
      where
        right :
            (b : Text × Text) (ks : List (List ℕ))
            → get b (remove_all start.1 start.0).reverse ≡ some ks
            → IsDue b ks
            → AreKeysOf raw_value path_value prefix new s.defs b ks
        right b ks g (inr keys) = keys
        right b ks g (inl gone) = elim (Bool-cases (has b start.1)) [
          | inl listed ↦ absurd (none-ne (sym (remove_all-gone b start.1 start.0 listed) ∙ g))
          | inr other ↦ absurd (
              none-ne (
                sym (
                  remove_all-stays_gone b start.1 start.0 (
                    clear_resets-gone b new (resets s.defs effects [])
                      (s, changed_rows s.defs effects []) (rw other at gone)))
                ∙ g))
        ]

  nil-IsExact :
      (old new : Tables) (s : State)
      → is_nil s.defs ≡ true
      → IsExact raw_value path_value prefix old s.defs s
      → IsExact raw_value path_value prefix new s.defs s
  nil-IsExact old new s nil x = record {
    live = λ b ks g.
        let (v, d, gd, r, hk) = x.live b ks g in
        absurd (none-ne (sym (nil-get raw_value path_value prefix b.0 s.defs nil) ∙ gd));
    no_other = x.no_other;
  }

  -- Where the JSON of a table and a number tells the table whatever follows it, before a transaction
  -- the tables of keys hold the keys of every row that can be read and nothing else, the effects name
  -- every row that is another afterwards or replace its table, and `validate` accepts them: the tables
  -- of keys hold the keys of every row as it is then, each under its row, no key and no entry of a row
  -- that was removed or replaced is left, and the definitions are the same.
  pub validate-IsExact :
      IsDelimited raw_value path_value prefix
      → (old new : Tables) (effects : List ChangeKind) (s : State) {t : State}
      → ((at : Text × Text)
          → (names_row at effects || names_table at.0 effects) ≡ false
          → row_at at.1 (new at.0) ≡ row_at at.1 (old at.0))
      → Stands raw_value path_value prefix old [] s
      → IsExact raw_value path_value prefix old s.defs s
      → validate raw_value path_value prefix new effects s ≡ ok t
      → Stands raw_value path_value prefix new [] t
        × IsExact raw_value path_value prefix new t.defs t
        × (t.defs ≡ s.defs)
  unfolding start validate
  validate-IsExact delimited old new effects s {t} same h x v =
      let (stands, d) =
        validate-Stands raw_value path_value prefix delimited old new effects s same h v in
      (
        stands,
        subst (λ l. IsExact raw_value path_value prefix new l t) (sym d)
            (elim (Bool-cases (is_nil s.defs)) [
              | inl nil ↦
                  subst (IsExact raw_value path_value prefix new s.defs)
                    (ok-injective (rw nil at v)) (nil-IsExact old new s nil x)
              | inr cons ↦
                  insert_changed-IsExact new s.defs (start old new effects s).1
                    (remove_all (start old new effects s).1 (start old new effects s).0)
                    (defs-remove_all (start old new effects s).1 (start old new effects s).0
                      ∙ defs-clear_resets new (resets s.defs effects []) _)
                    (rw cons at v)
                    (cleared-IsExact old new effects s (Entries-IsDue old new effects s same x.live)
                      x.no_other)
            ]),
        d,
      )
