-- ===== src/Unique/Changed.antt =====
-- The rows that a transaction is checked for: those that its effects name, and all rows of the tables
-- that it replaces.
use Prim.Native.Nat.{Ordering}
use Prim.Native.Nat.Ordering.{lt, eq, gt}
use clove1db.Prelude.{
  ℕ, ◌≡◌, refl, Bool, true, false, List, [], ◌∷◌, some, arith, inl, inr, Bool-cases, if◌then◌else◌,
  list_eq, list_eq_iff, ◌||◌,
}
use clove1db.Prelude.Bytes.{Text}
use clove1db.Prelude.Options.{none-ne}
use clove1db.Prelude.Dict.{Eq, has, text_eq, pair_eq, pair_same, pair_same_iff, same_refl}
use clove1db.Journal.Row.{ChangeKind, upsert, delete, table_reset, blob_put, blob_delete}
use clove1db.IdContract.{Tables}
use clove1db.Codec.Compare.{compare_bytes}
use clove1db.Unique.{
  Unique, State, row_at, place, add_member, compare_row, has_defs, changed_rows, resets, add_rows,
  clear_resets,
}

compare_bytes-eq : (p q : List ℕ) → compare_bytes p q ≡ eq → p ≡ q
unfolding compare_bytes
compare_bytes-eq [] [] h = refl
compare_bytes-eq [] (b ∷ q) h = cc
compare_bytes-eq (a ∷ p) [] h = cc
compare_bytes-eq (a ∷ p) (b ∷ q) h = ground (arith, compare_bytes-eq p q)

compare_row-eq : (a b : Text × Text) → compare_row a b ≡ eq → a ≡ b
compare_row-eq (a, b) (c, d) h = ground (arith, compare_bytes-eq a c, compare_bytes-eq b d)

module _ {A : Type 0} ⦃e : Eq A⦄ (cmp : A → A → Ordering)
    (law : (a b : A) → cmp a b ≡ eq → a ≡ b) where
  has-place :
      (o : Ordering) (x y z : A) (l rest : List A)
      → (has z l ≡ true → has z rest ≡ true)
      → has z (y ∷ l) ≡ true
      → has z (place o x y l rest) ≡ true
  unfolding has
  has-place lt x y z l rest f h = ground (arith, h)
  has-place eq x y z l rest f h = h
  has-place gt x y z l rest f h = elim (Bool-cases (e.same y z)) [
    | inl s ↦ rw s refl
    | inr d ↦ rw d (f (rw d at h))
  ]

  has-place_self :
      (o : Ordering) (x y : A) (l rest : List A)
      → (o ≡ eq → x ≡ y)
      → has x rest ≡ true
      → has x (place o x y l rest) ≡ true
  unfolding has
  has-place_self lt x y l rest f h = rw (same_refl x) refl
  has-place_self eq x y l rest f h = rw (f refl, same_refl y) refl
  has-place_self gt x y l rest f h = elim (Bool-cases (e.same y x)) [
    | inl s ↦ rw s refl
    | inr d ↦ rw d h
  ]

  has-add_member : (x z : A) (l : List A) → has z l ≡ true → has z (add_member cmp x l) ≡ true
  unfolding add_member
  has-add_member x z [] h = unfold has in cc h
  has-add_member x z (y ∷ l) h =
      has-place (cmp x y) x y z l (add_member cmp x l) (has-add_member x z l) h

  has-add_member_self : (x : A) (l : List A) → has x (add_member cmp x l) ≡ true
  unfolding add_member
  has-add_member_self x [] = unfold has in rw (same_refl x) refl
  has-add_member_self x (y ∷ l) =
      has-place_self (cmp x y) x y l (add_member cmp x l) (law x y) (has-add_member_self x l)

-- An effect names the row, or replaces its table.
unfoldable pub names_row : Text × Text → List ChangeKind → Bool
names_row at [] = false
names_row at (upsert table key value ∷ effects) = pair_same (table, key) at || names_row at effects
names_row at (delete table key ∷ effects) = pair_same (table, key) at || names_row at effects
names_row at (effect ∷ effects) = names_row at effects

unfoldable pub names_table : Text → List ChangeKind → Bool
names_table t [] = false
names_table t (table_reset table snapshot ∷ effects) = list_eq table t || names_table t effects
names_table t (effect ∷ effects) = names_table t effects

module _ (defs : List (Text × List Unique)) where
  -- One effect's row.
  abbrev add_changed : Text × Text → List (Text × Text) → List (Text × Text)
  add_changed a l = if has_defs a.0 defs then add_member compare_row a l else l

  add_changed-has :
      (a z : Text × Text) (l : List (Text × Text)) → has z l ≡ true → has z (add_changed a l) ≡ true
  add_changed-has a z l h = elim (Bool-cases (has_defs a.0 defs)) [
    | inl y ↦ rw y (has-add_member compare_row compare_row-eq a z l h)
    | inr n ↦ rw n h
  ]

  changed_rows-has :
      (z : Text × Text) (effects : List ChangeKind) (l : List (Text × Text))
      → has z l ≡ true
      → has z (changed_rows defs effects l) ≡ true
  unfolding changed_rows
  changed_rows-has z [] l h = h
  changed_rows-has z (upsert t k v ∷ effects) l h =
      changed_rows-has z effects _ (add_changed-has (t, k) z l h)
  changed_rows-has z (delete t k ∷ effects) l h =
      changed_rows-has z effects _ (add_changed-has (t, k) z l h)
  changed_rows-has z (table_reset t n ∷ effects) l h = changed_rows-has z effects l h
  changed_rows-has z (blob_put a b c n ∷ effects) l h = changed_rows-has z effects l h
  changed_rows-has z (blob_delete a b c n ∷ effects) l h = changed_rows-has z effects l h

  add_changed_self :
      (a z : Text × Text) (l : List (Text × Text))
      → has_defs z.0 defs ≡ true
      → pair_same a z ≡ true
      → has z (add_changed a l) ≡ true
  add_changed_self a z l d s =
      let one : a ≡ z = (pair_same_iff a z).0 s in
      rw (one, d) (has-add_member_self compare_row compare_row-eq z l)

  pub changed_rows-named :
      (z : Text × Text) (effects : List ChangeKind) (l : List (Text × Text))
      → has_defs z.0 defs ≡ true
      → names_row z effects ≡ true
      → has z (changed_rows defs effects l) ≡ true
  unfolding changed_rows names_row
  changed_rows-named z [] l d n = cc
  changed_rows-named z (upsert t k v ∷ effects) l d n = elim (Bool-cases (pair_same (t, k) z)) [
    | inl s ↦ changed_rows-has z effects _ (add_changed_self (t, k) z l d s)
    | inr o ↦ changed_rows-named z effects _ d (rw o at n)
  ]
  changed_rows-named z (delete t k ∷ effects) l d n = elim (Bool-cases (pair_same (t, k) z)) [
    | inl s ↦ changed_rows-has z effects _ (add_changed_self (t, k) z l d s)
    | inr o ↦ changed_rows-named z effects _ d (rw o at n)
  ]
  changed_rows-named z (table_reset t m ∷ effects) l d n = changed_rows-named z effects l d n
  changed_rows-named z (blob_put a b c m ∷ effects) l d n = changed_rows-named z effects l d n
  changed_rows-named z (blob_delete a b c m ∷ effects) l d n = changed_rows-named z effects l d n

  -- One replaced table.
  abbrev add_reset : Text → List Text → List Text
  add_reset t l = if has_defs t defs then add_member compare_bytes t l else l

  add_reset-has : (t z : Text) (l : List Text) → has z l ≡ true → has z (add_reset t l) ≡ true
  add_reset-has t z l h = elim (Bool-cases (has_defs t defs)) [
    | inl y ↦ rw y (has-add_member compare_bytes compare_bytes-eq t z l h)
    | inr n ↦ rw n h
  ]

  add_reset_self :
      (t z : Text) (l : List Text)
      → has_defs z defs ≡ true
      → list_eq t z ≡ true
      → has z (add_reset t l) ≡ true
  add_reset_self t z l d s =
      let one : t ≡ z = (list_eq_iff t z).0 s in
      rw (one, d) (has-add_member_self compare_bytes compare_bytes-eq z l)

  resets-has :
      (z : Text) (effects : List ChangeKind) (l : List Text)
      → has z l ≡ true
      → has z (resets defs effects l) ≡ true
  unfolding resets
  resets-has z [] l h = h
  resets-has z (table_reset t n ∷ effects) l h = resets-has z effects _ (add_reset-has t z l h)
  resets-has z (upsert t k v ∷ effects) l h = resets-has z effects l h
  resets-has z (delete t k ∷ effects) l h = resets-has z effects l h
  resets-has z (blob_put a b c n ∷ effects) l h = resets-has z effects l h
  resets-has z (blob_delete a b c n ∷ effects) l h = resets-has z effects l h

  pub resets-named :
      (z : Text) (effects : List ChangeKind) (l : List Text)
      → has_defs z defs ≡ true
      → names_table z effects ≡ true
      → has z (resets defs effects l) ≡ true
  unfolding resets names_table
  resets-named z [] l d n = cc
  resets-named z (table_reset t m ∷ effects) l d n = elim (Bool-cases (list_eq t z)) [
    | inl s ↦ resets-has z effects _ (add_reset_self t z l d s)
    | inr o ↦ resets-named z effects _ d (rw o at n)
  ]
  resets-named z (upsert t k v ∷ effects) l d n = resets-named z effects l d n
  resets-named z (delete t k ∷ effects) l d n = resets-named z effects l d n
  resets-named z (blob_put a b c m ∷ effects) l d n = resets-named z effects l d n
  resets-named z (blob_delete a b c m ∷ effects) l d n = resets-named z effects l d n

add_rows-has :
    (z : Text × Text) (table : Text) (rows : List (Text × List ℕ)) (l : List (Text × Text))
    → has z l ≡ true
    → has z (add_rows table rows l) ≡ true
unfolding add_rows
add_rows-has z table [] l h = h
add_rows-has z table ((k, v) ∷ rows) l h =
    add_rows-has z table rows _ (has-add_member compare_row compare_row-eq (table, k) z l h)

add_rows-row :
    (table row : Text) (rows : List (Text × List ℕ)) (l : List (Text × Text)) {v : List ℕ}
    → row_at row rows ≡ some v
    → has (table, row) (add_rows table rows l) ≡ true
unfolding add_rows row_at
add_rows-row table row [] l h = absurd (none-ne h)
add_rows-row table row ((k, w) ∷ rows) l h = elim (Bool-cases (list_eq k row)) [
  | inl s ↦
      let one : k ≡ row = (list_eq_iff k row).0 s in
      add_rows-has (table, row) table rows _
        (rw one (has-add_member_self compare_row compare_row-eq (table, row) l))
  | inr o ↦ add_rows-row table row rows _ (rw o at h)
]

pub clear_resets-has :
    (z : Text × Text) (tables : Tables) (ts : List Text) (acc : State × List (Text × Text))
    → has z acc.1 ≡ true
    → has z (clear_resets tables ts acc).1 ≡ true
unfolding clear_resets
clear_resets-has z tables [] acc h = h
clear_resets-has z tables (t ∷ ts) acc h =
    clear_resets-has z tables ts _ (add_rows-has z t (tables t) acc.1 h)

-- Every row of a replaced table is checked.
pub clear_resets-row :
    (z : Text × Text) (tables : Tables) (ts : List Text) (acc : State × List (Text × Text))
    {v : List ℕ}
    → has z.0 ts ≡ true
    → row_at z.1 (tables z.0) ≡ some v
    → has z (clear_resets tables ts acc).1 ≡ true
unfolding clear_resets has
clear_resets-row z tables [] acc h r = cc
clear_resets-row z tables (t ∷ ts) acc h r = elim (Bool-cases (list_eq t z.0)) [
  | inl s ↦
      let one : t ≡ z.0 = (list_eq_iff t z.0).0 s in
      clear_resets-has z tables ts _ (rw one (add_rows-row z.0 z.1 (tables z.0) acc.1 r))
  | inr o ↦ clear_resets-row z tables ts _ (rw o at h) r
]
