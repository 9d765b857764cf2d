-- ===== src/Unique/Exact.antt =====
-- The tables of keys hold nothing but the keys of the rows (src/unique.rs).
pub mod Insert
pub mod Validated
pub mod Configured
use clove1db.Prelude.{
  ℕ, ◌≡◌, refl, sym, ◌∙◌, ap, Bool, true, false, List, [], ◌∷◌, Option, none, some, inl, inr, ◌⊎◌,
  ◌||◌, Bool-cases, contradict,
}
use mathlib.Core.Path.{subst}
use clove1db.Prelude.Bytes.{Text}
use clove1db.Prelude.Options.{none-ne}
use clove1db.Prelude.Dict.{has, get, text_eq, pair_eq, pair_same, pair_same_iff}
use clove1db.Prelude.Results.{Result, ok}
use clove1db.Values.{Value}
use clove1db.IdContract.{FieldPath, Tables}
use clove1db.Unique.{Unique, State, row_at, row_keys, remove}
use clove1db.Unique.Cleared.{get-remove_row, key-remove_row}

-- What is said of every entry of the table of rows.
abbrev pub Entries : (Text × Text → List (List ℕ) → Type 0) → State → Type 0
Entries P s = (at : Text × Text) (ks : List (List ℕ)) → get at s.reverse ≡ some ks → P at ks

pub remove-Entries :
    (P : Text × Text → List (List ℕ) → Type 0) (a : Text × Text) (s : State)
    → Entries P s
    → Entries P (remove a s)
remove-Entries P a s h b ks g = elim (Bool-cases (pair_same a b)) [
  | inl same ↦ absurd (none-ne (sym (get-remove_row a b s ∙ rw same refl) ∙ g))
  | inr ne ↦ h b ks (sym (get-remove_row a b s ∙ rw ne refl) ∙ g)
]

-- Each key in the table of keys stands with the row that it is said to be of.
pub record AreUsed (s : State) : Type 0 where
  pub used :
      (k : List ℕ) (row : Text)
      → get k s.keys ≡ some row
      → (table : Text) × (ks : List (List ℕ)) × (get (table, row) s.reverse ≡ some ks)
        × (has k ks ≡ true)

pub remove-AreUsed : (a : Text × Text) (s : State) → AreUsed s → AreUsed (remove a s)
remove-AreUsed a s h = record { used = λ k row g. go k row (key-remove_row a k row s g) }
  where
    go :
        (k : List ℕ) (row : Text)
        → (get k s.keys ≡ some row)
          × ((ks : List (List ℕ)) → get a s.reverse ≡ some ks → has k ks ≡ false)
        → (table : Text) × (ks : List (List ℕ)) × (get (table, row) (remove a s).reverse ≡ some ks)
          × (has k ks ≡ true)
    go k row (found, out) =
        let (table, ks, listed, inside) = h.used k row found in
        elim (Bool-cases (pair_same a (table, row))) [
          | inl same ↦
              let one : a ≡ (table, row) = (pair_same_iff a (table, row)).0 same in
              absurd (contradict inside (out ks (ap (λ x. get x s.reverse) one ∙ listed)))
          | inr ne ↦ (table, ks, get-remove_row a (table, row) s ∙ (rw ne refl ∙ listed), inside)
        ]

module _ (raw_value : Text → Result Text) (path_value : List ℕ → FieldPath → Result Value)
    (prefix : Text → ℕ → List ℕ) where
  -- They are the keys of a row that is there, of a table with definitions.
  abbrev pub AreKeysOf : Tables → List (Text × List Unique) → Text × Text → List (List ℕ) → Type 0
  AreKeysOf tables defs at ks =
      (v : List ℕ) × (d : List Unique) × (get at.0 defs ≡ some d)
      × (row_at at.1 (tables at.0) ≡ some v)
      × (row_keys raw_value path_value prefix at.0 v d ≡ ok ks)

  -- Nothing is stored but what the rows have: an entry is of a row that is there, with its keys, and a
  -- key stands in such an entry of the row that it is said to be of.
  pub record IsExact (tables : Tables) (defs : List (Text × List Unique)) (s : State) : Type 0 where
    pub live : Entries (AreKeysOf tables defs) s
    pub no_other : AreUsed s
