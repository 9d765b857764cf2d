-- ===== src/Unique/Cleared.antt =====
-- What `remove` and the loops over it take out of the tables of keys (src/unique.rs).
use clove1db.Prelude.{
  ℕ, ◌≡◌, refl, sym, ◌∙◌, ap, Bool, true, false, List, [], ◌∷◌, Option, none, some, inl, inr, ◌⊎◌,
  Bool-cases, Option-cases, contradict, if◌then◌else◌, list_eq, list_eq_iff, list_eq_refl,
}
use mathlib.Core.Path.{subst}
use clove1db.Prelude.Bytes.{Text}
use clove1db.Prelude.Options.{none-ne}
use clove1db.Prelude.Dict.{has, get, text_eq, pair_eq, pair_same, pair_same_iff, get-remove}
use clove1db.IdContract.{Tables}
use clove1db.Unique.{State, drop_row, remove, clear_rows, clear, clear_resets, add_rows, remove_all}
use clove1db.Unique.Keys.{get-forget}
use clove1db.Unique.Validate.{if-both}

pub get-remove_row :
    (a b : Text × Text) (s : State)
    → get b (remove a s).reverse ≡ (if pair_same a b then none else get b s.reverse)
unfolding remove
get-remove_row a b s = elim (Option-cases (get a s.reverse)) [
  | inl e ↦ rw e (elim (Bool-cases (pair_same a b)) [
    | inl same ↦ rw same (ap (λ x. get x s.reverse) (sym ((pair_same_iff a b).0 same)) ∙ e)
    | inr ne ↦ rw ne refl
  ])
  | inr (old, e) ↦ rw e (get-remove a b s.reverse)
]

-- A key that is left was there, and was not one of the row's.
pub key-remove_row :
    (a : Text × Text) (k : List ℕ) (row : Text) (s : State)
    → get k (remove a s).keys ≡ some row
    → (get k s.keys ≡ some row)
      × ((ks : List (List ℕ)) → get a s.reverse ≡ some ks → has k ks ≡ false)
unfolding remove
key-remove_row a k row s h = go (get a s.reverse) h
  where
    go :
        (o : Option (List (List ℕ)))
        → get k (drop_row a o s).keys ≡ some row
        → (get k s.keys ≡ some row) × ((ks : List (List ℕ)) → o ≡ some ks → has k ks ≡ false)
    go none h = (h, λ ks e. absurd (none-ne e))
    go (some old) h = elim (Bool-cases (has k old)) [
      | inl inside ↦ absurd (none-ne (sym (get-forget k old s.keys ∙ rw inside refl) ∙ h))
      | inr outside ↦ (
        sym (get-forget k old s.keys ∙ rw outside refl) ∙ h,
        λ ks e. subst (λ l. has k l ≡ false) (old-eq ks e) outside,
      )
    ]
      where
        old-eq : (ks : List (List ℕ)) → some old ≡ some ks → old ≡ ks
        old-eq ks e = cc

-- What `remove` keeps, the loops keep.
module _ (P : State → Type 0) (keep : (a : Text × Text) (s : State) → P s → P (remove a s)) where
  pub clear_rows-keeps :
      (table : Text) (entries : List ((Text × Text) × List (List ℕ))) (s : State)
      → P s
      → P (clear_rows table entries s)
  unfolding clear_rows
  clear_rows-keeps table [] s h = h
  clear_rows-keeps table ((at, ks) ∷ entries) s h =
      clear_rows-keeps table entries (if list_eq at.0 table then remove at s else s)
        (if-both P (list_eq at.0 table) (remove at s) s (λ e. keep at s h) h)

  pub clear-keeps : (table : Text) (s : State) → P s → P (clear table s)
  unfolding clear
  clear-keeps table s h = clear_rows-keeps table s.reverse s h

  pub clear_resets-keeps :
      (tables : Tables) (ts : List Text) (acc : State × List (Text × Text))
      → P acc.0
      → P (clear_resets tables ts acc).0
  unfolding clear_resets
  clear_resets-keeps tables [] acc h = h
  clear_resets-keeps tables (t ∷ ts) acc h = clear_resets-keeps tables ts _ (clear-keeps t acc.0 h)

  pub remove_all-keeps : (l : List (Text × Text)) (s : State) → P s → P (remove_all l s)
  unfolding remove_all
  remove_all-keeps [] s h = h
  remove_all-keeps (a ∷ l) s h = remove_all-keeps l (remove a s) (keep a s h)

-- The row has no entry.
abbrev IsGone : Text × Text → State → Type 0
IsGone b s = get b s.reverse ≡ none

remove-IsGone : (b a : Text × Text) (s : State) → IsGone b s → IsGone b (remove a s)
remove-IsGone b a s h =
    get-remove_row a b s
    ∙ elim (Bool-cases (pair_same a b)) [ inl same ↦ rw same refl | inr ne ↦ rw ne h ]

if-split {ℓ κ} :
    {A : Type ℓ} (P : A → Type κ) (b : Bool) (x y : A)
    → (b ≡ true → P x)
    → (b ≡ false → P y)
    → P (if b then x else y)
if-split P true x y f g = f refl
if-split P false x y f g = g refl

-- Every entry of the table that the loop meets goes.
clear_rows-IsGone :
    (b : Text × Text) (entries : List ((Text × Text) × List (List ℕ))) (s : State)
    → (get b s.reverse ≡ none) ⊎ (get b entries ≡ get b s.reverse)
    → IsGone b (clear_rows b.0 entries s)
unfolding clear_rows get
clear_rows-IsGone b [] s (inl h) = h
clear_rows-IsGone b [] s (inr h) = sym h
clear_rows-IsGone b ((at, ks) ∷ entries) s (inl h) =
    clear_rows-keeps (IsGone b) (remove-IsGone b) b.0 ((at, ks) ∷ entries) s h
clear_rows-IsGone b ((at, ks) ∷ entries) s (inr h) = elim (Bool-cases (pair_same at b)) [
  | inl same ↦
      let one : at ≡ b = (pair_same_iff at b).0 same in
      if-split (λ u. IsGone b (clear_rows b.0 entries u)) (list_eq at.0 b.0) (remove at s) s
        (λ e.
          clear_rows-keeps (IsGone b) (remove-IsGone b) b.0 entries (remove at s)
            (get-remove_row at b s ∙ rw same refl))
        (λ e. absurd (contradict (ap (λ x. list_eq x.0 b.0) one ∙ list_eq_refl b.0) e))
  | inr ne ↦
      let rest : get b entries ≡ get b s.reverse = rw ne at h in
      if-split (λ u. IsGone b (clear_rows b.0 entries u)) (list_eq at.0 b.0) (remove at s) s
        (λ e.
          clear_rows-IsGone b entries (remove at s)
            (inr (rest ∙ sym (get-remove_row at b s ∙ rw ne refl))))
        (λ e. clear_rows-IsGone b entries s (inr rest))
]

pub clear-gone : (b : Text × Text) (s : State) → get b (clear b.0 s).reverse ≡ none
unfolding clear
clear-gone b s = clear_rows-IsGone b s.reverse s (inr refl)

pub clear_resets-gone :
    (b : Text × Text) (tables : Tables) (ts : List Text) (acc : State × List (Text × Text))
    → has b.0 ts ≡ true
    → get b (clear_resets tables ts acc).0.reverse ≡ none
unfolding clear_resets has
clear_resets-gone b tables [] acc h = cc
clear_resets-gone b tables (t ∷ ts) acc h = elim (Bool-cases (list_eq t b.0)) [
  | inl same ↦
      clear_resets-keeps (IsGone b) (remove-IsGone b) tables ts
        (clear t acc.0, add_rows t (tables t) acc.1)
        (subst (λ u. IsGone b (clear u acc.0)) (sym ((list_eq_iff t b.0).0 same))
          (clear-gone b acc.0))
  | inr ne ↦ clear_resets-gone b tables ts _ (rw ne at h)
]

pub remove_all-gone :
    (b : Text × Text) (l : List (Text × Text)) (s : State)
    → has b l ≡ true
    → get b (remove_all l s).reverse ≡ none
unfolding remove_all has
remove_all-gone b [] s h = cc
remove_all-gone b (a ∷ l) s h = elim (Bool-cases (pair_same a b)) [
  | inl same ↦
      remove_all-keeps (IsGone b) (remove-IsGone b) l (remove a s)
        (get-remove_row a b s ∙ rw same refl)
  | inr ne ↦ remove_all-gone b l (remove a s) (rw ne at h)
]

pub remove_all-stays_gone :
    (b : Text × Text) (l : List (Text × Text)) (s : State)
    → get b s.reverse ≡ none
    → get b (remove_all l s).reverse ≡ none
remove_all-stays_gone b l s h = remove_all-keeps (IsGone b) (remove-IsGone b) l s h
