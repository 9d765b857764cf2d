-- ===== src/Prelude/Table/Laws.antt =====
-- What follows from the laws of a table with names.
use Prim.Native.String.{String}
use text.Mathlib.Text.{◌==◌ as str_eq}
use text.Mathlib.TextEquality.{eq_iff}
use mathlib.Core.Path.{◌≡◌, refl, ◌∙◌, sym, subst}
use mathlib.Core.Logic.{inl, inr}
use mathlib.Core.Bool.{false}
use mathlib.Core.List.{List, [], ◌∷◌, ◌++◌}
use mathlib.Core.Option.{none, some}
use native.Mathlib.Omega.{arith}
use clove1db.Prelude.Tests.{if◌then◌else◌, Bool-cases, Option-cases}
use clove1db.Prelude.Lists.{All}
use clove1db.Prelude.Table.{NameTable}
use clove1db.Prelude.Table.Entries.{find, replace, without}

module _ {V : Type 0} where
  find-replace_ne :
      (k j : String) (v : V) (l : List (String × V))
      → str_eq k j ≡ false
      → find j (replace k v l) ≡ find j l
  unfolding find replace
  find-replace_ne k j v [] e = refl
  find-replace_ne k j v ((i, w) ∷ l) e =
      ground (arith, eq_iff i k, eq_iff i j, eq_iff k j, find-replace_ne k j v l e)

  find-replace :
      (k j : String) (v w : V) (l : List (String × V))
      → find k l ≡ some w
      → find j (replace k v l) ≡ (if str_eq k j then some v else find j l)
  unfolding find replace
  find-replace k j v w [] h = cc
  find-replace k j v w ((i, x) ∷ l) h =
      ground
        (arith, eq_iff i k, eq_iff i j, eq_iff k j, find-replace_ne k j v l, find-replace k j v w l)

  find-middle :
      (k j : String) (v : V) (front back : List (String × V))
      → find k (front ++ back) ≡ none
      → find j (front ++ (k, v) ∷ back) ≡ (if str_eq k j then some v else find j (front ++ back))
  unfolding find
  find-middle k j v [] back h = refl
  find-middle k j v ((i, w) ∷ front) back h =
      ground (arith, eq_iff i k, eq_iff i j, eq_iff k j, find-middle k j v front back)

  find-without :
      (k j : String) (l : List (String × V))
      → find j (without k l) ≡ (if str_eq k j then none else find j l)
  unfolding find without
  find-without k j [] = ground arith
  find-without k j ((i, w) ∷ l) =
      ground (arith, eq_iff i k, eq_iff i j, eq_iff k j, find-without k j l)

  module _ (P : V → Type 0) where
    All-find :
        (k : String) (l : List (String × V)) {v : V} → All (λ e. P e.1) l → find k l ≡ some v → P v
    unfolding find
    All-find k [] a h = cc
    All-find k ((j, w) ∷ l) {v} a h = elim (Bool-cases (str_eq j k)) [
      | inl same ↦ let e : some w ≡ some v = rw same at h in subst P (cc e) a.0
      | inr other ↦ All-find k l a.1 (rw other at h)
    ]

    All-replace :
        (k : String) (v : V) (l : List (String × V))
        → P v
        → All (λ e. P e.1) l
        → All (λ e. P e.1) (replace k v l)
    unfolding replace
    All-replace k v [] p a = tt
    All-replace k v ((j, w) ∷ l) p a = (ground (arith, a.0), All-replace k v l p a.1)

    All-without :
        (k : String) (l : List (String × V)) → All (λ e. P e.1) l → All (λ e. P e.1) (without k l)
    unfolding without
    All-without k [] a = tt
    All-without k ((j, w) ∷ l) a = ground (arith, All-without k l a.1)

    All-middle :
        (k : String) (v : V) (front back : List (String × V))
        → P v
        → All (λ e. P e.1) (front ++ back)
        → All (λ e. P e.1) (front ++ (k, v) ∷ back)
    All-middle k v [] back p a = (p, a)
    All-middle k v ((j, w) ∷ front) back p a = (a.0, All-middle k v front back p a.1)

module _ {V : Type 0} (names : NameTable V) where
  open names use {Table, iter, get, insert, remove, get_law, insert_old, insert_new, remove_law}

  pub get-insert :
      (t : Table) (k j : String) (v : V)
      → get (insert t k v) j ≡ (if str_eq k j then some v else get t j)
  get-insert t k j v =
      rw (get_law, get_law)
        (elim (Option-cases (find k (iter t))) [
          | inl absent ↦
              let (front, back, old, new) = insert_new t k v absent in
              rw (new, old) (find-middle k j v front back (rw old at absent))
          | inr (w, present) ↦ rw (insert_old t k v present) (find-replace k j v w (iter t) present)
        ])

  pub get-remove :
      (t : Table) (k j : String) → get (remove t k) j ≡ (if str_eq k j then none else get t j)
  get-remove t k j = rw (get_law, get_law, remove_law) (find-without k j (iter t))

  module _ (P : V → Type 0) where
    pub All-get :
        (t : Table) (k : String) {v : V} → All (λ e. P e.1) (iter t) → get t k ≡ some v → P v
    All-get t k a h = All-find P k (iter t) a (sym (get_law t k) ∙ h)

    pub All-insert :
        (t : Table) (k : String) (v : V)
        → P v
        → All (λ e. P e.1) (iter t)
        → All (λ e. P e.1) (iter (insert t k v))
    All-insert t k v p a = elim (Option-cases (find k (iter t))) [
      | inl absent ↦
          let (front, back, old, new) = insert_new t k v absent in
          rw new (All-middle P k v front back p (rw old at a))
      | inr (w, present) ↦ rw (insert_old t k v present) (All-replace P k v (iter t) p a)
    ]

    pub All-remove :
        (t : Table) (k : String) → All (λ e. P e.1) (iter t) → All (λ e. P e.1) (iter (remove t k))
    All-remove t k a = rw remove_law (All-without P k (iter t) a)
