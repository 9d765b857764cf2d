-- ===== src/LastWrite/Laws.antt =====
-- `apply` on the table is what an effect does to a map from rows to numbers.
use clove1db.Prelude.{
  ℕ, ◌≡◌, refl, sym, ◌∙◌, ap, Bool, true, false, not, ◌&&◌, ◌||◌, List, [], ◌∷◌, Option, none, some,
  list_eq, list_eq_iff, if◌then◌else◌,
}
use clove1db.Prelude.Bytes.{Text}
use clove1db.Journal.Row.{ChangeKind, upsert, delete, table_reset, blob_put, blob_delete}
use clove1db.LastWrite.{Writes, number_at, put, retain, is_other, put_all, apply}

number_at-put :
    (k j : List ℕ) (v : ℕ) (m : Writes)
    → number_at j (put k v m) ≡ (if list_eq k j then some v else number_at j m)
unfolding number_at put
number_at-put k j v [] = refl
number_at-put k j v ((i, w) ∷ m) =
    go (list_eq i k) (list_eq k j) (list_eq i j) refl refl refl (number_at-put k j v m)
  where
    go :
        (a b c : Bool)
        → list_eq i k ≡ a
        → list_eq k j ≡ b
        → list_eq i j ≡ c
        → number_at j (put k v m) ≡ (if list_eq k j then some v else number_at j m)
        → number_at j (if a then (k, v) ∷ m else (i, w) ∷ put k v m)
          ≡ (if b then some v else if c then some w else number_at j m)
    go true true c ea eb ec ih = rw eb
    go true false true ea eb ec ih = cc (eb, ec, ap (λ x. list_eq x j) ((list_eq_iff i k).0 ea))
    go true false false ea eb ec ih = rw eb
    go false true true ea eb ec ih =
        cc (ea, (list_eq_iff i k).1 ((list_eq_iff i j).0 ec ∙ sym ((list_eq_iff k j).0 eb)))
    go false true false ea eb ec ih = rw (ec, ih, eb)
    go false false true ea eb ec ih = rw ec
    go false false false ea eb ec ih = rw (ec, ih, eb)

number_at-retain :
    (keep : List ℕ → Bool) (j : List ℕ) (m : Writes)
    → number_at j (retain keep m) ≡ (if keep j then number_at j m else none)
unfolding number_at retain
number_at-retain keep j [] = both (keep j) none
  where
    both : (b : Bool) (o : Option ℕ) → o ≡ (if b then o else o)
    both true o = refl
    both false o = refl
number_at-retain keep j ((i, w) ∷ m) =
    go (keep i) (keep j) (list_eq i j) refl refl refl (number_at-retain keep j m)
  where
    go :
        (a b c : Bool)
        → keep i ≡ a
        → keep j ≡ b
        → list_eq i j ≡ c
        → number_at j (retain keep m) ≡ (if keep j then number_at j m else none)
        → number_at j (if a then (i, w) ∷ retain keep m else retain keep m)
          ≡ (if b then (if c then some w else number_at j m) else none)
    go true true true ea eb ec ih = rw ec
    go true true false ea eb ec ih = rw (ec, ih, eb)
    go true false true ea eb ec ih = cc (ea, eb, ap keep ((list_eq_iff i j).0 ec))
    go true false false ea eb ec ih = rw (ec, ih, eb)
    go false true true ea eb ec ih = cc (ea, eb, ap keep ((list_eq_iff i j).0 ec))
    go false true false ea eb ec ih = rw (ih, eb)
    go false false c ea eb ec ih = rw (ih, eb)

list_eq_comm : (xs ys : List ℕ) → list_eq xs ys ≡ list_eq ys xs
list_eq_comm xs ys = go (list_eq xs ys) (list_eq ys xs) refl refl
  where
    go : (a b : Bool) → list_eq xs ys ≡ a → list_eq ys xs ≡ b → a ≡ b
    go true true ea eb = refl
    go true false ea eb = cc (eb, (list_eq_iff ys xs).1 (sym ((list_eq_iff xs ys).0 ea)))
    go false true ea eb = cc (ea, (list_eq_iff xs ys).1 (sym ((list_eq_iff ys xs).0 eb)))
    go false false ea eb = refl

flip : (b : Bool) (o : Option ℕ) → (if not b then o else none) ≡ (if b then none else o)
flip true o = refl
flip false o = refl

-- A row is one of these.
unfoldable pub is_row : Text → List Text → Bool
is_row row [] = false
is_row row (r ∷ rows) = list_eq r row || is_row row rows

-- The number of a row after an effect, from its number before it.
unfoldable pub written : (Text → List Text) → ChangeKind → ℕ → Text → Text → Option ℕ → Option ℕ
written rows (upsert t r value) seq table row before =
    if list_eq t table && list_eq r row then some seq else before
written rows (delete t r) seq table row before =
    if list_eq t table && list_eq r row then none else before
written rows (table_reset t snapshot) seq table row before =
    if list_eq t table then (if is_row row (rows t) then some seq else none) else before
written rows _ seq table row before = before

module _ (key : Text → Text → List ℕ) (parse : List ℕ → Option (Text × Text))
    (law : (t r : Text) → parse (key t r) ≡ some (t, r)) where
  key-eq : (t r u s : Text) → key t r ≡ key u s → (t ≡ u) × (r ≡ s)
  key-eq t r u s h = parts (t, r) (u, s) (sym (law t r) ∙ ap parse h ∙ law u s)
    where
      parts : (p q : Text × Text) → some p ≡ some q → (p.0 ≡ q.0) × (p.1 ≡ q.1)
      parts p q e = (cc e, cc e)

  -- Keys are equal exactly where table and row are.
  list_eq-key : (t r u s : Text) → list_eq (key t r) (key u s) ≡ (list_eq t u && list_eq r s)
  list_eq-key t r u s = go (list_eq t u) (list_eq r s) (list_eq (key t r) (key u s)) refl refl refl
    where
      go :
          (a b c : Bool)
          → list_eq t u ≡ a
          → list_eq r s ≡ b
          → list_eq (key t r) (key u s) ≡ c
          → c ≡ (a && b)
      go true true true ea eb ec = refl
      go true true false ea eb ec = cc (
        ec,
        (list_eq_iff (key t r) (key u s)).1
            (ap (λ x. key x r) ((list_eq_iff t u).0 ea) ∙ ap (key u) ((list_eq_iff r s).0 eb)),
      )
      go true false true ea eb ec =
          cc (eb, (list_eq_iff r s).1 (key-eq t r u s ((list_eq_iff (key t r) (key u s)).0 ec)).1)
      go true false false ea eb ec = refl
      go false b true ea eb ec =
          cc (ea, (list_eq_iff t u).1 (key-eq t r u s ((list_eq_iff (key t r) (key u s)).0 ec)).0)
      go false b false ea eb ec = refl

  number_at-put_all :
      (t : Text) (seq : ℕ) (rows : List Text) (m : Writes) (table row : Text)
      → number_at (key table row) (put_all key parse t seq rows m)
        ≡ (if list_eq t table && is_row row rows then some seq else number_at (key table row) m)
  unfolding put_all is_row
  number_at-put_all t seq [] m table row = none_left (list_eq t table)
    where
      none_left :
          (a : Bool)
          → number_at (key table row) m
            ≡ (if a && false then some seq else number_at (key table row) m)
      none_left true = refl
      none_left false = refl
  number_at-put_all t seq (r ∷ rows) m table row =
      number_at-put_all t seq rows (put (key t r) seq m) table row
      ∙ rw (number_at-put (key t r) (key table row) seq m, list_eq-key t r table row)
          (go (list_eq t table) (list_eq r row) (is_row row rows))
    where
      go :
          (a b d : Bool)
          → (if a && d then some seq else if a && b then some seq else number_at (key table row) m)
            ≡ (if a && (b || d) then some seq else number_at (key table row) m)
      go false b d = refl
      go true true true = refl
      go true true false = refl
      go true false true = refl
      go true false false = refl

  is_other-key : (t table row : Text) → is_other key parse t (key table row) ≡ not (list_eq table t)
  unfolding is_other
  is_other-key t table row = rw (law table row) refl

  -- Whatever the effect, `apply` gives every row the number that the effect gives it.
  pub apply-written :
      (rows : Text → List Text) (effect : ChangeKind) (seq : ℕ) (m : Writes) (table row : Text)
      → number_at (key table row) (apply key parse rows effect seq m)
        ≡ written rows effect seq table row (number_at (key table row) m)
  unfolding apply written
  apply-written rows (upsert t r value) seq m table row =
      number_at-put (key t r) (key table row) seq m ∙ rw (list_eq-key t r table row)
  apply-written rows (delete t r) seq m table row =
      number_at-retain (λ k. not (list_eq k (key t r))) (key table row) m
      ∙ rw (list_eq-key table row t r, list_eq_comm table t, list_eq_comm row r)
          (flip (list_eq t table && list_eq r row) (number_at (key table row) m))
  apply-written rows (table_reset t snapshot) seq m table row =
      number_at-put_all t seq (rows t) (retain (is_other key parse t) m) table row
      ∙ rw
          (
            number_at-retain (is_other key parse t) (key table row) m,
            is_other-key t table row,
            list_eq_comm table t,
          )
          (reset (list_eq t table) (is_row row (rows t)) (number_at (key table row) m))
    where
      reset :
          (a b : Bool) (o : Option ℕ)
          → (if a && b then some seq else if not a then o else none)
            ≡ (if a then (if b then some seq else none) else o)
      reset true true o = refl
      reset true false o = refl
      reset false b o = refl
  apply-written rows (blob_put t k i s) seq m table row = refl
  apply-written rows (blob_delete t k i s) seq m table row = refl
