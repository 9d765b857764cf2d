-- ===== src/Swap/Names/Distinct.antt =====
-- Targets that `check_targets` accepts and their paths (src/migration/encrypted/marker.rs).
use clove1db.Prelude.{
  ℕ, zero, suc, ◌≡◌, refl, sym, ◌∙◌, ap, Bool, true, false, not, ◌&&◌, and-true, ◌||◌, List, [],
  ◌∷◌, ◌++◌, some, length, get_elem?, length-append, list_eq, list_eq_refl, arith, ◌≢◌, ◌⊎◌, inl,
  inr,
}
use mathlib.Core.Path.{subst, ap₂}
use mathlib.Core.List.{append-nil, head-eq_of_cons-eq, tail-eq_of_cons-eq}
use clove1db.Prelude.Bytes.{Text}
use clove1db.Prelude.Results.{ok, guard, migration_error, >>=-eq-ok, guard-ok}
use clove1db.Swap.Names.{
  Root, main, backup, Target, new_suffix, old_suffix, has_separator, ends_with, is_valid_name,
  root_eq, same_place, is_listed, all_valid, all_new, check_targets, path_name, Places, base_of,
}

pub data Suffix : Type 0 where
  plain : Suffix
  new : Suffix
  old : Suffix

unfoldable pub suffix_text : Suffix → Text
suffix_text plain = []
suffix_text new = new_suffix
suffix_text old = old_suffix

or-true : (b : Bool) → (b || true) ≡ true
or-true true = refl
or-true false = refl

ends_with-append : (xs suffix : Text) → ends_with (xs ++ suffix) suffix ≡ true
unfolding ends_with
ends_with-append [] [] = list_eq_refl []
ends_with-append [] (b ∷ suffix) = rw (list_eq_refl (b ∷ suffix))
ends_with-append (x ∷ xs) suffix =
    rw (ends_with-append xs suffix) (or-true (list_eq (x ∷ xs ++ suffix) suffix))

valid-ends :
    (n : Text)
    → is_valid_name n ≡ true
    → (ends_with n new_suffix ≡ false) × (ends_with n old_suffix ≡ false)
unfolding is_valid_name
valid-ends n h =
    go (list_eq n []) (list_eq n (b'.' ∷ [])) (list_eq n (b'.' ∷ b'.' ∷ [])) (has_separator n)
      (ends_with n new_suffix) (ends_with n old_suffix) h
  where
    go :
        (a b c d e f : Bool)
        → not (a || (b || (c || (d || (e || f))))) ≡ true
        → (e ≡ false) × (f ≡ false)
    go false false false false false false h = (refl, refl)
    go true b c d e f h = cc
    go false true c d e f h = cc
    go false false true d e f h = cc
    go false false false true e f h = cc
    go false false false false true f h = cc
    go false false false false false true h = cc

-- Two texts with suffixes of one length are equal part by part.
append-cancel : (xs ys a b : Text) → length a ≡ length b → xs ++ a ≡ ys ++ b → (xs ≡ ys) × (a ≡ b)
append-cancel [] [] a b l h = (refl, h)
append-cancel [] (y ∷ ys) a b l h = absurd (omega (arith, l, ap length h, length-append (y ∷ ys) b))
append-cancel (x ∷ xs) [] a b l h = absurd (omega (arith, l, ap length h, length-append (x ∷ xs) a))
append-cancel (x ∷ xs) (y ∷ ys) a b l h =
    let (e, f) = append-cancel xs ys a b l (tail-eq_of_cons-eq h) in
    (ap₂ (λ u v. u ∷ v) (head-eq_of_cons-eq h) e, f)

-- A name with a suffix is no valid name.
valid-plain :
    (n m : Text)
    → is_valid_name n ≡ true
    → (s : Suffix) → n ++ [] ≡ m ++ suffix_text s
    → (n ≡ m) × (plain ≡ s)
unfolding suffix_text
valid-plain n m v plain h = (sym (append-nil n) ∙ h ∙ append-nil m, refl)
valid-plain n m v new h = cc (
  ends_with-append m new_suffix,
  (valid-ends n v).0,
  ap (λ x. ends_with x new_suffix) (sym (append-nil n) ∙ h),
)
valid-plain n m v old h = cc (
  ends_with-append m old_suffix,
  (valid-ends n v).1,
  ap (λ x. ends_with x old_suffix) (sym (append-nil n) ∙ h),
)

names-apart :
    (n m : Text) (s r : Suffix)
    → is_valid_name n ≡ true
    → is_valid_name m ≡ true
    → n ++ suffix_text s ≡ m ++ suffix_text r
    → (n ≡ m) × (s ≡ r)
unfolding suffix_text list_eq
names-apart n m plain r v w h = valid-plain n m v r h
names-apart n m new plain v w h = let (e, f) = valid-plain m n w new (sym h) in (sym e, sym f)
names-apart n m old plain v w h = let (e, f) = valid-plain m n w old (sym h) in (sym e, sym f)
names-apart n m new new v w h = ((append-cancel n m _ _ refl h).0, refl)
names-apart n m old old v w h = ((append-cancel n m _ _ refl h).0, refl)
names-apart n m new old v w h =
    cc (ap (λ x. list_eq x old_suffix) (append-cancel n m new_suffix old_suffix refl h).1)
names-apart n m old new v w h =
    cc (ap (λ x. list_eq x old_suffix) (append-cancel n m old_suffix new_suffix refl h).1)

same_place-eq : (t u : Target) → t.root ≡ u.root → t.name ≡ u.name → same_place t u ≡ true
unfolding same_place root_eq
same_place-eq t u r n = rw (r, n, list_eq_refl u.name) (go u.root)
  where
    go : (x : Root) → (root_eq x x && true) ≡ true
    go main = refl
    go backup = refl

some_eq : (x y : Target) → some x ≡ some y → x ≡ y
some_eq x y h = cc

at-valid :
    (ts : List Target) (i : ℕ) (t : Target)
    → all_valid ts ≡ true
    → get_elem? ts i ≡ some t
    → is_valid_name t.name ≡ true
unfolding all_valid
at-valid [] i t h g = cc
at-valid (x ∷ ts) zero t h g =
    subst (λ (o : Target). is_valid_name o.name ≡ true) (some_eq x t g)
      (and-true (is_valid_name x.name) (all_valid ts) h).0
at-valid (x ∷ ts) (suc i) t h g =
    at-valid ts i t (and-true (is_valid_name x.name) (all_valid ts) h).1 g

at-listed :
    (ts : List Target) (i : ℕ) (t u : Target)
    → get_elem? ts i ≡ some u
    → same_place t u ≡ true
    → is_listed t ts ≡ true
unfolding is_listed
at-listed [] i t u g h = cc
at-listed (x ∷ ts) zero t u g h =
    rw (subst (λ (o : Target). same_place t o ≡ true) (sym (some_eq x u g)) h)
at-listed (x ∷ ts) (suc i) t u g h = rw (at-listed ts i t u g h) (or-true (same_place t x))

at-distinct :
    (ts : List Target) (i j : ℕ) (t u : Target)
    → all_new ts ≡ true
    → get_elem? ts i ≡ some t
    → get_elem? ts j ≡ some u
    → same_place t u ≡ true
    → same_place u t ≡ true
    → i ≡ j
unfolding all_new
at-distinct [] i j t u h g k e f = cc
at-distinct (x ∷ ts) zero zero t u h g k e f = refl
at-distinct (x ∷ ts) zero (suc j) t u h g k e f = cc (
  (and-true (not (is_listed x ts)) (all_new ts) h).0,
  at-listed ts j x u k (subst (λ (o : Target). same_place o u ≡ true) (sym (some_eq x t g)) e),
)
at-distinct (x ∷ ts) (suc i) zero t u h g k e f = cc (
  (and-true (not (is_listed x ts)) (all_new ts) h).0,
  at-listed ts i x t g (subst (λ (o : Target). same_place o t ≡ true) (sym (some_eq x u k)) f),
)
at-distinct (x ∷ ts) (suc i) (suc j) t u h g k e f =
    ap (λ n. suc n)
      (at-distinct ts i j t u (and-true (not (is_listed x ts)) (all_new ts) h).1 g k e f)

-- Different folders tell the roots apart.
base-root :
    (places : Places) (r q : Root)
    → places.main_folder ≢ places.backup_folder
    → base_of places r ≡ base_of places q
    → r ≡ q
unfolding base_of
base-root places main main apart e = refl
base-root places main backup apart e = absurd (apart e)
base-root places backup main apart e = absurd (apart (sym e))
base-root places backup backup apart e = refl

same-position :
    (ts : List Target) (i j : ℕ) (t u : Target) (s r : Suffix)
    → check_targets ts ≡ ok tt
    → get_elem? ts i ≡ some t
    → get_elem? ts j ≡ some u
    → t.root ≡ u.root
    → t.name ++ suffix_text s ≡ u.name ++ suffix_text r
    → (i ≡ j) × (s ≡ r)
unfolding check_targets
same-position ts i j t u s r h g k e p =
    let (x, hx, h1) =
      >>=-eq-ok (guard (all_valid ts) (migration_error "a file name of the migration is not valid"))
        _ h in
    let valid = guard-ok (all_valid ts) _ x hx in
    let fresh = guard-ok (all_new ts) _ tt h1 in
    let (n, q) =
      names-apart t.name u.name s r (at-valid ts i t valid g) (at-valid ts j u valid k) p in
    (
      at-distinct ts i j t u fresh g k (same_place-eq t u e n) (same_place-eq u t (sym e) (sym n)),
      q,
    )

-- In a list that `check_targets` accepts, the paths of two targets at different positions, or of one
-- under two of its three suffixes, are different, where the two are under one root or the two
-- folders are different.
pub check_targets_distinct :
    (places : Places) (ts : List Target) (i j : ℕ) (t u : Target) (s r : Suffix)
    → check_targets ts ≡ ok tt
    → get_elem? ts i ≡ some t
    → get_elem? ts j ≡ some u
    → (t.root ≡ u.root) ⊎ (places.main_folder ≢ places.backup_folder)
    → (i ≢ j) ⊎ (s ≢ r)
    → path_name places t (suffix_text s) ≢ path_name places u (suffix_text r)
unfolding path_name
check_targets_distinct places ts i j t u s r h g k apart differ p =
    let name : t.name ++ suffix_text s ≡ u.name ++ suffix_text r = ap (λ q. q.1) p in
    let root : t.root ≡ u.root = elim apart [
      | inl same ↦ same
      | inr folders ↦ base-root places t.root u.root folders (ap (λ q. q.0) p)
    ] in
    let both = same-position ts i j t u s r h g k root name in
    elim differ [ inl ne ↦ ne both.0 | inr ne ↦ ne both.1 ]
