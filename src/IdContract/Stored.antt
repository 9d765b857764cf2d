-- ===== src/IdContract/Stored.antt =====
-- The stored definitions as a map from tables to paths.
use clove1db.Prelude.{
  ◌≡◌, refl, sym, ◌∙◌, ap, Bool, true, false, List, [], ◌∷◌, Option, none, some, list_eq,
  list_eq_iff, if◌then◌else◌, ℕ,
}
use clove1db.Prelude.Bytes.{Text}
use clove1db.IdContract.{FieldPath, Defs, lookup, store, is_configured, drop_obsolete}

pub lookup-store :
    (t u : Text) (p : List ℕ) (defs : Defs)
    → lookup t (store u p defs) ≡ (if list_eq u t then some p else lookup t defs)
unfolding lookup store
lookup-store t u p [] = refl
lookup-store t u p ((v, q) ∷ defs) =
    go (list_eq v u) (list_eq u t) (list_eq v t) refl refl refl (lookup-store t u p defs)
  where
    go :
        (a b c : Bool)
        → list_eq v u ≡ a
        → list_eq u t ≡ b
        → list_eq v t ≡ c
        → lookup t (store u p defs) ≡ (if list_eq u t then some p else lookup t defs)
        → lookup t (if a then (u, p) ∷ defs else (v, q) ∷ store u p defs)
          ≡ (if b then some p else if c then some q else lookup t defs)
    go true true c ea eb ec ih = rw eb
    go true false true ea eb ec ih = cc (eb, ec, ap (λ x. list_eq x t) ((list_eq_iff v u).0 ea))
    go true false false ea eb ec ih = rw eb
    go false true true ea eb ec ih =
        cc (ea, (list_eq_iff v u).1 ((list_eq_iff v t).0 ec ∙ sym ((list_eq_iff u t).0 eb)))
    go false true false ea eb ec ih = rw (ec, ih, eb)
    go false false true ea eb ec ih = rw ec
    go false false false ea eb ec ih = rw (ec, ih, eb)

is_configured-eq :
    (t u : Text) (configured : List (Text × FieldPath))
    → list_eq u t ≡ true
    → is_configured u configured ≡ is_configured t configured
is_configured-eq t u configured h = ap (λ x. is_configured x configured) ((list_eq_iff u t).0 h)

pub lookup-drop_obsolete :
    (t : Text) (configured : List (Text × FieldPath)) (defs : Defs)
    → lookup t (drop_obsolete configured defs)
      ≡ (if is_configured t configured then lookup t defs else none)
unfolding lookup drop_obsolete
lookup-drop_obsolete t configured [] = both (is_configured t configured) none
  where
    both : (b : Bool) (o : Option (List ℕ)) → o ≡ (if b then o else o)
    both true o = refl
    both false o = refl
lookup-drop_obsolete t configured ((u, p) ∷ defs) =
    go (is_configured u configured) (is_configured t configured) (list_eq u t) refl refl refl
      (lookup-drop_obsolete t configured defs)
  where
    go :
        (a b c : Bool)
        → is_configured u configured ≡ a
        → is_configured t configured ≡ b
        → list_eq u t ≡ c
        → lookup t (drop_obsolete configured defs)
          ≡ (if is_configured t configured then lookup t defs else none)
        → lookup t
            (if a then (u, p) ∷ drop_obsolete configured defs else drop_obsolete configured defs)
          ≡ (if b then (if c then some p else lookup t defs) else none)
    go true true true ea eb ec ih = rw ec
    go true true false ea eb ec ih = rw (ec, ih, eb)
    go true false true ea eb ec ih = cc (ea, eb, is_configured-eq t u configured ec)
    go true false false ea eb ec ih = rw (ec, ih, eb)
    go false true true ea eb ec ih = cc (ea, eb, is_configured-eq t u configured ec)
    go false true false ea eb ec ih = rw (ih, eb)
    go false false c ea eb ec ih = rw (ih, eb)
