-- ===== src/Prelude/Lists.antt =====
-- Lists measured and cut by native numbers, under the library's names.
use Prim.Native.Nat.{ℕ, zero, suc, ◌+◌, ◌-◌, ◌≤◌}
use mathlib.Core.Path.{◌≡◌, refl, ap, ◌∙◌}
use mathlib.Core.List.{List, [], ◌∷◌, ◌++◌}
use mathlib.Core.Option.{Option, none, some}
use native.Mathlib.Omega.{arith}

module _ {ℓ} {A : Type ℓ} where
  abbrev pub length : List A → ℕ
  length [] = 0
  length (x ∷ xs) = suc (length xs)

  abbrev pub get_elem? : List A → ℕ → Option A
  get_elem? [] i = none
  get_elem? (x ∷ xs) zero = some x
  get_elem? (x ∷ xs) (suc i) = get_elem? xs i

  abbrev pub take : ℕ → List A → List A
  take zero xs = []
  take (suc n) [] = []
  take (suc n) (x ∷ xs) = x ∷ take n xs

  abbrev pub drop : ℕ → List A → List A
  drop zero xs = xs
  drop (suc n) [] = []
  drop (suc n) (x ∷ xs) = drop n xs

  -- A predicate on every element.
  abbrev pub All {κ} : (A → Type κ) → List A → Type κ
  All P [] = Unit {κ}
  All P (x ∷ xs) = P x × All P xs

module _ {ℓ} {A : Type ℓ} where
  pub length-append : (xs ys : List A) → length (xs ++ ys) ≡ length xs + length ys
  length-append [] ys = omega arith
  length-append (x ∷ xs) ys = omega (arith, length-append xs ys)

  pub take-length_append : (xs ys : List A) → take (length xs) (xs ++ ys) ≡ xs
  take-length_append [] ys = refl
  take-length_append (x ∷ xs) ys = ap (λ r. x ∷ r) (take-length_append xs ys)

  pub drop-length_append : (xs ys : List A) → drop (length xs) (xs ++ ys) ≡ ys
  drop-length_append [] ys = refl
  drop-length_append (x ∷ xs) ys = drop-length_append xs ys

  pub length-take : (k : ℕ) (l : List A) → k ≤ length l → length (take k l) ≡ k
  length-take zero l h = refl
  length-take (suc k) [] h = omega (arith, h)
  length-take (suc k) (x ∷ l) h = ap suc (length-take k l (omega (arith, h)))

  pub length-drop : (k : ℕ) (l : List A) → length (drop k l) ≡ length l - k
  length-drop zero l = omega arith
  length-drop (suc k) [] = omega arith
  length-drop (suc k) (x ∷ l) = length-drop k l ∙ omega arith

  pub take-append-drop : (k : ℕ) (l : List A) → take k l ++ drop k l ≡ l
  take-append-drop zero l = refl
  take-append-drop (suc k) [] = refl
  take-append-drop (suc k) (x ∷ l) = ap (λ r. x ∷ r) (take-append-drop k l)

  pub All-append {κ} : (P : A → Type κ) (xs ys : List A) → All P xs → All P ys → All P (xs ++ ys)
  All-append P [] ys hx hy = hy
  All-append P (x ∷ xs) ys hx hy = (hx.0, All-append P xs ys hx.1 hy)

  pub All-split {κ} :
      (P : A → Type κ) (xs : List A) (y : A) (ys : List A) → All P (xs ++ y ∷ ys) → All P xs × P y
  All-split P [] y ys h = (tt, h.0)
  All-split P (x ∷ xs) y ys h = let rest = All-split P xs y ys h.1 in ((h.0, rest.0), rest.1)

  -- What follows from two predicates at each element follows at all elements.
  pub All-both {κ μ ν} :
      (P : A → Type κ) (Q : A → Type μ) (R : A → Type ν) (l : List A)
      → ((x : A) → P x → Q x → R x)
      → All P l
      → All Q l
      → All R l
  All-both P Q R [] f p q = tt
  All-both P Q R (x ∷ l) f p q = (f x p.0 q.0, All-both P Q R l f p.1 q.1)

  pub All-map {κ μ} :
      (P : A → Type κ) (Q : A → Type μ) (l : List A) → ((x : A) → P x → Q x) → All P l → All Q l
  All-map P Q [] f p = tt
  All-map P Q (x ∷ l) f p = (f x p.0, All-map P Q l f p.1)
