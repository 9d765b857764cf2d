-- ===== src/Codec/Compare.antt =====
-- The order of byte strings, and codes that are compared before either of them ends.
use Prim.Native.Nat.{compare, Ordering}
use Prim.Native.Nat.Ordering.{lt, eq, gt}
use clove1db.Prelude.{
  ℕ, zero, suc, ◌-◌, ◌/◌, ◌%◌, ◌^◌, ◌≤◌, ◌<◌, ◌≡◌, refl, ◌⊎◌, inl, inr, List, [], ◌∷◌, ◌++◌, map,
  All, arith,
}
use mathlib.Core.Path.{subst}
use native.Mathlib.Nat.{pow-suc}
use clove1db.Prelude.Bytes.{to_be}

-- `Ordering::then`
abbrev pub then_cmp : Ordering → Ordering → Ordering
then_cmp lt _ = lt
then_cmp eq o = o
then_cmp gt _ = gt

-- `Ordering::reverse`
abbrev pub reverse : Ordering → Ordering
reverse lt = gt
reverse eq = eq
reverse gt = lt

-- `[u8]::cmp`
unfoldable pub compare_bytes : List ℕ → List ℕ → Ordering
compare_bytes [] [] = eq
compare_bytes [] (b ∷ q) = lt
compare_bytes (a ∷ p) [] = gt
compare_bytes (a ∷ p) (b ∷ q) = then_cmp (compare a b) (compare_bytes p q)

-- Two byte strings are one, or differ before the end of both.
pub data Compares : List ℕ → List ℕ → Ordering → Type 0 where
  same : Compares [] [] eq
  less : (a b : ℕ) (p q : List ℕ) → a < b → Compares (a ∷ p) (b ∷ q) lt
  more : (a b : ℕ) (p q : List ℕ) → b < a → Compares (a ∷ p) (b ∷ q) gt
  step : (a : ℕ) (p q : List ℕ) (o : Ordering) → Compares p q o → Compares (a ∷ p) (a ∷ q) o

pub compare_bytes-Compares : {p q : List ℕ} {o : Ordering} → Compares p q o → compare_bytes p q ≡ o
unfolding compare_bytes
compare_bytes-Compares same = refl
compare_bytes-Compares (less a b p q h) = ground arith
compare_bytes-Compares (more a b p q h) = ground arith
compare_bytes-Compares (step a p q o c) = ground (arith, compare_bytes-Compares c)

pub Compares-append :
    {p q p' q' : List ℕ} {o o' : Ordering}
    → Compares p q o
    → Compares p' q' o'
    → Compares (p ++ p') (q ++ q') (then_cmp o o')
Compares-append same d = d
Compares-append {p' = p'} {q' = q'} (less a b p q h) d = less a b (p ++ p') (q ++ q') h
Compares-append {p' = p'} {q' = q'} (more a b p q h) d = more a b (p ++ p') (q ++ q') h
Compares-append {p' = p'} {q' = q'} {o' = o'} (step a p q o c) d =
    step a (p ++ p') (q ++ q') (then_cmp o o') (Compares-append c d)

pub Compares-cast :
    {p q p' q' : List ℕ} {o : Ordering} → p ≡ p' → q ≡ q' → Compares p q o → Compares p' q' o
Compares-cast {p} {q' = q'} {o = o} e f c =
    subst (λ x. Compares x q' o) e (subst (λ y. Compares p y o) f c)

pub Compares-complement :
    {p q : List ℕ} {o : Ordering}
    → All (λ b. b ≤ 255) p
    → All (λ b. b ≤ 255) q
    → Compares p q o
    → Compares (map (λ b. 255 - b) p) (map (λ b. 255 - b) q) (reverse o)
Compares-complement hp hq same = same
Compares-complement hp hq (less a b p q h) =
    more (255 - a) (255 - b) _ _ (omega (arith, hp.0, hq.0))
Compares-complement hp hq (more a b p q h) =
    less (255 - a) (255 - b) _ _ (omega (arith, hp.0, hq.0))
Compares-complement hp hq (step a p q o c) =
    step (255 - a) _ _ (reverse o) (Compares-complement hp.1 hq.1 c)

pub Ordering-cases : (o : Ordering) → (o ≡ lt) ⊎ (o ≡ eq) ⊎ (o ≡ gt)
Ordering-cases lt = inl refl
Ordering-cases eq = inr (inl refl)
Ordering-cases gt = inr (inr refl)

pub Compares-byte : (a b : ℕ) → Compares (a ∷ []) (b ∷ []) (compare a b)
Compares-byte a b = elim (Ordering-cases (compare a b)) [
  | inl e ↦ rw e (less a b [] [] (ground (arith, e)))
  | inr (inl e) ↦
      let same_byte : a ≡ b = ground (arith, e) in
      rw e (subst (λ c. Compares (a ∷ []) (c ∷ []) eq) same_byte (step a [] [] eq same))
  | inr (inr e) ↦ rw e (more a b [] [] (ground (arith, e)))
]

compare-div_mod :
    (v w : ℕ) → then_cmp (compare (v / 256) (w / 256)) (compare (v % 256) (w % 256)) ≡ compare v w
compare-div_mod v w = ground arith

compare-small : (v w : ℕ) → v < 1 → w < 1 → eq ≡ compare v w
compare-small v w hv hw = ground arith

pub Compares-to_be :
    (n v w : ℕ) → v < 256 ^ n → w < 256 ^ n → Compares (to_be n v) (to_be n w) (compare v w)
unfolding to_be
Compares-to_be zero v w hv hw = subst (Compares [] []) (compare-small v w hv hw) same
Compares-to_be (suc n) v w hv hw =
    subst (Compares (to_be (suc n) v) (to_be (suc n) w)) (compare-div_mod v w) (
      Compares-append
        (Compares-to_be n (v / 256) (w / 256) (omega (arith, pow-suc 256 n))
          (omega (arith, pow-suc 256 n)))
        (Compares-byte (v % 256) (w % 256)))
