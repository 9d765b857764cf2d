-- ===== src/Codec/Parts.antt =====
-- The parts of an encoded value are compared as what they stand for.
use mathlib.Core.Path.{subst}
use Prim.Native.Nat.{compare}
use Prim.Native.Nat.Ordering.{lt, eq, gt}
use clove1db.Prelude.{
  ℕ, ◌^◌, ◌≤◌, ◌<◌, ◌≡◌, refl, Bool, true, false, List, [], ◌∷◌, ◌++◌, All, All-append, All-map,
  ◌==◌, if◌then◌else◌, arith, inl, inr, Bool-cases,
}
use clove1db.Prelude.Bytes.{Text, to_be-IsByte}
use clove1db.Prelude.Int.{ℤ, pos, negsuc, compare_ℤ, InRange}
use clove1db.Decimal.Digits.{IsDigit}
use clove1db.Codec.{as_u128, flip_top, signed, text, digits_part, magnitude}
use clove1db.Codec.Compare.{
  then_cmp, compare_bytes, Compares, same, less, more, step, Compares-append, Compares-cast,
  Compares-complement, Compares-byte, Compares-to_be,
}
use clove1db.Codec.Spec.{sign, compare_size, compare_signed}

signed-lt : (a : ℤ) → InRange a → flip_top (as_u128 a) < 256 ^ 16
signed-lt a h = omega arith

compare-flip_top :
    (a b : ℤ)
    → InRange a
    → InRange b
    → compare (flip_top (as_u128 a)) (flip_top (as_u128 b)) ≡ compare_ℤ a b
unfolding compare_ℤ
compare-flip_top (pos a) (pos b) ha hb = ground arith
compare-flip_top (pos a) (negsuc b) ha hb = ground arith
compare-flip_top (negsuc a) (pos b) ha hb = ground arith
compare-flip_top (negsuc a) (negsuc b) ha hb = ground arith

pub Compares-signed :
    (a b : ℤ) → InRange a → InRange b → Compares (signed a) (signed b) (compare_ℤ a b)
unfolding signed
Compares-signed a b ha hb =
    subst (Compares (signed a) (signed b)) (compare-flip_top a b ha hb)
      (Compares-to_be 16 _ _ (signed-lt a ha) (signed-lt b hb))

Compares-digits :
    (s t : Text)
    → All IsDigit s
    → All IsDigit t
    → Compares (s ++ 0 ∷ []) (t ++ 0 ∷ []) (compare_bytes s t)
unfolding compare_bytes
Compares-digits [] [] hs ht = step 0 [] [] eq same
Compares-digits [] (d ∷ t) hs ht = less 0 d [] _ (omega arith)
Compares-digits (c ∷ s) [] hs ht = more c 0 _ [] (omega arith)
Compares-digits (c ∷ s) (d ∷ t) hs ht =
    Compares-append (Compares-byte c d) (Compares-digits s t hs.1 ht.1)

-- A zero byte is written as two, so that the end, two zeros, comes first.
abbrev escape : ℕ → List ℕ
escape b = if b == 0 then 0 ∷ 255 ∷ [] else b ∷ []

text-cons : (b : ℕ) (s : Text) → escape b ++ text s ≡ text (b ∷ s)
unfolding text
text-cons b s = elim (Bool-cases (b == 0)) [ inl zero ↦ rw zero refl | inr other ↦ rw other refl ]

Compares-escape : (b c : ℕ) → Compares (escape b) (escape c) (compare b c)
Compares-escape b c = elim (Bool-cases (b == 0)) [
  | inl b0 ↦ elim (Bool-cases (c == 0)) [
    | inl c0 ↦
        subst (Compares (escape b) (escape c)) (both_zero b0 c0)
          (rw (b0, c0) (step 0 _ _ eq (step 255 _ _ eq same)))
    | inr c1 ↦
        subst (Compares (escape b) (escape c)) (first_zero b0 c1)
          (rw (b0, c1) (less 0 c _ _ (ground (arith, c1))))
  ]
  | inr b1 ↦ elim (Bool-cases (c == 0)) [
    | inl c0 ↦
        subst (Compares (escape b) (escape c)) (last_zero b1 c0)
          (rw (b1, c0) (more b 0 _ _ (ground (arith, b1))))
    | inr c1 ↦ rw (b1, c1) (Compares-byte b c)
  ]
]
  where
    both_zero : (b == 0) ≡ true → (c == 0) ≡ true → eq ≡ compare b c
    both_zero p q = ground arith

    first_zero : (b == 0) ≡ true → (c == 0) ≡ false → lt ≡ compare b c
    first_zero p q = ground arith

    last_zero : (b == 0) ≡ false → (c == 0) ≡ true → gt ≡ compare b c
    last_zero p q = ground arith

Compares-nil_text : (d : ℕ) (t : Text) → Compares (text []) (text (d ∷ t)) lt
unfolding text
Compares-nil_text d t = elim (Bool-cases (d == 0)) [
  | inl zero ↦ rw zero (step 0 _ _ lt (less 0 255 _ _ (omega arith)))
  | inr other ↦ rw other (less 0 d _ _ (ground (arith, other)))
]

Compares-text_nil : (d : ℕ) (t : Text) → Compares (text (d ∷ t)) (text []) gt
unfolding text
Compares-text_nil d t = elim (Bool-cases (d == 0)) [
  | inl zero ↦ rw zero (step 0 _ _ gt (more 255 0 _ _ (omega arith)))
  | inr other ↦ rw other (more d 0 _ _ (ground (arith, other)))
]

pub Compares-text : (s t : Text) → Compares (text s) (text t) (compare_bytes s t)
unfolding compare_bytes
Compares-text [] [] = unfold text in step 0 _ _ eq (step 0 _ _ eq same)
Compares-text [] (d ∷ t) = Compares-nil_text d t
Compares-text (c ∷ s) [] = Compares-text_nil c s
Compares-text (c ∷ s) (d ∷ t) =
    Compares-cast (text-cons c s) (text-cons d t)
      (Compares-append (Compares-escape c d) (Compares-text s t))

signed-IsByte : (a : ℤ) → All (λ b. b ≤ 255) (signed a)
unfolding signed
signed-IsByte a = All-map _ _ _ (λ b h. omega (arith, h)) (to_be-IsByte 16 (flip_top (as_u128 a)))

digits_part-IsByte : (s : Text) (x : ℤ) → All IsDigit s → All (λ b. b ≤ 255) (digits_part s x)
unfolding digits_part
digits_part-IsByte s x h =
    All-append _ (signed x) _ (signed-IsByte x)
      (All-append _ s _ (All-map _ _ s (λ b d. omega (arith, d)) h) (omega arith, tt))

Compares-digits_part :
    (s t : Text) (x y : ℤ)
    → All IsDigit s
    → All IsDigit t
    → InRange x
    → InRange y
    → Compares (digits_part s x) (digits_part t y) (compare_size s x t y)
unfolding digits_part
Compares-digits_part s t x y hs ht hx hy =
    Compares-append (Compares-signed x y hx hy) (Compares-digits s t hs ht)

-- The bytes of a number's sign and size.
pub Compares-magnitude :
    (a b : Bool) (s t : Text) (x y : ℤ)
    → All IsDigit s
    → All IsDigit t
    → InRange x
    → InRange y
    → Compares
        (magnitude a s x)
        (magnitude b t y)
        (then_cmp (compare (sign a s) (sign b t)) (compare_signed a s x t y))
unfolding magnitude
Compares-magnitude a b [] [] x y hs ht hx hy = step 1 [] [] eq same
Compares-magnitude a true [] (d ∷ t) x y hs ht hx hy = more 1 0 _ _ (omega arith)
Compares-magnitude a false [] (d ∷ t) x y hs ht hx hy = less 1 2 _ _ (omega arith)
Compares-magnitude true b (c ∷ s) [] x y hs ht hx hy = less 0 1 _ _ (omega arith)
Compares-magnitude false b (c ∷ s) [] x y hs ht hx hy = more 2 1 _ _ (omega arith)
Compares-magnitude true false (c ∷ s) (d ∷ t) x y hs ht hx hy = less 0 2 _ _ (omega arith)
Compares-magnitude false true (c ∷ s) (d ∷ t) x y hs ht hx hy = more 2 0 _ _ (omega arith)
Compares-magnitude true true (c ∷ s) (d ∷ t) x y hs ht hx hy = step 0 _ _ _ (
    Compares-complement (digits_part-IsByte (c ∷ s) x hs) (digits_part-IsByte (d ∷ t) y ht)
      (Compares-digits_part (c ∷ s) (d ∷ t) x y hs ht hx hy))
Compares-magnitude false false (c ∷ s) (d ∷ t) x y hs ht hx hy =
    step 2 _ _ _ (Compares-digits_part (c ∷ s) (d ∷ t) x y hs ht hx hy)
