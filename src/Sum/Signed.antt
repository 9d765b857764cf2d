-- ===== src/Sum/Signed.antt =====
-- Sums of numbers with signs.
use clove1db.Prelude.{
  ℕ, zero, suc, ◌+◌, ◌-◌, ◌≤◌, ◌<◌, ◌≡◌, refl, sym, ◌∙◌, ap, inl, inr, Bool, true, false, ltb,
  arith, Bool-cases,
}
use clove1db.Prelude.Int.{ℤ, pos, negsuc, neg_ℕ, sub_ℕ, ◌+ℤ◌, ◌-ℤ◌}

-- A number with a sign.
abbrev pub signed : Bool → ℕ → ℤ
signed false n = pos n
signed true n = neg_ℕ n

sub_ℕ-pos : (a b : ℕ) → b ≤ a → sub_ℕ a b ≡ pos (a - b)
sub_ℕ-pos a b h = rw over refl
  where
    over : ltb a b ≡ false
    over = ground (arith, h)

sub_ℕ-negsuc : (a b : ℕ) → a < b → sub_ℕ a b ≡ negsuc (b - a - 1)
sub_ℕ-negsuc a b h = rw under refl
  where
    under : ltb a b ≡ true
    under = ground (arith, h)

neg_of : (n : ℕ) → 0 < n → neg_ℕ n ≡ negsuc (n - 1)
neg_of zero h = absurd (omega (arith, h))
neg_of (suc n) h = ap negsuc (omega arith)

pub neg_add : (a b : ℕ) → neg_ℕ (a + b) ≡ neg_ℕ a +ℤ neg_ℕ b
unfolding ◌+ℤ◌
neg_add zero zero = refl
neg_add zero (suc b) =
    neg_of (0 + suc b) (omega arith)
    ∙ ap negsuc (omega arith)
    ∙ sym (sub_ℕ-negsuc 0 (suc b) (omega arith))
neg_add (suc a) zero =
    neg_of (suc a + 0) (omega arith)
    ∙ ap negsuc (omega arith)
    ∙ sym (sub_ℕ-negsuc 0 (suc a) (omega arith))
neg_add (suc a) (suc b) = neg_of (suc a + suc b) (omega arith) ∙ ap negsuc (omega arith)

pub below : (a b c : ℕ) → c + a ≡ b → neg_ℕ c ≡ pos a +ℤ neg_ℕ b
unfolding ◌+ℤ◌
below a zero c h = ap neg_ℕ nothing ∙ ap pos (omega (arith, h))
  where
    nothing : c ≡ 0
    nothing = omega (arith, h)
below a (suc b) zero h = ap pos (omega (arith, h)) ∙ sym (sub_ℕ-pos a (suc b) (omega (arith, h)))
below a (suc b) (suc c) h =
    ap negsuc (omega (arith, h)) ∙ sym (sub_ℕ-negsuc a (suc b) (omega (arith, h)))

pub above : (a b c : ℕ) → c + b ≡ a → pos c ≡ pos a +ℤ neg_ℕ b
unfolding ◌+ℤ◌
above a zero c h = ap pos (omega (arith, h))
above a (suc b) c h = ap pos (omega (arith, h)) ∙ sym (sub_ℕ-pos a (suc b) (omega (arith, h)))

pub add_neg : (a b : ℕ) → neg_ℕ a +ℤ pos b ≡ pos b +ℤ neg_ℕ a
unfolding ◌+ℤ◌
add_neg zero b = ap pos (omega arith)
add_neg (suc a) b = refl

pub add_sub : (c : ℤ) (n : ℕ) → (c +ℤ pos n) -ℤ c ≡ pos n
unfolding ◌-ℤ◌ ◌+ℤ◌
add_sub (pos zero) n = ap pos (omega arith)
add_sub (pos (suc a)) n = sub_ℕ-pos (suc a + n) (suc a) (omega arith) ∙ ap pos (omega arith)
add_sub (negsuc a) n = elim (Bool-cases (ltb n (suc a))) [
  | inl less ↦
      let low : n < suc a = ground (arith, less) in
      ap (λ z. z +ℤ pos (suc a)) (sub_ℕ-negsuc n (suc a) low)
      ∙ sub_ℕ-pos (suc a) (suc (suc a - n - 1)) (omega (arith, low))
      ∙ ap pos (omega (arith, low))
  | inr more ↦
      let high : suc a ≤ n = ground (arith, more) in
      ap (λ z. z +ℤ pos (suc a)) (sub_ℕ-pos n (suc a) high) ∙ ap pos (omega (arith, high))
]

pub add_zero : (z : ℤ) → z +ℤ pos 0 ≡ z
unfolding ◌+ℤ◌
add_zero (pos a) = ap pos (omega arith)
add_zero (negsuc a) = sub_ℕ-negsuc 0 (suc a) (omega arith) ∙ ap negsuc (omega arith)

pub zero_add : (z : ℤ) → pos 0 +ℤ z ≡ z
unfolding ◌+ℤ◌
zero_add (pos a) = ap pos (omega arith)
zero_add (negsuc a) = sub_ℕ-negsuc 0 (suc a) (omega arith) ∙ ap negsuc (omega arith)

pub signed_zero : (negative : Bool) → signed negative 0 ≡ pos 0
signed_zero true = refl
signed_zero false = refl
