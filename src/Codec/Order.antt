-- ===== src/Codec/Order.antt =====
-- Encoded keys have the order of values.
use mathlib.Core.Path.{subst}
use mathlib.Core.Logic.{◌≢◌}
use mathlib.Core.List.{append_assoc}
use Prim.Native.Nat.{compare, Ordering}
use Prim.Native.Nat.Ordering.{eq}
use clove1db.Prelude.{
  ℕ, ◌<◌, ◌≡◌, refl, sym, ◌∙◌, ap, true, false, List, [], ◌∷◌, ◌++◌, arith, inl, inr,
}
use clove1db.Prelude.Bytes.{Text}
use clove1db.Prelude.Results.{Result, ok, err, ◌>>=◌, >>=-eq-ok}
use clove1db.Values.{
  Value, missing, null, bool, number, time, string, array, object, Items, none, item,
}
use clove1db.Decimal.{Decimal, parse}
use clove1db.Decimal.Digits.{IsJson, IsDecimal, parse-IsDecimal}
use clove1db.Codec.{signed, text, decimal_bytes, append, append_items, encode}
use clove1db.Codec.Compare.{
  compare_bytes, Compares, same, less, more, step, compare_bytes-Compares, Compares-append,
  Compares-cast, Ordering-cases,
}
use clove1db.Codec.Spec.{
  compare_decimals, compare_parsed, rank, compare_values, compare_items, FitsI128, FitItems,
}
use clove1db.Codec.Parts.{Compares-signed, Compares-text, Compares-magnitude}

Compares-decimals :
    (n m : Decimal)
    → IsDecimal n
    → IsDecimal m
    → Compares (decimal_bytes n) (decimal_bytes m) (compare_decimals n m)
unfolding decimal_bytes compare_decimals
Compares-decimals n m hn hm =
    Compares-magnitude n.negative m.negative n.digits m.digits n.exponent m.exponent hn.digits_are
      hm.digits_are hn.exponent_in hm.exponent_in

bind_ok {ℓ} :
    {A : Type ℓ} (m : Result A) (f : A → List ℕ) (g : List ℕ → List ℕ)
    → (m >>= λ a. ok (g (f a))) ≡ ((m >>= λ a. ok (f a)) >>= λ p. ok (g p))
bind_ok (ok a) f g = refl
bind_ok (err e) f g = refl

on_results :
    {p q p' q' : List ℕ} {o : Ordering}
    → Result.ok p ≡ ok p'
    → Result.ok q ≡ ok q'
    → Compares p q o
    → Compares p' q' o
on_results e f c = Compares-cast (cc e) (cc f) c

ending : {x : List ℕ} → Result.ok [] ≡ ok x → 0 ∷ [] ≡ x ++ 0 ∷ []
ending {x} h = ap (λ b. b ++ 0 ∷ []) (nil-eq x h)
  where
    nil-eq : (x : List ℕ) → Result.ok [] ≡ ok x → [] ≡ x
    nil-eq x h = cc

module _ (raw_value : Text → Result Text) (json : IsJson raw_value) where
  -- What stands behind the first byte.
  payload : Value → Result (List ℕ)
  unfolding append
  payload (number token) = parse raw_value token >>= λ n. ok (decimal_bytes n)
  payload (time n) = ok (signed n)
  payload (string v) = ok (text v)
  payload (array vs) = append_items raw_value false vs >>= λ bytes. ok (bytes ++ 0 ∷ [])
  payload (object ms) = append raw_value false (object ms)
  payload _ = ok []

  append-payload : (v : Value) → append raw_value false v ≡ (payload v >>= λ p. ok (rank v ∷ p))
  unfolding payload append
  append-payload missing = refl
  append-payload null = refl
  append-payload (bool false) = refl
  append-payload (bool true) = refl
  append-payload (number s) = bind_ok (parse raw_value s) decimal_bytes (λ p. 5 ∷ p)
  append-payload (time n) = refl
  append-payload (string s) = refl
  append-payload (array vs) =
      bind_ok (append_items raw_value false vs) (λ bytes. bytes ++ 0 ∷ []) (λ p. 8 ∷ p)
  append-payload (object ms) = refl

  parsed-Compares :
      (s t : Text) {p q : List ℕ}
      → payload (number s) ≡ ok p
      → payload (number t) ≡ ok q
      → Compares p q (compare_parsed (parse raw_value s) (parse raw_value t))
  unfolding payload
  parsed-Compares s t hp hq =
      let (n, hn, en) = >>=-eq-ok (parse raw_value s) _ hp in
      let (m, hm, em) = >>=-eq-ok (parse raw_value t) _ hq in
      rw (hn, hm)
        (on_results en em (
          Compares-decimals n m (parse-IsDecimal raw_value json s hn)
            (parse-IsDecimal raw_value json t hm)))

  append-rank :
      (v : Value) {x : List ℕ}
      → append raw_value false v ≡ ok x
      → (p : List ℕ) × (payload v ≡ ok p) × (rank v ∷ p ≡ x)
  append-rank v h =
      let (p, hp, e) = >>=-eq-ok (payload v) _ (sym (append-payload v) ∙ h) in (p, hp, cc e)

  compare_values-rank :
      (v w : Value) → rank v ≢ rank w → compare_values raw_value v w ≡ compare (rank v) (rank w)
  unfolding compare_values
  compare_values-rank (number s) (number t) ne = absurd (ne refl)
  compare_values-rank (time n) (time m) ne = absurd (ne refl)
  compare_values-rank (string s) (string t) ne = absurd (ne refl)
  compare_values-rank (array vs) (array ws) ne = absurd (ne refl)
  compare_values-rank v w ne = refl

  -- Values of two kinds are told apart by the first byte.
  tagged-Compares :
      (v w : Value) {x y : List ℕ}
      → ((p q : List ℕ)
          → rank v ≡ rank w
          → payload v ≡ ok p
          → payload w ≡ ok q
          → Compares p q (compare_values raw_value v w))
      → append raw_value false v ≡ ok x
      → append raw_value false w ≡ ok y
      → Compares x y (compare_values raw_value v w)
  tagged-Compares v w inner hx hy =
      let (p, hp, ex) = append-rank v hx in
      let (q, hq, ey) = append-rank w hy in
      Compares-cast ex ey (elim (Ordering-cases (compare (rank v) (rank w))) [
        | inl e ↦
            rw (compare_values-rank v w (ground (arith, e)), e)
              (less (rank v) (rank w) p q (ground (arith, e)))
        | inr (inl e) ↦
            let one : rank v ≡ rank w = ground (arith, e) in
            subst (λ k. Compares (rank v ∷ p) (k ∷ q) (compare_values raw_value v w)) one
              (step (rank v) p q _ (inner p q one hp hq))
        | inr (inr e) ↦
            rw (compare_values-rank v w (ground (arith, e)), e)
              (more (rank v) (rank w) p q (ground (arith, e)))
      ])

  pub rank_pos : (v : Value) → 0 < rank v
  rank_pos (bool false) = omega arith
  rank_pos (bool true) = omega arith
  rank_pos missing = omega arith
  rank_pos v = omega arith

  items_head :
      (v : Value) (vs : Items) {x : List ℕ}
      → append_items raw_value false (item v vs) ≡ ok x
      → (first : List ℕ) × (rest : List ℕ) × (append raw_value false v ≡ ok first)
        × (append_items raw_value false vs ≡ ok rest)
        × (first ++ (rest ++ 0 ∷ []) ≡ x ++ 0 ∷ [])
  unfolding append
  items_head v vs h =
      let (first, hf, h1) = >>=-eq-ok (append raw_value false v) _ h in
      let (rest, hr, e) = >>=-eq-ok (append_items raw_value false vs) _ h1 in
      (first, rest, hf, hr, sym (append_assoc first rest (0 ∷ [])) ∙ ap (λ b. b ++ 0 ∷ []) (cc e))

  -- The end of an array comes before every item.
  end-Compares :
      (v : Value) (vs : Items) {x : List ℕ}
      → append_items raw_value false (item v vs) ≡ ok x
      → (t : List ℕ) × (rank v ∷ t ≡ x ++ 0 ∷ [])
  end-Compares v vs h =
      let (first, rest, hf, hr, e) = items_head v vs h in
      let (p, hp, ep) = append-rank v hf in
      (p ++ (rest ++ 0 ∷ []), ap (λ b. b ++ (rest ++ 0 ∷ [])) ep ∙ e)

  mutual
    unfolding payload append compare_values FitsI128

    payload-Compares :
        (v w : Value) (p q : List ℕ)
        → FitsI128 v
        → FitsI128 w
        → rank v ≡ rank w
        → payload v ≡ ok p
        → payload w ≡ ok q
        → Compares p q (compare_values raw_value v w)
    payload-Compares missing missing p q fv fw r hp hq = on_results hp hq same
    payload-Compares null null p q fv fw r hp hq = on_results hp hq same
    payload-Compares (bool false) (bool false) p q fv fw r hp hq = on_results hp hq same
    payload-Compares (bool true) (bool true) p q fv fw r hp hq = on_results hp hq same
    payload-Compares (number s) (number t) p q fv fw r hp hq = parsed-Compares s t hp hq
    payload-Compares (time n) (time m) p q fv fw r hp hq =
        on_results hp hq (Compares-signed n m fv fw)
    payload-Compares (string s) (string t) p q fv fw r hp hq = on_results hp hq (Compares-text s t)
    payload-Compares (array vs) (array ws) p q fv fw r hp hq =
        let (x, hx, ex) = >>=-eq-ok (append_items raw_value false vs) _ hp in
        let (y, hy, ey) = >>=-eq-ok (append_items raw_value false ws) _ hq in
        on_results ex ey (items-Compares vs ws x y fv fw hx hy)
    payload-Compares (object ms) w p q fv fw r hp hq = cc
    payload-Compares v w p q fv fw r hp hq = grind (arith, r)

    items-Compares :
        (vs ws : Items) (x y : List ℕ)
        → FitItems vs
        → FitItems ws
        → append_items raw_value false vs ≡ ok x
        → append_items raw_value false ws ≡ ok y
        → Compares (x ++ 0 ∷ []) (y ++ 0 ∷ []) (compare_items raw_value vs ws)
    items-Compares none none x y fv fw hx hy =
        Compares-cast (ending hx) (ending hy) (step 0 [] [] eq same)
    items-Compares none (item w ws) x y fv fw hx hy =
        let (t, e) = end-Compares w ws hy in
        Compares-cast (ending hx) e (less 0 (rank w) [] t (rank_pos w))
    items-Compares (item v vs) none x y fv fw hx hy =
        let (t, e) = end-Compares v vs hx in
        Compares-cast e (ending hy) (more (rank v) 0 t [] (rank_pos v))
    items-Compares (item v vs) (item w ws) x y fv fw hx hy =
        let (a, x', ha, hx', ex) = items_head v vs hx in
        let (b, y', hb, hy', ey) = items_head w ws hy in
        Compares-cast ex ey (
          Compares-append (tagged-Compares v w (λ p q. payload-Compares v w p q fv.0 fw.0) ha hb)
            (items-Compares vs ws x' y' fv.1 fw.1 hx' hy'))

  -- Where two values have keys, the byte strings are ordered as the values are: their order is that
  -- of `compare_values`, and equal values have one key.
  pub encode-order :
      (v w : Value) {x y : List ℕ}
      → FitsI128 v
      → FitsI128 w
      → encode raw_value v ≡ ok x
      → encode raw_value w ≡ ok y
      → compare_bytes x y ≡ compare_values raw_value v w
  unfolding encode
  encode-order v w fv fw hx hy =
      compare_bytes-Compares (tagged-Compares v w (λ p q. payload-Compares v w p q fv fw) hx hy)
