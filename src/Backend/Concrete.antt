-- ===== src/Backend/Concrete.antt =====
-- A file in memory and a cipher that only tags, which behave as the layer expects.
use clove1db.Prelude.{
  ℕ, zero, suc, ◌+◌, ◌-◌, ◌*◌, ◌≤◌, ◌≡◌, refl, sym, ◌∙◌, ap, ◌⊎◌, inl, inr, true, false, ◌&&◌, List,
  [], ◌∷◌, ◌++◌, Option, none, some, length, length-append, max, leb, ltb, ◌==◌, ==_iff,
  if◌then◌else◌, arith,
}
use mathlib.Core.List.{append_assoc}
use clove1db.Backend.{Storage, Aead}

-- The length, and the byte at each place.
abbrev pub Bytes : Type 0
Bytes = ℕ × (ℕ → ℕ)

unfoldable pub bytes_from : (ℕ → ℕ) → ℕ → ℕ → List ℕ
bytes_from f at zero = []
bytes_from f at (suc n) = f at ∷ bytes_from f (suc at) n

unfoldable pub byte_of : List ℕ → ℕ → ℕ
byte_of [] i = 0
byte_of (b ∷ bytes) zero = b
byte_of (b ∷ bytes) (suc i) = byte_of bytes i

unfoldable pub overlaid : ℕ → List ℕ → (ℕ → ℕ) → ℕ → ℕ
overlaid at bytes f i =
    if leb at i && ltb i (at + length bytes) then byte_of bytes (i - at) else f i

pub length-bytes_from : (f : ℕ → ℕ) (at n : ℕ) → length (bytes_from f at n) ≡ n
unfolding bytes_from
length-bytes_from f at zero = refl
length-bytes_from f at (suc n) = ap suc (length-bytes_from f (suc at) n)

pub bytes_from-add :
    (f : ℕ → ℕ) (at n m : ℕ)
    → bytes_from f at (n + m) ≡ bytes_from f at n ++ bytes_from f (at + n) m
unfolding bytes_from
bytes_from-add f at zero m = rw (zero_start m, zero_end at) refl
  where
    zero_start : (k : ℕ) → 0 + k ≡ k
    zero_start k = omega arith

    zero_end : (k : ℕ) → k + 0 ≡ k
    zero_end k = omega arith
bytes_from-add f at (suc n) m =
    ap (bytes_from f at) (sum n m)
    ∙ ap (λ l. f at ∷ l)
        (bytes_from-add f (suc at) n m
          ∙ ap (λ k. bytes_from f (suc at) n ++ bytes_from f k m) (moved at))
  where
    sum : (i j : ℕ) → suc i + j ≡ suc (i + j)
    sum i j = omega arith

    moved : (k : ℕ) → suc k + n ≡ k + suc n
    moved k = omega arith

byte_of-append :
    (front bytes : List ℕ) (i : ℕ) → byte_of (front ++ bytes) (length front + i) ≡ byte_of bytes i
unfolding byte_of
byte_of-append [] bytes i = ap (byte_of bytes) (start i)
  where
    start : (k : ℕ) → 0 + k ≡ k
    start k = omega arith
byte_of-append (b ∷ front) bytes i =
    ap (byte_of (b ∷ (front ++ bytes))) (later (length front) i) ∙ byte_of-append front bytes i
  where
    later : (n k : ℕ) → suc n + k ≡ suc (n + k)
    later n k = omega arith

overlaid_in :
    (f : ℕ → ℕ) (at : ℕ) (front rest : List ℕ) (b : ℕ)
    → overlaid at (front ++ b ∷ rest) f (at + length front) ≡ b
unfolding overlaid byte_of
overlaid_in f at front rest b = rw (low, high, start) (byte_of-append front (b ∷ rest) 0)
  where
    low : leb at (at + length front) ≡ true
    low = ground arith

    high : ltb (at + length front) (at + length (front ++ b ∷ rest)) ≡ true
    high = rw (length-append front (b ∷ rest)) (ground arith)

    start : at + length front - at ≡ length front + 0
    start = omega arith

pub overlaid-bytes_from :
    (f : ℕ → ℕ) (at : ℕ) (front part back : List ℕ)
    → bytes_from (overlaid at (front ++ (part ++ back)) f) (at + length front) (length part) ≡ part
unfolding bytes_from
overlaid-bytes_from f at front [] back = refl
overlaid-bytes_from f at front (b ∷ part) back =
    ap
      (λ x.
        x
        ∷ bytes_from (overlaid at (front ++ b ∷ (part ++ back)) f) (suc (at + length front))
            (length part))
      (overlaid_in f at front (part ++ back) b)
    ∙ ap (λ l. b ∷ l)
        (sym (
            ap (λ l. bytes_from (overlaid at l f) (suc (at + length front)) (length part))
              (append_assoc front (b ∷ []) (part ++ back)))
          ∙ ap
              (λ k.
                bytes_from (overlaid at ((front ++ b ∷ []) ++ (part ++ back)) f) k (length part))
              next
          ∙ overlaid-bytes_from f at (front ++ b ∷ []) part back)
  where
    next : suc (at + length front) ≡ at + length (front ++ b ∷ [])
    next = rw (length-append front (b ∷ [])) (omega arith)

pub overlaid_apart :
    (f : ℕ → ℕ) (at : ℕ) (bytes : List ℕ) (from n : ℕ)
    → (from + n ≤ at) ⊎ (at + length bytes ≤ from)
    → bytes_from (overlaid at bytes f) from n ≡ bytes_from f from n
unfolding bytes_from overlaid
overlaid_apart f at bytes from zero o = refl
overlaid_apart f at bytes from (suc n) o =
    rw outside (ap (λ l. f from ∷ l) (overlaid_apart f at bytes (suc from) n (later o)))
  where
    outside : (leb at from && ltb from (at + length bytes)) ≡ false
    outside = ground (arith, o)

    later :
        (from + suc n ≤ at) ⊎ (at + length bytes ≤ from)
        → (suc from + n ≤ at) ⊎ (at + length bytes ≤ suc from)
    later (inl h) = inl (omega (arith, h))
    later (inr h) = inr (omega (arith, h))

abbrev pub in_memory : Storage
in_memory = record {
  File = Bytes;
  len = λ f. f.0;
  read = λ f at n. bytes_from f.1 at n;
  write = λ f at bytes. (max f.0 (at + length bytes), overlaid at bytes f.1);
  set_len = λ f n. (n, f.1);
  length_read = λ f at n h. length-bytes_from f.1 at n;
  read_append = λ f at n m h. bytes_from-add f.1 at n m;
  read_write = λ f at front part back. overlaid-bytes_from f.1 at front part back;
  read_write_apart = λ f at bytes from n h o. overlaid_apart f.1 at bytes from n o;
  len_write = λ f at bytes h. refl;
  len_set_len = λ f n. refl;
  read_set_len = λ f n from count h k. refl;
}

unfoldable pub tag_of : List ℕ → ℕ
tag_of [] = 0
tag_of (b ∷ bytes) = b + 3 * tag_of bytes

unfoldable pub open_tagged : List ℕ → List ℕ → Option (List ℕ)
unfolding tag_of
open_tagged aad [] = none
open_tagged aad (t ∷ plain) = if t == tag_of aad then some plain else none

pub open_tagged-tag : (aad plain : List ℕ) → open_tagged aad (tag_of aad ∷ plain) ≡ some plain
unfolding open_tagged
open_tagged-tag aad plain = rw ((==_iff (tag_of aad) (tag_of aad)).1 refl) refl

abbrev pub tagging : Aead
tagging = record {
  overhead = 1;
  seal = λ nonce aad plain. tag_of aad ∷ plain;
  open_in_place = open_tagged;
  open_seal = λ nonce aad plain. open_tagged-tag aad plain;
  length_seal = λ nonce aad plain. omega arith;
}
