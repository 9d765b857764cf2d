-- ===== src/Journal/Row/Damage.antt =====
-- `decode` on rows that were cut short or that something follows (journal.rs).
use clove1db.Prelude.{
  ℕ, zero, suc, ◌≡◌, refl, ap, inl, inr, Bool, false, List, [], ◌∷◌, ◌++◌, arith, length, take,
  drop, length-append, ltb,
}
use clove1db.Prelude.Results.{Result, ok, err, ClError, ◌>>=◌, guard, Result-cases}
use clove1db.Memory.{Allocator, Grants, vec_with_capacity, copy_bytes}
use clove1db.Journal.Row.{
  ChangeKind, take_front, take_number, take_part, from_utf8, of_tag, encode, decode, IsWellFormed,
  bad,
}
use clove1db.Journal.Row.RoundTrip.{decode-encode}

-- A reader does not look past what it takes.
abbrev IsReader {ℓ} : {A : Type ℓ} → (List ℕ → Result (A × List ℕ)) → Type ℓ
IsReader {A} read =
    (s more : List ℕ) (a : A) (rest : List ℕ)
    → read s ≡ ok (a, rest)
    → read (s ++ more) ≡ ok (a, rest ++ more)

module _ {ℓ κ} {A : Type ℓ} {B : Type κ} {more : List ℕ} {b : B} where
  -- If what follows a reader refuses the longer rest, the whole refuses the longer input.
  bind-refuses :
      (read : List ℕ → Result (A × List ℕ)) (k : A × List ℕ → Result B)
      → IsReader read
      → ((a : A) (rest : List ℕ) → k (a, rest) ≡ ok b → k (a, rest ++ more) ≡ err bad)
      → (s : List ℕ) → (read s >>= k) ≡ ok b
      → (read (s ++ more) >>= k) ≡ err bad
  bind-refuses read k reads next s h = elim (Result-cases (read s)) [
    | inl ((a, rest), e) ↦ rw (reads s more a rest e) (next a rest (rw e at h))
    | inr (e, failed) ↦ cc (rw failed at h)
  ]

module _ {ℓ κ} {A : Type ℓ} {B : Type κ} {b : B} where
  -- The same where the step reads no input.
  step-refuses :
      (m : Result A) (k k' : A → Result B)
      → ((a : A) → k a ≡ ok b → k' a ≡ err bad)
      → (m >>= k) ≡ ok b
      → (m >>= k') ≡ err bad
  step-refuses (ok a) k k' next h = next a h
  step-refuses (err e) k k' next h = cc

take-append {ℓ} :
    {A : Type ℓ} (n : ℕ) (xs ys : List A)
    → ltb (length xs) n ≡ false
    → take n (xs ++ ys) ≡ take n xs
take-append zero xs ys h = refl
take-append (suc n) [] ys h = ground arith
take-append (suc n) (x ∷ xs) ys h = ground (arith, take-append n xs ys)

drop-append {ℓ} :
    {A : Type ℓ} (n : ℕ) (xs ys : List A)
    → ltb (length xs) n ≡ false
    → drop n (xs ++ ys) ≡ drop n xs ++ ys
drop-append zero xs ys h = refl
drop-append (suc n) [] ys h = ground arith
drop-append (suc n) (x ∷ xs) ys h = ground (arith, drop-append n xs ys)

take_front-IsReader : (n : ℕ) → IsReader (λ s. take_front s n)
unfolding take_front
take_front-IsReader n s more a rest h =
    ground (arith, length-append s more, take-append n s more, drop-append n s more)

take_number-IsReader : IsReader take_number
unfolding take_number
take_number-IsReader s more a rest h = elim (Result-cases (take_front s 8)) [
  | inl ((w, r), e) ↦ ground (arith, take_front-IsReader 8 s more w r e)
  | inr (e, failed) ↦ cc (rw failed at h)
]

take_part-IsReader : IsReader take_part
unfolding take_part
take_part-IsReader s more a rest h = elim (Result-cases (take_number s)) [
  | inl ((n, r), e) ↦
      rw (take_number-IsReader s more n r e) (take_front-IsReader n r more a rest (rw e at h))
  | inr (e, failed) ↦ cc (rw failed at h)
]

-- Whatever decodes as a change does not decode with a byte more behind it.
pub decode-append :
    (granted : Allocator) (row more : List ℕ) (x : ℕ) (c : ChangeKind)
    → decode granted row ≡ ok c
    → decode granted (row ++ x ∷ more) ≡ err bad
unfolding decode
decode-append granted row more x c =
    bind-refuses (λ s. take_front s 1) _ (take_front-IsReader 1)
      (λ version s₁. step-refuses _ _ _ λ _.
        bind-refuses (λ s. take_front s 1) _ (take_front-IsReader 1)
          (λ tag s₂.
            bind-refuses take_part _ take_part-IsReader
              (λ table s₃. step-refuses (from_utf8 table) _ _ λ t.
                bind-refuses take_part _ take_part-IsReader
                  (λ key s₄. step-refuses (from_utf8 key) _ _ λ k.
                    bind-refuses take_part _ take_part-IsReader
                      (λ payload s₅.
                        step-refuses (copy_bytes granted "journal.read_rows" payload) _ _ λ p.
                          bind-refuses take_number _ take_number-IsReader
                            (λ size rest h. ground (arith, length-append rest (x ∷ more))) s₅)
                      s₄)
                  s₃)
              s₂)
          s₁)
      row

-- Every failure of a step is the error `bad`.
abbrev OnlyBad {ℓ} : {A : Type ℓ} → Result A → Type ℓ
OnlyBad m = (e : ClError) → m ≡ err e → e ≡ bad

bind-OnlyBad {ℓ κ} :
    {A : Type ℓ} {B : Type κ} (m : Result A) (k : A → Result B)
    → OnlyBad m
    → ((a : A) → OnlyBad (k a))
    → OnlyBad (m >>= k)
bind-OnlyBad (ok a) k hm hk = hk a
bind-OnlyBad (err x) k hm hk = λ e h. hm e (cc)

take_front-OnlyBad : (s : List ℕ) (n : ℕ) → OnlyBad (take_front s n)
unfolding take_front
take_front-OnlyBad s n e h = ground arith

take_number-OnlyBad : (s : List ℕ) → OnlyBad (take_number s)
unfolding take_number
take_number-OnlyBad s = bind-OnlyBad (take_front s 8) _ (take_front-OnlyBad s 8) (λ p e h. cc)

take_part-OnlyBad : (s : List ℕ) → OnlyBad (take_part s)
unfolding take_part
take_part-OnlyBad s =
    bind-OnlyBad (take_number s) _ (take_number-OnlyBad s) (λ p. take_front-OnlyBad p.1 p.0)

from_utf8-OnlyBad : (s : List ℕ) → OnlyBad (from_utf8 s)
unfolding from_utf8
from_utf8-OnlyBad s e h = ground arith

guard-OnlyBad : (b : Bool) → OnlyBad (guard b bad)
guard-OnlyBad b e h = ground arith

of_tag-OnlyBad : (tag : ℕ) (t k p : List ℕ) (n : ℕ) → OnlyBad (of_tag tag t k p n)
unfolding of_tag from_utf8
of_tag-OnlyBad tag t k p n e h = ground arith

copy_bytes-OnlyBad :
    (granted : Allocator) (s : List ℕ)
    → Grants granted
    → OnlyBad (copy_bytes granted "journal.read_rows" s)
unfolding copy_bytes vec_with_capacity
copy_bytes-OnlyBad granted s g e h = cc (rw g at h)

decode-OnlyBad :
    (granted : Allocator) (row : List ℕ) → Grants granted → OnlyBad (decode granted row)
unfolding decode
decode-OnlyBad granted row g = bind-OnlyBad (take_front row 1) _ (take_front-OnlyBad row 1) λ a.
    bind-OnlyBad (guard _ bad) _ (guard-OnlyBad _) λ _.
      bind-OnlyBad (take_front a.1 1) _ (take_front-OnlyBad a.1 1) λ b.
        bind-OnlyBad (take_part b.1) _ (take_part-OnlyBad b.1) λ t.
          bind-OnlyBad (from_utf8 t.0) _ (from_utf8-OnlyBad t.0) λ _.
            bind-OnlyBad (take_part t.1) _ (take_part-OnlyBad t.1) λ k.
              bind-OnlyBad (from_utf8 k.0) _ (from_utf8-OnlyBad k.0) λ _.
                bind-OnlyBad (take_part k.1) _ (take_part-OnlyBad k.1) λ p.
                  bind-OnlyBad (copy_bytes granted _ p.0) _ (copy_bytes-OnlyBad granted p.0 g) λ _.
                    bind-OnlyBad (take_number p.1) _ (take_number-OnlyBad p.1) λ n.
                      bind-OnlyBad (guard _ bad) _ (guard-OnlyBad _) λ _. of_tag-OnlyBad _ _ _ _ _

-- A row that was cut short anywhere, or that anything follows, is refused as corrupt.
pub decode_damaged :
    (granted : Allocator) (c : ChangeKind) (front back : List ℕ) (x : ℕ)
    → Grants granted
    → IsWellFormed c
    → encode granted c ≡ ok (front ++ x ∷ back)
    → (decode granted front ≡ err bad)
      × ((more : List ℕ) (y : ℕ) → decode granted ((front ++ x ∷ back) ++ y ∷ more) ≡ err bad)
decode_damaged granted c front back x g w e =
    let whole : decode granted (front ++ x ∷ back) ≡ ok c = rw e at (decode-encode granted c g w) in
    (
      elim (Result-cases (decode granted front)) [
        | inl (c', r) ↦ cc (whole, decode-append granted front back x c' r)
        | inr (b, r) ↦ rw r (ap err (decode-OnlyBad granted front g b r))
      ],
      λ more y. decode-append granted (front ++ x ∷ back) more y c whole,
    )
