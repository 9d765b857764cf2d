-- ===== src/Base64/Canonical.antt =====
-- A text that `decode` accepts is the one text that `encode` writes for those bytes.
use clove1db.Prelude.{
  ℕ, ◌+◌, ◌-◌, ◌*◌, ◌/◌, ◌%◌, ◌^◌, ◌<◌, ◌≡◌, ◌≢◌, refl, sym, ◌∙◌, ap, Bool, true, false, not, List,
  [], ◌∷◌, ◌++◌, Option, none, some, length, ◌==◌, ==_iff, if◌then◌else◌, arith,
}
use clove1db.Prelude.Bytes.{Text}
use clove1db.Prelude.Options.{>>=-eq-some}
use clove1db.Base64.{
  alphabet, char_at, encode_char, table, word, encode, gather, chunk_bytes, decode_chunk,
  decode_chunks, decode,
}
use clove1db.Base64.Alphabet.{encode_char-table}

gather-cons :
    (shift n : ℕ) (c : ℕ) (rest : Text) (m : ℕ)
    → gather shift n (c ∷ rest) ≡ some m
    → (table c < 64)
      × (encode_char (table c) ≡ c)
      × (gather (shift - 6) (n + table c * 2 ^ shift) rest ≡ some m)
unfolding gather
gather-cons shift n c rest m h = go (table c == 255) refl h
  where
    more : Option ℕ
    more = gather (shift - 6) (n + table c * 2 ^ shift) rest

    go :
        (b : Bool)
        → (table c == 255) ≡ b
        → (if b then none else more) ≡ some m
        → (table c < 64) × (encode_char (table c) ≡ c) × (more ≡ some m)
    go true e h = cc
    go false e h =
        let ne : table c ≢ 255 = (λ k. cc ((==_iff (table c) 255).1 k, e)) in
        let (lt, eq) = encode_char-table c ne in (lt, eq, h)

gather-nil : (shift n m : ℕ) → gather shift n [] ≡ some m → n ≡ m
unfolding gather
gather-nil shift n m h = cc

encode_char-mod : (a v c : ℕ) → a % 64 ≡ v → encode_char v ≡ c → v < 64 → encode_char a ≡ c
unfolding encode_char
encode_char-mod a v c e h lt = ap (char_at alphabet) (omega (arith, e, lt)) ∙ h

out-is : (a out : List ℕ) → some a ≡ some out → a ≡ out
out-is a out h = cc

-- Characters whose six bits make up the word are the ones that its bytes are encoded as.
encode-four :
    (m v0 v1 v2 v3 c0 c1 c2 c3 : ℕ) (out rest : List ℕ)
    → (v0 < 64) × (encode_char v0 ≡ c0)
    → (v1 < 64) × (encode_char v1 ≡ c1)
    → (v2 < 64) × (encode_char v2 ≡ c2)
    → (v3 < 64) × (encode_char v3 ≡ c3)
    → v0 * 262144 + v1 * 4096 + v2 * 64 + v3 ≡ m
    → chunk_bytes 4 m ≡ some out
    → encode (out ++ rest) ≡ c0 ∷ c1 ∷ c2 ∷ c3 ∷ encode rest
unfolding chunk_bytes encode word
encode-four m v0 v1 v2 v3 c0 c1 c2 c3 out rest (l0, e0) (l1, e1) (l2, e2) (l3, e3) w k =
    let whole : m / 65536 % 256 * 65536 + m / 256 % 256 * 256 + m % 256 ≡ m =
      omega (arith, w, l0, l1, l2, l3) in
    let i0 : m / 262144 % 64 ≡ v0 = omega (arith, w, l0, l1, l2, l3) in
    let i1 : m / 4096 % 64 ≡ v1 = omega (arith, w, l0, l1, l2, l3) in
    let i2 : m / 64 % 64 ≡ v2 = omega (arith, w, l0, l1, l2, l3) in
    let i3 : m % 64 ≡ v3 = omega (arith, w, l0, l1, l2, l3) in
    rw⁻¹ (out-is _ out k) (
      rw (
        whole,
        encode_char-mod (m / 262144) v0 c0 i0 e0 l0,
        encode_char-mod (m / 4096) v1 c1 i1 e1 l1,
        encode_char-mod (m / 64) v2 c2 i2 e2 l2,
        encode_char-mod m v3 c3 i3 e3 l3,
      ))

encode-three :
    (m v0 v1 v2 c0 c1 c2 : ℕ) (out : List ℕ)
    → (v0 < 64) × (encode_char v0 ≡ c0)
    → (v1 < 64) × (encode_char v1 ≡ c1)
    → (v2 < 64) × (encode_char v2 ≡ c2)
    → v0 * 262144 + v1 * 4096 + v2 * 64 ≡ m
    → chunk_bytes 3 m ≡ some out
    → encode out ≡ c0 ∷ c1 ∷ c2 ∷ []
unfolding chunk_bytes encode word
encode-three m v0 v1 v2 c0 c1 c2 out (l0, e0) (l1, e1) (l2, e2) w k = go (m / 64 % 4 == 0) refl k
  where
    go :
        (b : Bool)
        → (m / 64 % 4 == 0) ≡ b
        → (if not b then none else some (m / 65536 % 256 ∷ m / 256 % 256 ∷ [])) ≡ some out
        → encode out ≡ c0 ∷ c1 ∷ c2 ∷ []
    go false e k = cc
    go true e k =
        let spare : m / 64 % 4 ≡ 0 = (==_iff (m / 64 % 4) 0).0 e in
        let whole : m / 65536 % 256 * 65536 + m / 256 % 256 * 256 + 0 ≡ m =
          omega (arith, w, l0, l1, l2, spare) in
        let i0 : m / 262144 % 64 ≡ v0 = omega (arith, w, l0, l1, l2) in
        let i1 : m / 4096 % 64 ≡ v1 = omega (arith, w, l0, l1, l2) in
        let i2 : m / 64 % 64 ≡ v2 = omega (arith, w, l0, l1, l2) in
        rw⁻¹ (out-is _ out k) (
          rw (
            whole,
            encode_char-mod (m / 262144) v0 c0 i0 e0 l0,
            encode_char-mod (m / 4096) v1 c1 i1 e1 l1,
            encode_char-mod (m / 64) v2 c2 i2 e2 l2,
          ))

encode-two :
    (m v0 v1 c0 c1 : ℕ) (out : List ℕ)
    → (v0 < 64) × (encode_char v0 ≡ c0)
    → (v1 < 64) × (encode_char v1 ≡ c1)
    → v0 * 262144 + v1 * 4096 ≡ m
    → chunk_bytes 2 m ≡ some out
    → encode out ≡ c0 ∷ c1 ∷ []
unfolding chunk_bytes encode word
encode-two m v0 v1 c0 c1 out (l0, e0) (l1, e1) w k = go (m / 4096 % 16 == 0) refl k
  where
    go :
        (b : Bool)
        → (m / 4096 % 16 == 0) ≡ b
        → (if not b then none else some (m / 65536 % 256 ∷ [])) ≡ some out
        → encode out ≡ c0 ∷ c1 ∷ []
    go false e k = cc
    go true e k =
        let spare : m / 4096 % 16 ≡ 0 = (==_iff (m / 4096 % 16) 0).0 e in
        let whole : m / 65536 % 256 * 65536 + 0 * 256 + 0 ≡ m = omega (arith, w, l0, l1, spare) in
        let i0 : m / 262144 % 64 ≡ v0 = omega (arith, w, l0, l1) in
        let i1 : m / 4096 % 64 ≡ v1 = omega (arith, w, l0, l1) in
        rw⁻¹ (out-is _ out k) (
          rw (
            whole,
            encode_char-mod (m / 262144) v0 c0 i0 e0 l0,
            encode_char-mod (m / 4096) v1 c1 i1 e1 l1,
          ))

canonical-four :
    (c0 c1 c2 c3 : ℕ) (out rest : List ℕ)
    → decode_chunk (c0 ∷ c1 ∷ c2 ∷ c3 ∷ []) ≡ some out
    → encode (out ++ rest) ≡ c0 ∷ c1 ∷ c2 ∷ c3 ∷ encode rest
unfolding decode_chunk
canonical-four c0 c1 c2 c3 out rest h =
    let (m, g, k) = >>=-eq-some (gather 18 0 (c0 ∷ c1 ∷ c2 ∷ c3 ∷ [])) (chunk_bytes 4) h in
    let (l0, e0, g0) = gather-cons 18 0 c0 (c1 ∷ c2 ∷ c3 ∷ []) m g in
    let (l1, e1, g1) = gather-cons 12 (0 + table c0 * 2 ^ 18) c1 (c2 ∷ c3 ∷ []) m g0 in
    let (l2, e2, g2) =
      gather-cons 6 (0 + table c0 * 2 ^ 18 + table c1 * 2 ^ 12) c2 (c3 ∷ []) m g1 in
    let (l3, e3, g3) =
      gather-cons 0 (0 + table c0 * 2 ^ 18 + table c1 * 2 ^ 12 + table c2 * 2 ^ 6) c3 [] m g2 in
    let w =
      gather-nil 0 (0 + table c0 * 2 ^ 18 + table c1 * 2 ^ 12 + table c2 * 2 ^ 6 + table c3 * 2 ^ 0)
        m g3 in
    encode-four m (table c0) (table c1) (table c2) (table c3) c0 c1 c2 c3 out rest (l0, e0) (l1, e1)
      (l2, e2) (l3, e3) (omega (arith, w)) k

canonical-three :
    (c0 c1 c2 : ℕ) (out : List ℕ)
    → decode_chunk (c0 ∷ c1 ∷ c2 ∷ []) ≡ some out
    → encode out ≡ c0 ∷ c1 ∷ c2 ∷ []
unfolding decode_chunk
canonical-three c0 c1 c2 out h =
    let (m, g, k) = >>=-eq-some (gather 18 0 (c0 ∷ c1 ∷ c2 ∷ [])) (chunk_bytes 3) h in
    let (l0, e0, g0) = gather-cons 18 0 c0 (c1 ∷ c2 ∷ []) m g in
    let (l1, e1, g1) = gather-cons 12 (0 + table c0 * 2 ^ 18) c1 (c2 ∷ []) m g0 in
    let (l2, e2, g2) = gather-cons 6 (0 + table c0 * 2 ^ 18 + table c1 * 2 ^ 12) c2 [] m g1 in
    let w = gather-nil 0 (0 + table c0 * 2 ^ 18 + table c1 * 2 ^ 12 + table c2 * 2 ^ 6) m g2 in
    encode-three m (table c0) (table c1) (table c2) c0 c1 c2 out (l0, e0) (l1, e1) (l2, e2)
      (omega (arith, w)) k

canonical-two :
    (c0 c1 : ℕ) (out : List ℕ) → decode_chunk (c0 ∷ c1 ∷ []) ≡ some out → encode out ≡ c0 ∷ c1 ∷ []
unfolding decode_chunk
canonical-two c0 c1 out h =
    let (m, g, k) = >>=-eq-some (gather 18 0 (c0 ∷ c1 ∷ [])) (chunk_bytes 2) h in
    let (l0, e0, g0) = gather-cons 18 0 c0 (c1 ∷ []) m g in
    let (l1, e1, g1) = gather-cons 12 (0 + table c0 * 2 ^ 18) c1 [] m g0 in
    let w = gather-nil 6 (0 + table c0 * 2 ^ 18 + table c1 * 2 ^ 12) m g1 in
    encode-two m (table c0) (table c1) c0 c1 out (l0, e0) (l1, e1) (omega (arith, w)) k

encode-decode_chunks :
    (text : Text) (out : List ℕ)
    → length text % 4 ≢ 1
    → decode_chunks text ≡ some out
    → encode out ≡ text
unfolding decode_chunks encode
encode-decode_chunks [] out n h = rw⁻¹ (out-is [] out h) refl
encode-decode_chunks (c0 ∷ []) out n h = absurd (n (omega arith))
encode-decode_chunks (c0 ∷ c1 ∷ []) out n h = canonical-two c0 c1 out h
encode-decode_chunks (c0 ∷ c1 ∷ c2 ∷ []) out n h = canonical-three c0 c1 c2 out h
encode-decode_chunks (c0 ∷ c1 ∷ c2 ∷ c3 ∷ rest) out n h =
    let (x, hx, h1) = >>=-eq-some (decode_chunk (c0 ∷ c1 ∷ c2 ∷ c3 ∷ [])) _ h in
    let (y, hy, h2) = >>=-eq-some (decode_chunks rest) _ h1 in
    let tail = encode-decode_chunks rest y (λ k. n (omega (arith, k))) hy in
    ap encode (sym (out-is (x ++ y) out h2))
    ∙ canonical-four c0 c1 c2 c3 x y hx
    ∙ ap (λ t. c0 ∷ c1 ∷ c2 ∷ c3 ∷ t) tail

-- Where `decode` accepts a text and gives bytes, the text is what `encode` writes for them: no byte
-- string has a second spelling.
pub b64-canonical : (text : Text) (out : List ℕ) → decode text ≡ some out → encode out ≡ text
unfolding decode
b64-canonical text out h = go (length text % 4 == 1) refl h
  where
    go :
        (b : Bool)
        → (length text % 4 == 1) ≡ b
        → (if b then none else decode_chunks text) ≡ some out
        → encode out ≡ text
    go true e h = cc
    go false e h = encode-decode_chunks text out (λ k. cc ((==_iff (length text % 4) 1).1 k, e)) h
