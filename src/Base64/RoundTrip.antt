-- ===== src/Base64/RoundTrip.antt =====
-- What `encode` writes `decode` reads back, and what `decode` accepts is what `encode` writes.
use clove1db.Prelude.{
  ℕ, ◌+◌, ◌-◌, ◌*◌, ◌/◌, ◌%◌, ◌^◌, ◌<◌, ◌≡◌, ◌≢◌, refl, ◌∙◌, ap, List, [], ◌∷◌, none, some, length,
  ◌==◌, if◌then◌else◌, All, arith,
}
use clove1db.Prelude.Bytes.{Text, IsByte}
use clove1db.Prelude.Options.{◌>>=◌}
use clove1db.Base64.{
  encode_char, word, encode, gather, chunk_bytes, decode_chunk, decode_chunks, decode,
}
use clove1db.Base64.Alphabet.{table-encode_char}

-- The characters of a chunk add their six bits each.
gather-encode_char :
    (shift n v : ℕ) (rest : Text)
    → gather shift n (encode_char v ∷ rest) ≡ gather (shift - 6) (n + v % 64 * 2 ^ shift) rest
unfolding gather
gather-encode_char shift n v rest = rw (table-encode_char v) (small (v % 64) (omega arith))
  where
    small :
        (t : ℕ)
        → t < 64
        → (if t == 255 then none else gather (shift - 6) (n + t * 2 ^ shift) rest)
          ≡ gather (shift - 6) (n + t * 2 ^ shift) rest
    small t h = ground arith

gather-two :
    (v0 v1 : ℕ)
    → gather 18 0 (encode_char v0 ∷ encode_char v1 ∷ []) ≡ some (v0 % 64 * 262144 + v1 % 64 * 4096)
unfolding gather
gather-two v0 v1 =
    gather-encode_char 18 0 v0 (encode_char v1 ∷ [])
    ∙ gather-encode_char 12 (0 + v0 % 64 * 2 ^ 18) v1 []
    ∙ ap some {x = 0 + v0 % 64 * 2 ^ 18 + v1 % 64 * 2 ^ 12} (omega arith)

gather-three :
    (v0 v1 v2 : ℕ)
    → gather 18 0 (encode_char v0 ∷ encode_char v1 ∷ encode_char v2 ∷ [])
      ≡ some (v0 % 64 * 262144 + v1 % 64 * 4096 + v2 % 64 * 64)
unfolding gather
gather-three v0 v1 v2 =
    gather-encode_char 18 0 v0 (encode_char v1 ∷ encode_char v2 ∷ [])
    ∙ gather-encode_char 12 (0 + v0 % 64 * 2 ^ 18) v1 (encode_char v2 ∷ [])
    ∙ gather-encode_char 6 (0 + v0 % 64 * 2 ^ 18 + v1 % 64 * 2 ^ 12) v2 []
    ∙ ap some {x = 0 + v0 % 64 * 2 ^ 18 + v1 % 64 * 2 ^ 12 + v2 % 64 * 2 ^ 6} (omega arith)

gather-four :
    (v0 v1 v2 v3 : ℕ)
    → gather 18 0 (encode_char v0 ∷ encode_char v1 ∷ encode_char v2 ∷ encode_char v3 ∷ [])
      ≡ some (v0 % 64 * 262144 + v1 % 64 * 4096 + v2 % 64 * 64 + v3 % 64)
unfolding gather
gather-four v0 v1 v2 v3 =
    gather-encode_char 18 0 v0 (encode_char v1 ∷ encode_char v2 ∷ encode_char v3 ∷ [])
    ∙ gather-encode_char 12 (0 + v0 % 64 * 2 ^ 18) v1 (encode_char v2 ∷ encode_char v3 ∷ [])
    ∙ gather-encode_char 6 (0 + v0 % 64 * 2 ^ 18 + v1 % 64 * 2 ^ 12) v2 (encode_char v3 ∷ [])
    ∙ gather-encode_char 0 (0 + v0 % 64 * 2 ^ 18 + v1 % 64 * 2 ^ 12 + v2 % 64 * 2 ^ 6) v3 []
    ∙ ap some {x = 0 + v0 % 64 * 2 ^ 18 + v1 % 64 * 2 ^ 12 + v2 % 64 * 2 ^ 6 + v3 % 64 * 2 ^ 0}
        (omega arith)

-- The characters' six bits make up the word again.
sixes :
    (n : ℕ)
    → n < 16777216
    → n / 262144 % 64 * 262144 + n / 4096 % 64 * 4096 + n / 64 % 64 * 64 + n % 64 ≡ n
sixes n h = omega arith

bytes_of :
    (b0 b1 b2 : ℕ)
    → IsByte b0
    → IsByte b1
    → IsByte b2
    → let n = word b0 b1 b2 in
      (n < 16777216) × (n / 65536 % 256 ≡ b0) × (n / 256 % 256 ≡ b1) × (n % 256 ≡ b2)
unfolding word
bytes_of b0 b1 b2 h0 h1 h2 = (omega arith, omega arith, omega arith, omega arith)

decode_chunk-four :
    (b0 b1 b2 : ℕ)
    → IsByte b0
    → IsByte b1
    → IsByte b2
    → let n = word b0 b1 b2 in
      decode_chunk (
        encode_char (n / 262144)
        ∷ encode_char (n / 4096)
        ∷ encode_char (n / 64)
        ∷ encode_char n
        ∷ [])
      ≡ some (b0 ∷ b1 ∷ b2 ∷ [])
unfolding decode_chunk chunk_bytes
decode_chunk-four b0 b1 b2 h0 h1 h2 =
    let n = word b0 b1 b2 in
    let (lt, e0, e1, e2) = bytes_of b0 b1 b2 h0 h1 h2 in
    ap (λ g. g >>= chunk_bytes 4)
      (gather-four (n / 262144) (n / 4096) (n / 64) n ∙ ap some (sixes n lt))
    ∙ rw (e0, e1, e2)

decode_chunk-three :
    (b0 b1 : ℕ)
    → IsByte b0
    → IsByte b1
    → let n = word b0 b1 0 in
      decode_chunk (encode_char (n / 262144) ∷ encode_char (n / 4096) ∷ encode_char (n / 64) ∷ [])
      ≡ some (b0 ∷ b1 ∷ [])
unfolding decode_chunk chunk_bytes word
decode_chunk-three b0 b1 h0 h1 =
    let n = word b0 b1 0 in
    let (lt, e0, e1, e2) = bytes_of b0 b1 0 h0 h1 (omega arith) in
    let spare : n / 64 % 4 ≡ 0 = omega arith in
    let whole : n / 262144 % 64 * 262144 + n / 4096 % 64 * 4096 + n / 64 % 64 * 64 ≡ n =
      omega arith in
    ap (λ g. g >>= chunk_bytes 3) (gather-three (n / 262144) (n / 4096) (n / 64) ∙ ap some whole)
    ∙ rw (spare, e0, e1)

decode_chunk-two :
    (b0 : ℕ)
    → IsByte b0
    → let n = word b0 0 0 in
      decode_chunk (encode_char (n / 262144) ∷ encode_char (n / 4096) ∷ []) ≡ some (b0 ∷ [])
unfolding decode_chunk chunk_bytes word
decode_chunk-two b0 h0 =
    let n = word b0 0 0 in
    let (lt, e0, e1, e2) = bytes_of b0 0 0 h0 (omega arith) (omega arith) in
    let spare : n / 4096 % 16 ≡ 0 = omega arith in
    let whole : n / 262144 % 64 * 262144 + n / 4096 % 64 * 4096 ≡ n = omega arith in
    ap (λ g. g >>= chunk_bytes 2) (gather-two (n / 262144) (n / 4096) ∙ ap some whole)
    ∙ rw (spare, e0)

decode_chunks-encode :
    (bytes : List ℕ) → All IsByte bytes → decode_chunks (encode bytes) ≡ some bytes
unfolding encode decode_chunks
decode_chunks-encode [] h = refl
decode_chunks-encode (b0 ∷ []) h = decode_chunk-two b0 h.0
decode_chunks-encode (b0 ∷ b1 ∷ []) h = decode_chunk-three b0 b1 h.0 h.1.0
decode_chunks-encode (b0 ∷ b1 ∷ b2 ∷ rest) h =
    rw (decode_chunk-four b0 b1 b2 h.0 h.1.0 h.1.1.0, decode_chunks-encode rest h.1.1.1)

-- The length is one that `decode` accepts.
encode-length : (bytes : List ℕ) → length (encode bytes) % 4 ≢ 1
unfolding encode
encode-length [] = omega arith
encode-length (b0 ∷ []) = omega arith
encode-length (b0 ∷ b1 ∷ []) = omega arith
encode-length (b0 ∷ b1 ∷ b2 ∷ rest) = λ h. encode-length rest (omega (arith, h))

-- Whatever bytes are encoded, decoding the text gives them back.
pub b64-round_trip : (bytes : List ℕ) → All IsByte bytes → decode (encode bytes) ≡ some bytes
unfolding decode
b64-round_trip bytes h =
    not_one (length (encode bytes) % 4) (encode-length bytes) ∙ decode_chunks-encode bytes h
  where
    not_one :
        (n : ℕ)
        → n ≢ 1
        → (if n == 1 then none else decode_chunks (encode bytes)) ≡ decode_chunks (encode bytes)
    not_one n h = ground arith
