-- ===== src/Base64.antt =====
-- URL-safe base64 without padding (src/field_crypto/b64.rs). The bits that `|` joins are disjoint,
-- so it is written as a sum, and a mask of low bits as a remainder.
pub mod Alphabet
pub mod RoundTrip
pub mod Canonical
mod Examples
use clove1db.Prelude.{
  ℕ, zero, suc, ◌+◌, ◌-◌, ◌*◌, ◌/◌, ◌%◌, ◌^◌, ◌≡◌, Bool, not, List, [], ◌∷◌, ◌++◌, Option, none,
  some, length, take, ltb, ◌==◌, if◌then◌else◌, ◌&&◌,
}
use clove1db.Prelude.Bytes.{Text}
use clove1db.Prelude.Options.{◌>>=◌}

-- A-Z a-z 0-9 - _
abbrev pub alphabet : Text
alphabet =
    65 ∷ 66 ∷ 67 ∷ 68 ∷ 69 ∷ 70 ∷ 71 ∷ 72 ∷ 73 ∷ 74 ∷ 75 ∷ 76 ∷ 77 ∷ 78 ∷ 79 ∷ 80 ∷ 81 ∷ 82 ∷ 83
    ∷ 84 ∷ 85 ∷ 86 ∷ 87 ∷ 88 ∷ 89 ∷ 90 ∷ 97 ∷ 98 ∷ 99 ∷ 100 ∷ 101 ∷ 102 ∷ 103 ∷ 104 ∷ 105 ∷ 106
    ∷ 107 ∷ 108 ∷ 109 ∷ 110 ∷ 111 ∷ 112 ∷ 113 ∷ 114 ∷ 115 ∷ 116 ∷ 117 ∷ 118 ∷ 119 ∷ 120 ∷ 121 ∷ 122
    ∷ 48 ∷ 49 ∷ 50 ∷ 51 ∷ 52 ∷ 53 ∷ 54 ∷ 55 ∷ 56 ∷ 57 ∷ 45 ∷ 95 ∷ []

-- `ALPHABET[i]`, for an index that is never out of range
unfoldable pub char_at : Text → ℕ → ℕ
char_at [] i = 0
char_at (c ∷ rest) zero = c
char_at (c ∷ rest) (suc i) = char_at rest i

-- The decoding table at `c`, filled from index `i` on: 255 for what is not in the alphabet.
unfoldable pub table_from : ℕ → Text → ℕ → ℕ
table_from i [] c = 255
table_from i (x ∷ rest) c =
    let later = table_from (suc i) rest c in
    if later == 255 then (if x == c then i else 255) else later

unfoldable pub encode_char : ℕ → ℕ
encode_char v = char_at alphabet (v % 64)

unfoldable pub table : ℕ → ℕ
table c = table_from 0 alphabet c

-- The 24 bits of a chunk.
unfoldable pub word : ℕ → ℕ → ℕ → ℕ
word b0 b1 b2 = b0 * 65536 + b1 * 256 + b2

unfoldable pub encode : List ℕ → Text
encode [] = []
encode (b0 ∷ []) = let n = word b0 0 0 in encode_char (n / 262144) ∷ encode_char (n / 4096) ∷ []
encode (b0 ∷ b1 ∷ []) =
    let n = word b0 b1 0 in
    encode_char (n / 262144) ∷ encode_char (n / 4096) ∷ encode_char (n / 64) ∷ []
encode (b0 ∷ b1 ∷ b2 ∷ rest) =
    let n = word b0 b1 b2 in
    encode_char (n / 262144)
    ∷ encode_char (n / 4096)
    ∷ encode_char (n / 64)
    ∷ encode_char n
    ∷ encode rest

-- `n |= v << shift` for every character, each six bits lower
unfoldable pub gather : ℕ → ℕ → Text → Option ℕ
gather shift n [] = some n
gather shift n (c ∷ rest) =
    let v = table c in
    let more = gather (shift - 6) (n + v * 2 ^ shift) rest in if v == 255 then none else more

-- The bytes of a chunk's bits: as many as they fill, and the spare bits are zero.
unfoldable pub chunk_bytes : ℕ → ℕ → Option (List ℕ)
chunk_bytes len n =
    let produced = len * 6 / 8 in
    let group = n / 65536 % 256 ∷ n / 256 % 256 ∷ n % 256 ∷ [] in
    let total = len * 6 in
    let used = produced * 8 in
    let spare = n / 2 ^ (24 - total) % 2 ^ (total - used) in
    if ltb used total && not (spare == 0) then none else some (take produced group)

unfoldable pub decode_chunk : Text → Option (List ℕ)
decode_chunk chunk = do n ← gather 18 0 chunk; chunk_bytes (length chunk) n

-- The chunks of four characters, the last of them as long as it comes.
unfoldable pub decode_chunks : Text → Option (List ℕ)
decode_chunks [] = some []
decode_chunks (c0 ∷ c1 ∷ c2 ∷ c3 ∷ rest) = do
  out ← decode_chunk (c0 ∷ c1 ∷ c2 ∷ c3 ∷ [])
  more ← decode_chunks rest
  some (out ++ more)
decode_chunks chunk = decode_chunk chunk

unfoldable pub decode : Text → Option (List ℕ)
decode text = let out = decode_chunks text in if length text % 4 == 1 then none else out
