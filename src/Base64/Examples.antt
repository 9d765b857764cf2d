-- ===== src/Base64/Examples.antt =====
-- The vectors of the tests in b64.rs.
use clove1db.Prelude.{ℕ, ◌≡◌, refl, List, [], ◌∷◌, none, some, arith}
use clove1db.Prelude.Bytes.{Text}
use clove1db.Base64.{
  encode, encode_char, char_at, word, decode, decode_chunks, decode_chunk, gather, chunk_bytes,
  table, table_from,
}
use clove1db.Base64.RoundTrip.{b64-round_trip}
use clove1db.Base64.Canonical.{b64-canonical}

abbrev foob : List ℕ
foob = 102 ∷ 111 ∷ 111 ∷ 98 ∷ []

abbrev foob_text : Text
foob_text = b'Z' ∷ b'm' ∷ b'9' ∷ b'v' ∷ b'Y' ∷ b'g' ∷ []

encodes : encode foob ≡ foob_text
unfolding encode encode_char char_at word
encodes = refl

decodes : decode foob_text ≡ some foob
unfolding decode decode_chunks decode_chunk gather chunk_bytes table table_from
decodes = refl

-- "Zh" would be a second spelling of "Zg".
second_spelling : decode (b'Z' ∷ b'h' ∷ []) ≡ none
unfolding decode decode_chunks decode_chunk gather chunk_bytes table table_from
second_spelling = refl

b64-round_trip_example : decode (encode foob) ≡ some foob
b64-round_trip_example =
    b64-round_trip foob (omega arith, (omega arith, (omega arith, (omega arith, tt))))

b64-canonical_example : encode foob ≡ foob_text
b64-canonical_example = b64-canonical foob_text foob decodes
