-- ===== src/Header/Examples.antt =====
-- A header with keys of one byte repeated, for a cipher that adds 28 bytes.
use clove1db.Prelude.{
  ℕ, zero, suc, ◌++◌, drop, ◌*◌, ◌≤◌, ◌≡◌, refl, List, [], ◌∷◌, length, if◌then◌else◌, arith,
}
use clove1db.Prelude.Results.{ok}
use clove1db.Geometry.{file_header_len}
use clove1db.Header.{
  lock_len, LockedDataKey, done, failed, looks_like_unencrypted, encode_header, decode_header,
  starts_with, plain_signature,
}
use clove1db.Header.RoundTrip.{decode_header-encode_header}

unfoldable repeat : ℕ → ℕ → List ℕ
repeat zero b = []
repeat (suc n) b = b ∷ repeat n b

abbrev locked : LockedDataKey
locked = record { read = repeat 92 7; search = repeat 92 9 }

abbrev filler : List ℕ
filler = repeat 2048 0

abbrev header_bytes : List ℕ
header_bytes = locked.read ++ (locked.search ++ drop 184 filler)

filler-length : length filler ≡ file_header_len
unfolding repeat
filler-length = refl

fits : 2 * lock_len 28 ≤ file_header_len
unfolding lock_len
fits = omega arith

made : encode_header filler 28 locked ≡ ok header_bytes
unfolding encode_header lock_len repeat
made = refl

decode_header-encode_header_example : decode_header 28 header_bytes ≡ (
    if starts_with header_bytes plain_signature then failed looks_like_unencrypted else done locked)
decode_header-encode_header_example =
    decode_header-encode_header filler 28 locked header_bytes filler-length fits made
