-- ===== src/Header.antt =====
-- The first bytes of an encrypted database file (src/encrypted_store/file_header.rs). The random
-- filler is a parameter, the bytes that `random_bytes` gives; a cipher is known by its overhead.
pub mod RoundTrip
mod Examples
use clove1db.Prelude.{
  ℕ, ◌+◌, ◌*◌, Bool, not, ◌&&◌, ◌||◌, true, false, List, [], ◌∷◌, ◌++◌, length, take, drop, ltb,
  ◌==◌, if◌then◌else◌,
}
use clove1db.Prelude.Results.{Result, ok, err, io_error}
use clove1db.Geometry.{file_header_len}

abbrev pub salt_len : ℕ
salt_len = 32

abbrev pub key_len : ℕ
key_len = 32

-- Bytes of one locked root, for the overhead of a cipher.
unfoldable pub lock_len : ℕ → ℕ
lock_len overhead = salt_len + overhead + key_len

pub record LockedDataKey : Type 0 where
  pub read : List ℕ
  pub search : List ℕ

pub data StoreDiagnostic : Type 0 where
  key_missing lock_rejected header_malformed looks_like_unencrypted database_unreadable :
      StoreDiagnostic

-- `Result<T, StoreDiagnostic>`
pub data Outcome (A : Type 0) : Type 0 where
  done : A → Outcome A
  failed : StoreDiagnostic → Outcome A

-- The locked keys over the first bytes of the filler.
unfoldable pub encode_header : List ℕ → ℕ → LockedDataKey → Result (List ℕ)
encode_header filler overhead locked =
    let n = lock_len overhead in
    if not (length locked.read == n) || not (length locked.search == n)
    then err (io_error "locked key does not match the cipher")
    else ok (locked.read ++ (locked.search ++ drop (2 * n) filler))

abbrev pub plain_signature : List ℕ
plain_signature = b'r' ∷ b'e' ∷ b'd' ∷ b'b' ∷ 0x1A ∷ 0x0A ∷ 0xA9 ∷ 0x0D ∷ 0x0A ∷ []

unfoldable pub starts_with : List ℕ → List ℕ → Bool
starts_with bytes [] = true
starts_with [] (x ∷ prefix) = false
starts_with (b ∷ bytes) (x ∷ prefix) = (b == x) && starts_with bytes prefix

unfoldable pub decode_header : ℕ → List ℕ → Outcome LockedDataKey
decode_header overhead bytes =
    let n = lock_len overhead in
    if starts_with bytes plain_signature
    then failed looks_like_unencrypted
    else if ltb (length bytes) file_header_len
    then failed header_malformed
    else done (record { read = take n bytes; search = take n (drop n bytes) })
