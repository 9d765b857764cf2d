-- ===== src/Journal/Row.antt =====
-- The rows of `__changes`: `ChangeKind`, its `encode` and its `decode` (src/journal.rs).
pub mod RoundTrip
pub mod Damage
use clove1db.Prelude.{
  ℕ, zero, suc, ◌+◌, ◌*◌, ◌<◌, ◌≡◌, ◌⊎◌, Bool, List, [], ◌∷◌, ◌++◌, Option, none, some, length,
  take, drop, ltb, leb, ◌==◌, if◌then◌else◌, list_eq,
}
use clove1db.Prelude.Bytes.{Text, to_be, from_be, is_utf8, u64_mod}
use clove1db.Prelude.Results.{Result, ok, err, ClError, validation, ◌>>=◌, ◌>>◌, guard}
use clove1db.Memory.{Allocator, vec_with_capacity, copy_bytes}

pub data ChangeKind : Type 0 where
  upsert : Text → Text → List ℕ → ChangeKind
  delete : Text → Text → ChangeKind
  table_reset : Text → Text → ChangeKind
  blob_put : Text → Text → Text → ℕ → ChangeKind
  blob_delete : Text → Text → Text → ℕ → ChangeKind

pub record Parts : Type 0 where
  pub tag : ℕ
  pub table : Text
  pub key : Text
  pub payload : List ℕ
  pub size : ℕ

unfoldable pub parts : ChangeKind → Parts
parts (upsert t k v) = record { tag = 0; table = t; key = k; payload = v; size = 0 }
parts (delete t k) = record { tag = 1; table = t; key = k; payload = []; size = 0 }
parts (table_reset t snapshot) = record {
  tag = 2;
  table = t;
  key = [];
  payload = snapshot;
  size = 0;
}
parts (blob_put t k blob_id size) = record {
  tag = 3;
  table = t;
  key = k;
  payload = blob_id;
  size = size;
}
parts (blob_delete t k blob_id size) = record {
  tag = 4;
  table = t;
  key = k;
  payload = blob_id;
  size = size;
}

-- One part of a row: its length in eight bytes, and its bytes.
unfoldable pub put_part : List ℕ → List ℕ → Result (List ℕ)
put_part bytes part = do
  guard (ltb (length part) u64_mod) (validation "journal row too large")
  ok (bytes ++ (to_be 8 (length part) ++ part))

abbrev pub bad : ClError
bad = validation "corrupt or unsupported journal row"

-- The first `n` bytes and what follows them.
unfoldable pub take_front : List ℕ → ℕ → Result (List ℕ × List ℕ)
take_front bytes n = if ltb (length bytes) n then err bad else ok (take n bytes, drop n bytes)

unfoldable pub take_number : List ℕ → Result (ℕ × List ℕ)
take_number bytes = do (word, rest) ← take_front bytes 8; ok (from_be word, rest)

unfoldable pub take_part : List ℕ → Result (List ℕ × List ℕ)
take_part bytes = do (len, rest) ← take_number bytes; take_front rest len

-- `String::from_utf8(bytes).map_err(|_| bad())`
unfoldable pub from_utf8 : List ℕ → Result Text
from_utf8 bytes = if is_utf8 bytes then ok bytes else err bad

-- The constructor that a tag stands for.
unfoldable pub of_tag : ℕ → Text → Text → List ℕ → ℕ → Result ChangeKind
of_tag tag table key payload size =
    if tag == 0
    then ok (upsert table key payload)
    else if tag == 1
    then ok (delete table key)
    else if tag == 2
    then (do snapshot ← from_utf8 payload; ok (table_reset table snapshot))
    else if tag == 3
    then (do id ← from_utf8 payload; ok (blob_put table key id size))
    else if tag == 4
    then (do id ← from_utf8 payload; ok (blob_delete table key id size))
    else err bad

abbrev pub first_or_zero : List ℕ → ℕ
first_or_zero [] = 0
first_or_zero (b ∷ _) = b

module _ (granted : Allocator) where
  unfoldable pub encode : ChangeKind → Result (List ℕ)
  encode change = do
    let p = parts change
    vec_with_capacity granted "journal.encode_row"
        (2 + 3 * 8 + length p.table + length p.key + length p.payload + 8)
    with_table ← put_part (1 ∷ p.tag ∷ []) p.table
    with_key ← put_part with_table p.key
    with_payload ← put_part with_key p.payload
    ok (with_payload ++ to_be 8 p.size)

  unfoldable pub decode : List ℕ → Result ChangeKind
  decode bytes = do
    (version, after_version) ← take_front bytes 1
    guard (list_eq version (1 ∷ [])) bad
    (tag, after_tag) ← take_front after_version 1
    (table_bytes, after_table) ← take_part after_tag
    table ← from_utf8 table_bytes
    (key_bytes, after_key) ← take_part after_table
    key ← from_utf8 key_bytes
    (payload_bytes, after_payload) ← take_part after_key
    payload ← copy_bytes granted "journal.read_rows" payload_bytes
    (size, rest) ← take_number after_payload
    guard (length rest == 0) bad
    of_tag (first_or_zero tag) table key payload size

-- Texts are UTF-8 and every length and size fits 64 bits, as the Rust types guarantee.
pub record IsWellFormed (c : ChangeKind) : Type 0 where
  pub table_fits : length (parts c).table < u64_mod
  pub key_fits : length (parts c).key < u64_mod
  pub payload_fits : length (parts c).payload < u64_mod
  pub size_fits : (parts c).size < u64_mod
  pub table_text : is_utf8 (parts c).table ≡ Bool.true
  pub key_text : is_utf8 (parts c).key ≡ Bool.true
  pub payload_text : ((parts c).tag ≡ 0) ⊎ (is_utf8 (parts c).payload ≡ Bool.true)
