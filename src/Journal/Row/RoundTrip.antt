-- ===== src/Journal/Row/RoundTrip.antt =====
-- `decode` reads back what `encode` wrote (journal.rs).
use mathlib.Core.List.{append_assoc, append-nil}
use clove1db.Prelude.{
  ℕ, ◌<◌, ◌≡◌, refl, ◌∙◌, true, List, [], ◌∷◌, ◌++◌, arith, length, take-length_append,
  drop-length_append, length-append, lt→ltb, list_eq,
}
use clove1db.Prelude.Bytes.{to_be, is_utf8, u64_mod, length-to_be, from_be-to_be}
use clove1db.Prelude.Results.{ok, ◌>>=◌}
use clove1db.Memory.{Allocator, Grants, vec_with_capacity, copy_bytes}
use clove1db.Journal.Row.{
  ChangeKind, upsert, delete, table_reset, blob_put, blob_delete, Parts, parts, put_part,
  take_front, take_number, take_part, from_utf8, of_tag, encode, decode, IsWellFormed,
}

-- The bytes of a part, and of a whole row.
abbrev pub part_bytes : List ℕ → List ℕ
part_bytes part = to_be 8 (length part) ++ part

abbrev pub row_bytes : Parts → List ℕ
row_bytes p =
    1
    ∷ p.tag
    ∷ (part_bytes p.table ++ (part_bytes p.key ++ (part_bytes p.payload ++ to_be 8 p.size)))

pub take_front-append :
    (xs ys : List ℕ) (n : ℕ) → length xs ≡ n → take_front (xs ++ ys) n ≡ ok (xs, ys)
unfolding take_front
take_front-append xs ys n e =
    rw (← e) (rw (take-length_append, drop-length_append) (ground (arith, length-append xs ys)))

pub take_number-append :
    (v : ℕ) (rest : List ℕ) → v < u64_mod → take_number (to_be 8 v ++ rest) ≡ ok (v, rest)
unfolding take_number
take_number-append v rest h =
    rw (take_front-append (to_be 8 v) rest 8 (length-to_be 8 v)) (rw (from_be-to_be 8 v h))

pub take_part-append :
    (part rest : List ℕ)
    → length part < u64_mod
    → take_part (part_bytes part ++ rest) ≡ ok (part, rest)
unfolding take_part
take_part-append part rest h =
    rw append_assoc
      (rw (take_number-append (length part) (part ++ rest) h) (take_front-append part rest _ refl))

-- What `encode` writes, in one piece.
pub encode-row_bytes :
    (granted : Allocator) (c : ChangeKind)
    → Grants granted
    → IsWellFormed c
    → encode granted c ≡ ok (row_bytes (parts c))
unfolding encode vec_with_capacity put_part
encode-row_bytes granted c g w =
    rw (g, lt→ltb _ _ w.table_fits, lt→ltb _ _ w.key_fits, lt→ltb _ _ w.payload_fits)
      (simp append_assoc)

of_tag-parts :
    (c : ChangeKind)
    → IsWellFormed c
    → of_tag (parts c).tag (parts c).table (parts c).key (parts c).payload (parts c).size ≡ ok c
unfolding of_tag from_utf8 parts
of_tag-parts (upsert t k v) w = refl
of_tag-parts (delete t k) w = refl
of_tag-parts (table_reset t s) w = ground (arith, w.payload_text)
of_tag-parts (blob_put t k b n) w = ground (arith, w.payload_text)
of_tag-parts (blob_delete t k b n) w = ground (arith, w.payload_text)

from_utf8-ok : (bytes : List ℕ) → is_utf8 bytes ≡ true → from_utf8 bytes ≡ ok bytes
unfolding from_utf8
from_utf8-ok bytes h = rw h

take_front-cons : (x : ℕ) (ys : List ℕ) → take_front (x ∷ ys) 1 ≡ ok (x ∷ [], ys)
take_front-cons x ys = take_front-append (x ∷ []) ys 1 refl

take_number_last : (v : ℕ) → v < u64_mod → take_number (to_be 8 v) ≡ ok (v, [])
take_number_last v h = rw append-nil at (take_number-append v [] h)

-- The reader on a row, up to the choice of the constructor.
decode-row_bytes :
    (granted : Allocator) (p : Parts)
    → Grants granted
    → length p.table < u64_mod
    → length p.key < u64_mod
    → length p.payload < u64_mod
    → p.size < u64_mod
    → is_utf8 p.table ≡ true
    → is_utf8 p.key ≡ true
    → decode granted (row_bytes p) ≡ of_tag p.tag p.table p.key p.payload p.size
unfolding decode copy_bytes vec_with_capacity list_eq
decode-row_bytes granted p g ht hk hp hs ut uk = rw (
  take_front-cons 1,
  take_front-cons p.tag,
  take_part-append p.table _ ht,
  from_utf8-ok p.table ut,
  take_part-append p.key _ hk,
  from_utf8-ok p.key uk,
  take_part-append p.payload _ hp,
  g,
  take_number_last p.size hs,
)

-- `decode` on the bytes that `encode` writes.
pub decode-row :
    (granted : Allocator) (c : ChangeKind)
    → Grants granted
    → IsWellFormed c
    → decode granted (row_bytes (parts c)) ≡ ok c
decode-row granted c g w =
    decode-row_bytes granted (parts c) g w.table_fits w.key_fits w.payload_fits w.size_fits
      w.table_text w.key_text
    ∙ of_tag-parts c w

-- With memory granted, `decode` reads back every change that `encode` wrote.
pub decode-encode :
    (granted : Allocator) (c : ChangeKind)
    → Grants granted
    → IsWellFormed c
    → (encode granted c >>= decode granted) ≡ ok c
decode-encode granted c g w = rw (encode-row_bytes granted c g w) (decode-row granted c g w)
