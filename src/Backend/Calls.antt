-- ===== src/Backend/Calls.antt =====
-- The calls of the engine: `with_tuning` and the `StorageBackend` of `BlockBackend`
-- (src/encrypted_store/backend.rs). One call runs at a time.
pub mod Growth
pub mod Device
pub mod Updates
pub mod Reopened
use clove1db.Prelude.{
  ℕ, zero, suc, ◌+◌, ◌-◌, ◌*◌, ◌/◌, ◌%◌, Bool, true, false, not, ◌&&◌, ◌||◌, List, [], ◌∷◌, ◌++◌,
  Option, none, some, length, take, drop, get_elem?, min, ltb, leb, ◌==◌, if◌then◌else◌,
}
use clove1db.Geometry.{page, data_base, logical_header, stride, block_offset, logical_len}
use clove1db.Backend.{
  Storage, Aead, geometry, invalid_input, unexpected_eof, tampered, Io, done, failed, block_aad,
  Tuning, Header, Backend, M, ◌>>=◌, ◌>>◌,
}
use clove1db.Backend.Pieces.{redb_header_len, zeros, slice, load_header, write_header_range}
use clove1db.Backend.Blocks.{
  page_at, is_there, refuse_if_read_only, write_blocks, stage_pages, drain,
}

abbrev pub byte_or_zero : Option ℕ → ℕ
byte_or_zero none = 0
byte_or_zero (some b) = b

-- The header page: the engine's header and zeros after it.
unfoldable pub header_page_bytes : Header → ℕ → ℕ → List ℕ
header_page_bytes h pos zero = []
header_page_bytes h pos (suc n) =
    (if ltb pos redb_header_len then byte_or_zero (get_elem? h.bytes pos) else 0)
    ∷ header_page_bytes h (suc pos) n

unfoldable pub any_pending : ℕ → ℕ → List (ℕ × List ℕ) → Bool
any_pending first zero pending = false
any_pending first (suc count) pending =
    is_there (page_at first pending) || any_pending (suc first) count pending

abbrev pub is_empty : {A : Type 0} → List A → Bool
is_empty [] = true
is_empty (x ∷ l) = false

-- Where the bytes of a read come from.
pub data Staged : Type 0 where
  not_staged must_drain : Staged
  staged_page : List ℕ → Staged

abbrev pub staged_or_not : Option (List ℕ) → Staged
staged_or_not none = not_staged
staged_or_not (some p) = staged_page p

unfoldable pub staged : Tuning → ℕ → ℕ → List (ℕ × List ℕ) → Staged
unfolding any_pending
staged t first count pending =
    if not t.parallel_seal || is_empty pending
    then not_staged
    else if count == 1
    then staged_or_not (page_at first pending)
    else if any_pending first count pending
    then must_drain
    else not_staged

abbrev pub and_more : List ℕ → Io (List ℕ) → Io (List ℕ)
and_more part (failed e) = failed e
and_more part (done rest) = done (part ++ rest)

abbrev pub with_plain : ℕ → Option (List ℕ) → (List ℕ → Io (List ℕ)) → Io (List ℕ)
with_plain index none use_it = failed (tampered (some index))
with_plain index (some plain) use_it = use_it plain

module _ (aead : Aead) where
  -- `raw` are the blocks from `index` on; the first page is read from the byte `within`.
  unfoldable pub open_blocks : ℕ → ℕ → ℕ → ℕ → List ℕ → Io (List ℕ)
  unfolding block_aad stride
  open_blocks index zero within want raw = done []
  open_blocks index (suc count) within want raw =
      let n = min (page - within) want in
      let rest = open_blocks (suc index) count 0 (want - n) (drop (stride (geometry aead)) raw) in
      with_plain index (aead.open_in_place (block_aad index) (take (stride (geometry aead)) raw))
        (λ plain. and_more (slice within (within + n) plain) rest)

  module _ (s : Storage) where
    -- `BlockBackend::with_tuning`
    unfoldable pub with_tuning : s.File → Bool → Backend s
    unfolding load_header zeros logical_len
    with_tuning f read_only =
        let blank : Header = record { bytes = zeros redb_header_len; seq = 0; newest_copy = 0 } in
        record {
          file = f;
          data_len = logical_len (geometry aead) (s.len f) - logical_header;
          header_area = leb data_base (s.len f);
          header = if leb data_base (s.len f) then load_header aead s f blank else blank;
          read_only = read_only;
          pending = [];
          drawn = 0;
        }

    -- `BlockBackend::logical_len`
    unfoldable pub layer_len : Backend s → ℕ
    layer_len b = if b.header_area then logical_header + b.data_len else 0

    unfoldable pub read_blocks : ℕ → ℕ → ℕ → ℕ → M s (List ℕ)
    unfolding open_blocks block_offset
    read_blocks first count within want b = (
      open_blocks first count within want
          (s.read b.file (block_offset (geometry aead) first) (count * stride (geometry aead))),
      b,
    )

    abbrev pub read_staged : Tuning → Staged → ℕ → ℕ → ℕ → ℕ → M s (List ℕ)
    read_staged t (staged_page p) first count within want b =
        (done (slice within (within + min (page - within) want) p), b)
    read_staged t must_drain first count within want b =
        (◌>>◌ s (drain aead s t)) (read_blocks first count within want) b
    read_staged t not_staged first count within want b = read_blocks first count within want b

    -- `want` bytes, at least one, from byte `rel` behind the header page.
    unfoldable pub read_data : Tuning → ℕ → ℕ → M s (List ℕ)
    unfolding staged read_blocks
    read_data t rel want b =
        let first = rel / page in
        let count = (rel + want - 1) / page - first + 1 in
        read_staged t (staged t first count b.pending) first count (rel % page) want b

    unfoldable pub read : Tuning → ℕ → ℕ → M s (List ℕ)
    unfolding layer_len header_page_bytes read_data
    read t offset want b =
        let n = if ltb offset logical_header then min (logical_header - offset) want else 0 in
        let head = header_page_bytes b.header offset n in
        if want == 0
        then (done [], b)
        else if ltb (layer_len b) (offset + want)
        then (failed unexpected_eof, b)
        else if n == want
        then (done head, b)
        else (◌>>=◌ s (read_data t (offset + n - logical_header) (want - n)))
            (λ rest b. (done (head ++ rest), b)) b

    -- Behind the header page only whole pages are written.
    unfoldable pub write_pages : Tuning → ℕ → List ℕ → M s (Unit {0})
    unfolding stage_pages write_blocks
    write_pages t pos new b =
        let rel = pos - logical_header in
        if is_empty new
        then (done tt, b)
        else if not (rel % page == 0) || not (length new % page == 0)
        then (failed (invalid_input "write is not aligned to whole pages"), b)
        else if t.parallel_seal
        then stage_pages aead s t (rel / page) new b
        else write_blocks aead s (rel / page) (length new / page) new b

    unfoldable pub write : Tuning → ℕ → List ℕ → M s (Unit {0})
    unfolding layer_len write_header_range write_pages drain
    write t offset new b =
        let n = min (logical_header - offset) (length new) in
        if is_empty new
        then (done tt, b)
        else if ltb (layer_len b) (offset + length new)
        then (failed (invalid_input "write past the end"), b)
        else if ltb offset logical_header
        then (◌>>◌ s ((◌>>◌ s (drain aead s t)) (write_header_range aead s offset (take n new))))
            (write_pages t (offset + n) (drop n new)) b
        else write_pages t offset new b

    -- The sync of the file below comes after it.
    unfoldable pub sync_data : Tuning → M s (Unit {0})
    unfolding drain
    sync_data t b = drain aead s t b
