-- ===== src/Backend/Calls/Growth.antt =====
-- The length of the layer (src/encrypted_store/backend.rs): `set_len`, and `fill`, which grows the file by
-- sealed blocks of zeros.
pub mod Stops
pub mod Filled
pub mod Grown
pub mod Lengthened
pub mod Longer
use clove1db.Prelude.{
  ℕ, zero, suc, ◌+◌, ◌-◌, ◌*◌, ◌/◌, ◌%◌, Bool, true, false, not, ◌&&◌, ◌||◌, List, Option, none,
  some, length, take, drop, min, ltb, leb, ◌==◌, if◌then◌else◌,
}
use clove1db.Geometry.{page, data_base, logical_header, physical_len}
use clove1db.Backend.{
  Storage, Aead, geometry, invalid_input, permission_denied, Io, done, failed, Tuning, M, ◌>>◌,
}
use clove1db.Backend.Pieces.{zeros, all_zero, from_le, init_pieces}
use clove1db.Backend.Blocks.{write_blocks, drain}

abbrev pub fill_batch : ℕ
fill_batch = 128

-- Header pages and data pages of one region.
abbrev pub Shape : Type 0
Shape = Option (ℕ × ℕ)

-- The little-endian `u32` at a place.
abbrev pub word_at : ℕ → List ℕ → Option ℕ
word_at at header =
    if leb (at + 4) (length header) then some (from_le (take 4 (drop at header))) else none

abbrev pub shape_if : Option ℕ → Option ℕ → Option ℕ → Shape
shape_if (some page_size) (some header_pages) (some data_pages) =
    if (page_size == page) && ltb 0 data_pages then some (header_pages, data_pages) else none
shape_if none b c = none
shape_if (some a) none c = none
shape_if (some a) (some b) none = none

unfoldable pub region_shape_of : List ℕ → Shape
unfolding from_le
region_shape_of header = shape_if (word_at 12 header) (word_at 16 header) (word_at 20 header)

unfoldable pub length_makes_layout : ℕ → Shape → Bool
length_makes_layout pages none = true
length_makes_layout pages (some (header_pages, data_pages)) =
    let rest = pages % (header_pages + data_pages) in (rest == 0) || ltb header_pages rest

abbrev pub known_shape : Shape → Io Shape
known_shape (some shape) = done (some shape)
known_shape none = failed (
    invalid_input
      "the header page of the database file is not in the form this version knows, so the file was not grown")

-- No shape while the engine has not written its header.
unfoldable pub region_shape : List ℕ → Io Shape
unfolding all_zero region_shape_of
region_shape header = if all_zero header then done none else known_shape (region_shape_of header)

-- The next length from `stop` on that makes a layout, and at most `stop + fuel`.
unfoldable pub next_stop : ℕ → ℕ → Shape → ℕ
unfolding length_makes_layout
next_stop zero stop shape = stop
next_stop (suc fuel) stop shape =
    let later = next_stop fuel (suc stop) shape in
    if length_makes_layout stop shape then stop else later

-- Where a batch that begins with the block `at` ends.
unfoldable pub stop_after : ℕ → ℕ → Shape → ℕ
unfolding next_stop
stop_after at end shape =
    let first_stop = min (at + fill_batch) end in next_stop (end - first_stop) first_stop shape

abbrev pub is_none : Shape → Bool
is_none none = true
is_none (some shape) = false

module _ (aead : Aead) (s : Storage) where
  -- Batches of blocks, on fuel: as many rounds as there are blocks are enough.
  unfoldable pub fill_from : ℕ → ℕ → ℕ → Shape → M s (Unit {0})
  unfolding write_blocks stop_after zeros
  fill_from zero at end shape b = (done tt, b)
  fill_from (suc fuel) at end shape b =
      let stop = stop_after at end shape in
      let batch =
        (◌>>◌ s (write_blocks aead s at (stop - at) (zeros ((stop - at) * page))))
          (fill_from fuel stop end shape) b in
      if ltb at end then batch else (done tt, b)

  abbrev pub fill_shaped : Io Shape → ℕ → ℕ → M s (Unit {0})
  fill_shaped (failed e) first end b = (failed e, b)
  fill_shaped (done shape) first end b =
      if is_none shape && ltb 0 first
      then (
        failed (
            invalid_input
              "the header page of the database file cannot be read, so the file was not grown"),
        b,
      )
      else fill_from (end - first) first end shape b

  unfoldable pub fill : ℕ → ℕ → M s (Unit {0})
  unfolding region_shape fill_from
  fill first end b = fill_shaped (region_shape b.header.bytes) first end b

  abbrev pub cut_to : ℕ → M s (Unit {0})
  cut_to physical b = (
    done tt,
    if ltb physical (s.len b.file) then record b { file = s.set_len b.file physical } else b,
  )

  -- The area of the header, in a file that has none.
  abbrev pub with_header_area : List ℕ → M s (Unit {0})
  with_header_area noise b =
      if ltb (s.len b.file) data_base
      then init_pieces aead s noise
          (record b { file = s.set_len b.file data_base; header_area = true })
      else (done tt, b)

  abbrev pub to_data_len : ℕ → ℕ → ℕ → M s (Unit {0})
  to_data_len new_data old_data physical b =
      if ltb old_data new_data
      then (◌>>◌ s (fill (old_data / page) (new_data / page))) (cut_to physical) b
      else if ltb new_data old_data
      then (done tt, record b { file = s.set_len b.file physical })
      else (done tt, b)

  abbrev pub set_data_len : ℕ → M s (Unit {0})
  set_data_len n b = (done tt, record b { data_len = n })

  abbrev pub is_len : Option ℕ → ℕ → Bool
  is_len none n = false
  is_len (some m) n = m == n

  abbrev pub change_len : Tuning → List ℕ → ℕ → Option ℕ → M s (Unit {0})
  change_len t noise len none b =
      (failed (invalid_input "length is not a whole number of pages"), b)
  change_len t noise len (some physical) b =
      (◌>>◌ s (drain aead s t))
        (λ b.
          if len == 0
          then (
            done tt,
            record b {
              file = s.set_len b.file physical;
              data_len = 0;
              header_area = leb data_base physical;
            },
          )
          else (◌>>◌ s (
                (◌>>◌ s (with_header_area noise))
                  (to_data_len (len - logical_header) b.data_len physical)))
              (set_data_len (len - logical_header)) b)
        b

  -- `noise` are the random bytes that the header's area begins with.
  unfoldable pub set_len : Tuning → List ℕ → ℕ → M s (Unit {0})
  unfolding drain init_pieces fill physical_len
  set_len t noise len b =
      let physical = physical_len (geometry aead) len in
      if b.read_only && not (is_len physical (s.len b.file))
      then (failed permission_denied, b)
      else if b.read_only
      then (done tt, b)
      else change_len t noise len physical b
