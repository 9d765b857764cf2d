-- ===== src/Geometry.antt =====
-- Where things are in an encrypted database file: `Geometry` (src/encrypted_store/layout.rs). The
-- lengths are `u64` there; the lengths of files that exist are far below 2^64 and the model has no
-- bound.
pub mod Lengths
mod Examples
use clove1db.Prelude.{
  ℕ, ◌+◌, ◌-◌, ◌*◌, ◌/◌, ◌%◌, ◌≡◌, ◌||◌, not, Option, none, some, ltb, ◌==◌, if◌then◌else◌,
}

abbrev pub page : ℕ
page = 4096

abbrev pub file_header_len : ℕ
file_header_len = 2048

abbrev pub piece_len : ℕ
piece_len = 512

abbrev pub pieces_len : ℕ
pieces_len = 4 * piece_len

abbrev pub data_base : ℕ
data_base = file_header_len + pieces_len

abbrev pub logical_header : ℕ
logical_header = page

-- The nonce and the tag that a cipher adds to a block.
pub record Geometry : Type 0 where
  pub overhead : ℕ

unfoldable pub stride : Geometry → ℕ
stride g = page + g.overhead

unfoldable pub block_offset : Geometry → ℕ → ℕ
block_offset g index = data_base + index * stride g

unfoldable pub logical_len : Geometry → ℕ → ℕ
logical_len g physical =
    if ltb physical data_base then 0 else logical_header + (physical - data_base) / stride g * page

unfoldable pub physical_len : Geometry → ℕ → Option ℕ
physical_len g logical =
    if logical == 0
    then some file_header_len
    else if ltb logical logical_header || not (logical % page == 0)
    then none
    else some (data_base + (logical - logical_header) / page * stride g)
