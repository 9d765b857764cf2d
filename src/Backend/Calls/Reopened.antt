-- ===== src/Backend/Calls/Reopened.antt =====
-- A layer that is opened again on the file that a sync left (src/encrypted_store/backend.rs).
use clove1db.Prelude.{ℕ, ◌+◌, ◌-◌, ◌*◌, ◌<◌, ◌≡◌, sym, ◌∙◌, ap, Bool, true, leb, arith}
use mathlib.Core.Path.{subst}
use clove1db.Geometry.{page, data_base, logical_header, logical_len}
use clove1db.Geometry.Lengths.{logical_len-torn}
use clove1db.Backend.{Storage, Aead, geometry, Tuning, Backend}
use clove1db.Backend.Blocks.{page_at}
use clove1db.Backend.Blocks.Layout.{offset, block_len}
use clove1db.Backend.Blocks.Sealed.{shown}
use clove1db.Backend.Blocks.Drained.{
  IsSound, blocks, page_now, after_drain, drain-pending, drain-page_now,
}
use clove1db.Backend.Blocks.Kept.{drain-len}
use clove1db.Backend.Calls.{with_tuning, sync_data}
use clove1db.Backend.Calls.Growth.Filled.{in_file}
use clove1db.Backend.Calls.Growth.Longer.{offset-data_base}

module _ (aead : Aead) (s : Storage) where
  -- The file holds the pages of the layer, and behind them less than a block.
  pub record Fits (b : Backend s) : Type 0 where
    pub whole_pages : b.data_len ≡ blocks aead s b * page
    pub rest : ℕ
    pub short : rest < block_len aead
    pub len_is : s.len b.file ≡ offset aead (blocks aead s b) + rest

  logical_len_lem :
      (n rest : ℕ)
      → rest < block_len aead
      → logical_len (geometry aead) (offset aead n + rest) - logical_header ≡ n * page
  logical_len_lem n rest short =
      ap (λ m. m - logical_header) (logical_len-torn (geometry aead) n rest short) ∙ behind
    where
      behind : logical_header + n * page - logical_header ≡ n * page
      behind = omega arith

  -- The layer that is opened on the file after a sync.
  abbrev pub reopened : Tuning → Bool → Backend s → Backend s
  reopened t read_only b = with_tuning aead s (sync_data aead s t b).1.file read_only

  -- A layer that is opened again on the file that a sync of a sound layer left, when the file holds the
  -- layer's pages and behind them less than a block, has a header area and the same length, and shows
  -- every page that the layer showed: those that had been waiting too.
  pub reopened-page_now :
      (t : Tuning) (read_only : Bool) (b : Backend s) (k : ℕ)
      → IsSound aead s b
      → Fits b
      → k < blocks aead s b
      → ((reopened t read_only b).header_area ≡ true)
        × ((reopened t read_only b).data_len ≡ b.data_len)
        × (page_now aead s (reopened t read_only b) k ≡ page_now aead s b k)
  unfolding with_tuning sync_data page_at
  reopened-page_now t read_only b k sound fits less = (
    subst (λ n. leb data_base n ≡ true) (sym file_len)
        (ground (arith, offset-data_base aead s (blocks aead s b))),
    ap (λ n. logical_len (geometry aead) n - logical_header) file_len
        ∙ logical_len_lem (blocks aead s b) fits.rest fits.short
        ∙ sym fits.whole_pages,
    sym (
          ap (λ l. shown (page_at k l) (in_file aead s (after_drain aead s t b) k))
            (drain-pending aead s t b))
        ∙ drain-page_now aead s t b k sound less,
  )
    where
      file_len : s.len (after_drain aead s t b).file ≡ offset aead (blocks aead s b) + fits.rest
      file_len = drain-len aead s t b sound ∙ fits.len_is
