-- ===== src/Backend/Examples.antt =====
-- The layer on a file in memory.
use clove1db.Prelude.{
  ◌+◌, ◌*◌, ◌/◌, ◌%◌, ◌≤◌, ◌≡◌, refl, sym, inl, true, false, List, [], ◌∷◌, ◌++◌, some, ℕ, ◌<◌, ◌⊎◌,
  ltb, if◌then◌else◌, arith, ap,
}
use mathlib.Core.Path.{subst}
use clove1db.Geometry.{page, data_base, logical_header, stride, block_offset}
use clove1db.Backend.{Tuning, Backend, done}
use clove1db.Backend.Concrete.{in_memory, tagging}
use clove1db.Backend.Pieces.{zeros, length-zeros, all_zero, from_le}
use clove1db.Backend.Blocks.{page_at}
use clove1db.Backend.Blocks.Sealed.{shown}
use clove1db.Backend.Blocks.Written.{AscendFrom}
use clove1db.Backend.Blocks.Drained.{IsSound, blocks, page_now}
use clove1db.Backend.Blocks.Staged.{pages_of}
use clove1db.Backend.Calls.{read}
use clove1db.Backend.Calls.Device.{answer}
use clove1db.Backend.Calls.Growth.{length_makes_layout, stop_after, region_shape, region_shape_of}
use clove1db.Backend.Calls.Growth.Stops.{stop_after-layout}
use clove1db.Backend.Calls.Growth.Longer.{MayGrow, after_set_len, set_len-page_now}
use clove1db.Backend.Calls.Reopened.{Fits, reopened, reopened-page_now}
use clove1db.Backend.Calls.Updates.{IsPages, after_write, read_after_write}

abbrev four_threads : Tuning
four_threads = record { parallel_seal = true; threads = 4; cores = 8 }

-- Page size 4096, no header pages, 256 data pages in a region.
abbrev header_page : List ℕ
header_page = zeros 12 ++ (0 ∷ 16 ∷ 0 ∷ 0 ∷ 0 ∷ 0 ∷ 0 ∷ 0 ∷ 0 ∷ 1 ∷ 0 ∷ 0 ∷ zeros 296)

-- Three blocks, of which the first has a page that waits.
abbrev three_blocks : Backend in_memory
three_blocks = record {
  file = (data_base + 12291, λ i. 7);
  data_len = 12288;
  header_area = true;
  header = record { bytes = header_page; seq = 0; newest_copy = 0 };
  read_only = false;
  pending = (0, zeros page) ∷ [];
  drawn = 0;
}

three_blocks-IsSound : IsSound tagging in_memory three_blocks
unfolding AscendFrom block_offset stride
three_blocks-IsSound = record {
  ascending = (omega arith, tt);
  whole = (length-zeros page, tt);
  inside = (omega arith, tt);
  filled = omega arith;
}

one_page-IsPages : IsPages tagging in_memory three_blocks 1 (zeros page)
unfolding zeros
one_page-IsPages = record {
  some_bytes = refl;
  are_whole = ap (λ n. n % page) (length-zeros page);
  fits = subst (λ n. 1 + n / page ≤ 3) (sym (length-zeros page)) (omega arith);
}

three_blocks-MayGrow : MayGrow tagging in_memory three_blocks (some (0, 256))
unfolding zeros region_shape all_zero region_shape_of from_le
three_blocks-MayGrow = record {
  sound = three_blocks-IsSound;
  allowed = refl;
  whole_pages = refl;
  known = refl;
  sure = refl;
}

three_blocks-Fits : Fits tagging in_memory three_blocks
unfolding block_offset stride
three_blocks-Fits = record { whole_pages = refl; rest = 0; short = omega arith; len_is = refl }

reopened-page_now_example :
    ((reopened tagging in_memory four_threads true three_blocks).header_area ≡ true)
    × ((reopened tagging in_memory four_threads true three_blocks).data_len ≡ 12288)
    × (page_now tagging in_memory (reopened tagging in_memory four_threads true three_blocks) 0
        ≡ page_now tagging in_memory three_blocks 0)
reopened-page_now_example =
    reopened-page_now tagging in_memory four_threads true three_blocks 0 three_blocks-IsSound
      three_blocks-Fits (omega arith)

read_after_write_example :
    read tagging in_memory four_threads
      (logical_header + 1 * page)
      page
      (after_write tagging in_memory four_threads 1 (zeros page) three_blocks)
    ≡ (
      answer 1 (
          shown
            (page_at 1 (pages_of tagging in_memory 1 (zeros page)))
            (page_now tagging in_memory three_blocks 1)),
      after_write tagging in_memory four_threads 1 (zeros page) three_blocks,
    )
read_after_write_example =
    read_after_write tagging in_memory four_threads 1 1 (zeros page) three_blocks
      three_blocks-IsSound refl refl (inl refl) one_page-IsPages (omega arith)

stop_after-layout_example :
    (3 < stop_after 3 300 (some (2, 129)))
    × (stop_after 3 300 (some (2, 129)) ≤ 300)
    × ((stop_after 3 300 (some (2, 129)) ≡ 300)
        ⊎ (length_makes_layout (stop_after 3 300 (some (2, 129))) (some (2, 129)) ≡ true))
stop_after-layout_example = stop_after-layout 3 300 (some (2, 129)) (omega arith)

set_len-page_now_example :
    ((after_set_len tagging in_memory four_threads [] 5 three_blocks).0 ≡ done tt)
    × (blocks tagging in_memory (after_set_len tagging in_memory four_threads [] 5 three_blocks).1
        ≡ 5)
    × (page_now tagging in_memory
          (after_set_len tagging in_memory four_threads [] 5 three_blocks).1
          4
        ≡ (if ltb 4 (blocks tagging in_memory three_blocks)
            then page_now tagging in_memory three_blocks 4
            else some (zeros page)))
set_len-page_now_example =
    set_len-page_now tagging in_memory four_threads [] 5 4 (some (0, 256)) three_blocks
      three_blocks-MayGrow (omega arith) (omega arith)
