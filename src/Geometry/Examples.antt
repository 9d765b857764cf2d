-- ===== src/Geometry/Examples.antt =====
-- The lengths of the tests in layout.rs, for a cipher that adds 28 bytes.
use clove1db.Prelude.Bytes.{u64_mod}
use clove1db.Prelude.{◌%◌, ◌+◌, ◌*◌, ◌<◌, ◌≡◌, refl, some, arith}
use clove1db.Geometry.{
  Geometry, page, logical_header, block_offset, logical_len, physical_len, stride,
}
use clove1db.Geometry.Lengths.{logical_len-torn, logical_len-physical_len}

abbrev gcm : Geometry
gcm = record { overhead = 28 }

logical_len-torn_example : logical_len gcm (block_offset gcm 3 + 100) ≡ logical_header + 3 * page
unfolding stride
logical_len-torn_example = logical_len-torn gcm 3 100 fits
  where
    fits : 100 < 4124
    fits = omega arith

pages_of_two : physical_len gcm 12288 ≡ some 12344
unfolding physical_len stride
pages_of_two = refl

logical_len-physical_len_example : logical_len gcm (12344 % u64_mod) ≡ 12288
logical_len-physical_len_example =
    logical_len-physical_len gcm 12288 12344 pages_of_two (omega arith)
