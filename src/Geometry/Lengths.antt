-- ===== src/Geometry/Lengths.antt =====
-- Lengths there and back, and blocks in their places.
use clove1db.Prelude.Bytes.{u64_mod}
use clove1db.Prelude.{
  ℕ, ◌+◌, ◌-◌, ◌*◌, ◌/◌, ◌%◌, ◌<◌, ◌≤◌, ◌≡◌, refl, sym, ◌∙◌, ap, ◌||◌, not, none, some, Bool, true,
  false, ltb, ◌==◌, ==_iff, if◌then◌else◌, arith,
}
use native.Mathlib.Nat.{add-mul-div_right, div-eq_of_lt}
use clove1db.Geometry.{
  page, logical_header, Geometry, stride, block_offset, logical_len, physical_len,
}

whole_blocks : (n torn s : ℕ) → torn < s → (n * s + torn) / s ≡ n
whole_blocks n torn s h =
    ap (λ x. x / s) (omega arith)
    ∙ add-mul-div_right torn n (omega (arith, h))
    ∙ rw (div-eq_of_lt h) (omega arith)

-- A file of the header area, `n` whole blocks and less than one more has the length of a header page
-- and `n` pages: a torn block at the end is ignored.
pub logical_len-torn :
    (g : Geometry) (n torn : ℕ)
    → torn < stride g
    → logical_len g (block_offset g n + torn) ≡ logical_header + n * page
unfolding logical_len block_offset
logical_len-torn g n torn h =
    go (4096 + n * stride g + torn) (omega arith)
    ∙ ap (λ x. 4096 + x / stride g * 4096) offset
    ∙ ap (λ q. 4096 + q * 4096) (whole_blocks n torn (stride g) h)
  where
    offset : 4096 + n * stride g + torn - 4096 ≡ n * stride g + torn
    offset = omega arith

    go :
        (p : ℕ)
        → 4096 ≤ p
        → (if ltb p 4096 then 0 else 4096 + (p - 4096) / stride g * 4096)
          ≡ 4096 + (p - 4096) / stride g * 4096
    go p h = ground arith

positive : (g : Geometry) → 0 < stride g
unfolding stride
positive g = omega arith

some_eq : (a b : ℕ) → some a ≡ some b → a ≡ b
some_eq a b h = cc

ltb→ge : (a b : ℕ) → ltb a b ≡ false → b ≤ a
ltb→ge a b h = ground arith

none_yet : (g : Geometry) → logical_len g 2048 ≡ 0
unfolding logical_len
none_yet g = refl

at_block : (g : Geometry) (n : ℕ) → block_offset g n + 0 ≡ 4096 + n * stride g
unfolding block_offset
at_block g n = omega arith

-- Without a bound on the file length
logical_len-full :
    (g : Geometry) (logical physical : ℕ)
    → physical_len g logical ≡ some physical
    → logical_len g physical ≡ logical
unfolding physical_len
logical_len-full g logical physical h =
    go (logical == 0) (ltb logical 4096) (logical % 4096 == 0) refl refl refl h
  where
    pages : ℕ
    pages = (logical - 4096) / 4096

    go :
        (z b m : Bool)
        → (logical == 0) ≡ z
        → ltb logical 4096 ≡ b
        → (logical % 4096 == 0) ≡ m
        → (if z then some 2048 else if b || not m then none else some (4096 + pages * stride g))
          ≡ some physical
        → logical_len g physical ≡ logical
    go true b m ez eb em h =
        rw⁻¹ (some_eq 2048 physical h) (none_yet g ∙ sym ((==_iff logical 0).0 ez))
    go false true m ez eb em h = cc
    go false false false ez eb em h = cc
    go false false true ez eb em h =
        let ge : 4096 ≤ logical = (ltb→ge logical 4096 eb) in
        let whole : logical % 4096 ≡ 0 = (==_iff (logical % 4096) 0).0 em in
        let torn_free = logical_len-torn g pages 0 (positive g) in
        let same : block_offset g pages + 0 ≡ physical = at_block g pages ∙ some_eq _ physical h in
        ap (logical_len g) (sym same) ∙ torn_free ∙ omega (arith, ge, whole)

-- Where a database length has a file length that fits 64 bits, the length that 64-bit arithmetic comes
-- to is that one, and a file of it has the database length again.
pub logical_len-physical_len :
    (g : Geometry) (logical physical : ℕ)
    → physical_len g logical ≡ some physical
    → physical < u64_mod
    → logical_len g (physical % u64_mod) ≡ logical
logical_len-physical_len g logical physical h fits =
    let same : physical % u64_mod ≡ physical = omega arith in
    rw same (logical_len-full g logical physical h)
