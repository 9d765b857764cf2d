-- ===== src/Backend/Calls/Growth/Lengthened.antt =====
-- `set_len` with a larger length (src/encrypted_store/backend.rs).
use clove1db.Prelude.{
  ℕ, ◌+◌, ◌-◌, ◌*◌, ◌/◌, ◌%◌, ◌≤◌, ◌<◌, ◌≡◌, refl, ◌∙◌, ap, inl, inr, false, ◌&&◌, List, some, ltb,
  ◌==◌, arith, Bool-cases,
}
use mathlib.Core.Path.{subst}
use clove1db.Geometry.{page, logical_header, physical_len, block_offset}
use clove1db.Backend.{Storage, Aead, geometry, Io, done, Tuning, Backend, then_run, ◌>>◌, block_aad}
use clove1db.Backend.Blocks.{drain}
use clove1db.Backend.Blocks.Layout.{offset, block_len, offset_before}
use clove1db.Backend.Blocks.Drained.{≤-trans, after_drain}
use clove1db.Backend.Calls.Growth.{
  Shape, region_shape, is_none, fill_from, fill, cut_to, with_header_area, to_data_len,
  set_data_len, change_len, set_len,
}
use clove1db.Backend.Calls.Growth.Filled.{in_file}
use clove1db.Backend.Calls.Growth.Grown.{IsGrown, nothing-IsGrown, fill_from-IsGrown}

module _ (aead : Aead) (s : Storage) where
  physical_len_lem :
      (n : ℕ) → physical_len (geometry aead) (logical_header + n * page) ≡ some (offset aead n)
  unfolding physical_len block_offset
  physical_len_lem n = rw (not_zero, long, whole, count) refl
    where
      not_zero : (logical_header + n * page == 0) ≡ false
      not_zero = ground arith

      long : ltb (logical_header + n * page) logical_header ≡ false
      long = ground arith

      whole : (logical_header + n * page) % page ≡ 0
      whole = omega arith

      count : (logical_header + n * page - logical_header) / page ≡ n
      count = omega arith

  pub set_len_allowed :
      (t : Tuning) (noise : List ℕ) (n : ℕ) (b : Backend s)
      → b.read_only ≡ false
      → set_len aead s t noise (logical_header + n * page) b
        ≡ change_len aead s t noise (logical_header + n * page) (some (offset aead n)) b
  unfolding set_len
  set_len_allowed t noise n b allowed = simp (allowed, physical_len_lem n)

  -- What follows the drain.
  abbrev pub lengthen : List ℕ → ℕ → Backend s → Io (Unit {0}) × Backend s
  lengthen noise n b =
      (◌>>◌ s (
          (◌>>◌ s (with_header_area aead s noise))
            (to_data_len aead s (n * page) b.data_len (offset aead n))))
        (set_data_len aead s (n * page)) b

  pub change_len_drained :
      (t : Tuning) (noise : List ℕ) (n : ℕ) (b : Backend s)
      → change_len aead s t noise (logical_header + n * page) (some (offset aead n)) b
        ≡ lengthen noise n (after_drain aead s t b)
  unfolding drain
  change_len_drained t noise n b = rw (not_zero, behind) refl
    where
      not_zero : (logical_header + n * page == 0) ≡ false
      not_zero = ground arith

      behind : logical_header + n * page - logical_header ≡ n * page
      behind = omega arith

  cut_to-IsGrown :
      (at end : ℕ) (b c : Backend s)
      → at ≤ end
      → IsGrown aead s b at end (done tt, c)
      → IsGrown aead s b at end (cut_to aead s (offset aead end) c)
  cut_to-IsGrown at end b c ordered grown =
      elim (Bool-cases (ltb (offset aead end) (s.len c.file))) [
        | inl longer ↦ rw longer (record {
          finished = refl;
          kept = grown.kept;
          reaches = rw (s.len_set_len c.file (offset aead end)) (omega arith);
          old = λ k less. same k (omega (arith, less, ordered)) ∙ grown.old k less;
          new = λ k low high. same k high ∙ grown.new k low high;
        })
        | inr fits ↦ rw fits grown
      ]
    where
      cut : Backend s
      cut = record c { file = s.set_len c.file (offset aead end) }

      same : (k : ℕ) → k < end → in_file aead s cut k ≡ in_file aead s c k
      same k less = ap (aead.open_in_place (block_aad k)) (
          s.read_set_len c.file (offset aead end) (offset aead k) (block_len aead)
            (offset_before aead s k end less)
            (≤-trans (offset_before aead s k end less) grown.reaches))

  fill_allowed :
      (shape : Shape) (first end : ℕ) (b : Backend s)
      → region_shape b.header.bytes ≡ done shape
      → (is_none shape && ltb 0 first) ≡ false
      → fill aead s first end b ≡ fill_from aead s (end - first) first end shape b
  unfolding fill
  fill_allowed shape first end b known allowed = rw (known, allowed) refl

  -- The result, and the layer before its new length is set.
  pub record IsLonger (d : Backend s) (first end : ℕ) (r : Io (Unit {0}) × Backend s) : Type 0 where
    pub layer : Backend s
    pub grown : IsGrown aead s d first end (done tt, layer)
    pub result : r ≡ (done tt, record layer { data_len = end * page })

  pub to_data_len-IsLonger :
      (shape : Shape) (first end : ℕ) (d : Backend s)
      → d.read_only ≡ false
      → d.data_len ≡ first * page
      → offset aead first ≤ s.len d.file
      → first ≤ end
      → region_shape d.header.bytes ≡ done shape
      → (is_none shape && ltb 0 first) ≡ false
      → IsLonger d first end (
          then_run s
            (to_data_len aead s (end * page) (first * page) (offset aead end) d)
            (λ x. set_data_len aead s (end * page)))
  to_data_len-IsLonger shape first end d allowed size big ordered known sure =
      elim (Bool-cases (ltb (first * page) (end * page))) [
        | inl more ↦ record {
          layer = (cut_to aead s (offset aead end) (filled_up.1)).1;
          grown = cut_to-IsGrown first end d filled_up.1 ordered done_grown;
          result = rw more (
              ap
                (λ r.
                  then_run s (then_run s r (λ x. cut_to aead s (offset aead end)))
                    (λ x. set_data_len aead s (end * page)))
                (fill_pages ∙ ap (λ o. (o, filled_up.1)) is_grown.finished));
        }
        | inr over ↦ record {
          layer = d;
          grown = nothing-IsGrown aead s first end d (same over) big;
          result = rw (over, not_less over) refl;
        }
      ]
    where
      filled_up : Io (Unit {0}) × Backend s
      filled_up = fill_from aead s (end - first) first end shape d

      is_grown : IsGrown aead s d first end filled_up
      is_grown =
          fill_from-IsGrown aead s (end - first) first end shape d (omega arith) ordered allowed big

      done_grown : IsGrown aead s d first end (done tt, filled_up.1)
      done_grown =
          subst (λ o. IsGrown aead s d first end (o, filled_up.1)) is_grown.finished is_grown

      fill_pages : fill aead s (first * page / page) (end * page / page) d ≡ filled_up
      fill_pages =
          ap (λ n. fill aead s n (end * page / page) d) (pages first)
          ∙ ap (λ n. fill aead s first n d) (pages end)
          ∙ fill_allowed shape first end d known sure
        where
          pages : (n : ℕ) → n * page / page ≡ n
          pages n = omega arith

      same : ltb (first * page) (end * page) ≡ false → first ≡ end
      same over = ground (arith, over, ordered)

      not_less : ltb (first * page) (end * page) ≡ false → ltb (end * page) (first * page) ≡ false
      not_less over = ground (arith, over, ordered)
