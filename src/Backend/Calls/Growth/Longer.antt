-- ===== src/Backend/Calls/Growth/Longer.antt =====
-- The pages of a layer that `set_len` made longer (src/encrypted_store/backend.rs).
use clove1db.Prelude.{
  ℕ, ◌+◌, ◌*◌, ◌/◌, ◌≤◌, ◌<◌, ◌≡◌, refl, sym, ◌∙◌, ap, inl, inr, false, ◌&&◌, List, [], some, ltb,
  ltb→lt, if◌then◌else◌, arith, Bool-cases,
}
use mathlib.Core.Path.{subst}
use clove1db.Geometry.{page, data_base, logical_header, block_offset}
use clove1db.Backend.{Storage, Aead, Io, done, Tuning, Backend, then_run}
use clove1db.Backend.Pieces.{zeros}
use clove1db.Backend.Blocks.{page_at, drain}
use clove1db.Backend.Blocks.Layout.{offset}
use clove1db.Backend.Blocks.Sealed.{shown}
use clove1db.Backend.Blocks.Drained.{
  IsSound, blocks, page_now, after_drain, drain-pending, drain-page_now, drain-IsSound,
}
use clove1db.Backend.Calls.Growth.{
  Shape, region_shape, is_none, with_header_area, to_data_len, set_data_len, set_len,
}
use clove1db.Backend.Calls.Growth.Filled.{in_file}
use clove1db.Backend.Calls.Growth.Lengthened.{
  IsLonger, lengthen, set_len_allowed, change_len_drained, to_data_len-IsLonger,
}

module _ (aead : Aead) (s : Storage) where
  -- A layer that may grow: the shape of the engine's regions is known, or nothing is in it yet.
  pub record MayGrow (b : Backend s) (shape : Shape) : Type 0 where
    pub sound : IsSound aead s b
    pub allowed : b.read_only ≡ false
    pub whole_pages : b.data_len ≡ blocks aead s b * page
    pub known : region_shape b.header.bytes ≡ done shape
    pub sure : (is_none shape && ltb 0 (blocks aead s b)) ≡ false

  pub offset-data_base : (m : ℕ) → data_base ≤ offset aead m
  unfolding block_offset
  offset-data_base m = omega arith

  lengthen-IsLonger :
      (noise : List ℕ) (n : ℕ) (shape : Shape) (d : Backend s)
      → MayGrow d shape
      → blocks aead s d ≤ n
      → IsLonger aead s d (blocks aead s d) n (lengthen aead s noise n d)
  lengthen-IsLonger noise n shape d may longer =
      subst (IsLonger aead s d (blocks aead s d) n) (sym same) (
        to_data_len-IsLonger aead s shape (blocks aead s d) n d may.allowed may.whole_pages
          may.sound.filled longer may.known may.sure)
    where
      area : ltb (s.len d.file) data_base ≡ false
      area = ground (arith, offset-data_base (blocks aead s d), may.sound.filled)

      has_area : with_header_area aead s noise d ≡ (done tt, d)
      has_area = simp (area)

      same :
          lengthen aead s noise n d
          ≡ then_run s
              (to_data_len aead s (n * page) (blocks aead s d * page) (offset aead n) d)
              (λ x. set_data_len aead s (n * page))
      same =
          ap
            (λ r.
              then_run s
                (then_run s r (λ x. to_data_len aead s (n * page) d.data_len (offset aead n)))
                (λ x. set_data_len aead s (n * page)))
            has_area
          ∙ ap
              (λ m.
                then_run s (to_data_len aead s (n * page) m (offset aead n) d)
                  (λ x. set_data_len aead s (n * page)))
              may.whole_pages

  drain-MayGrow :
      (t : Tuning) (b : Backend s) (shape : Shape)
      → MayGrow b shape
      → MayGrow (after_drain aead s t b) shape
  unfolding drain
  drain-MayGrow t b shape may = record {
    sound = drain-IsSound aead s t b may.sound;
    allowed = may.allowed;
    whole_pages = may.whole_pages;
    known = may.known;
    sure = may.sure;
  }

  after_drain-blocks :
      (t : Tuning) (b : Backend s) → blocks aead s (after_drain aead s t b) ≡ blocks aead s b
  unfolding drain
  after_drain-blocks t b = refl

  -- What the layer has after its length is set to a header page and `n` pages.
  abbrev pub after_set_len : Tuning → List ℕ → ℕ → Backend s → Io (Unit {0}) × Backend s
  after_set_len t noise n b = set_len aead s t noise (logical_header + n * page) b

  set_len-IsLonger :
      (t : Tuning) (noise : List ℕ) (n : ℕ) (shape : Shape) (b : Backend s)
      → MayGrow b shape
      → blocks aead s b ≤ n
      → IsLonger aead s (after_drain aead s t b) (blocks aead s b) n (after_set_len t noise n b)
  set_len-IsLonger t noise n shape b may longer =
      subst (IsLonger aead s (after_drain aead s t b) (blocks aead s b) n)
        (sym
          (set_len_allowed aead s t noise n b may.allowed ∙ change_len_drained aead s t noise n b))
        (subst
          (λ m.
            IsLonger aead s (after_drain aead s t b) m n
              (lengthen aead s noise n (after_drain aead s t b)))
          (after_drain-blocks t b)
          (lengthen-IsLonger noise n shape (after_drain aead s t b) (drain-MayGrow t b shape may)
            (subst (λ m. m ≤ n) (sym (after_drain-blocks t b)) longer)))

  -- In a drained layer the pages are the ones of the file.
  page_now-drained :
      (b : Backend s) (k : ℕ) → b.pending ≡ [] → page_now aead s b k ≡ in_file aead s b k
  unfolding page_at
  page_now-drained b k e = ap (λ l. shown (page_at k l) (in_file aead s b k)) e

  -- A sound layer that may grow, given a length of `n` pages behind its header page, no fewer than it
  -- has, answers without an error and has `n` pages: those that it had, and behind them pages of zeros.
  pub set_len-page_now :
      (t : Tuning) (noise : List ℕ) (n k : ℕ) (shape : Shape) (b : Backend s)
      → MayGrow b shape
      → blocks aead s b ≤ n
      → k < n
      → ((after_set_len t noise n b).0 ≡ done tt)
        × (blocks aead s (after_set_len t noise n b).1 ≡ n)
        × (page_now aead s (after_set_len t noise n b).1 k
            ≡ (if ltb k (blocks aead s b) then page_now aead s b k else some (zeros page)))
  set_len-page_now t noise n k shape b may longer less =
      let l = set_len-IsLonger t noise n shape b may longer in
      let drained : l.layer.pending ≡ [] = l.grown.kept.0 ∙ drain-pending aead s t b in
      (
        ap (λ r. r.0) l.result,
        ap (λ r. blocks aead s r.1) l.result ∙ pages n,
        ap (λ r. page_now aead s r.1 k) l.result
            ∙ page_now-drained (record l.layer { data_len = n * page }) k drained
            ∙ elim (Bool-cases (ltb k (blocks aead s b))) [
              | inl old ↦ rw old (
                  l.grown.old k (ltb→lt k (blocks aead s b) old)
                  ∙ sym (page_now-drained (after_drain aead s t b) k (drain-pending aead s t b))
                  ∙ drain-page_now aead s t b k may.sound (ltb→lt k (blocks aead s b) old))
              | inr new ↦ rw new (l.grown.new k (ground (arith, new)) less)
            ],
      )
    where
      pages : (m : ℕ) → m * page / page ≡ m
      pages m = omega arith
