-- ===== src/Backend/Calls/Updates.antt =====
-- Whole pages that the engine writes, and the reads that come after (src/encrypted_store/backend.rs).
use clove1db.Prelude.{
  ℕ, ◌+◌, ◌-◌, ◌*◌, ◌/◌, ◌%◌, ◌≤◌, ◌<◌, ◌≡◌, refl, sym, ◌∙◌, ap, ◌⊎◌, inl, inr, true, false, List,
  length, ltb, if◌then◌else◌, arith, Bool-cases,
}
use mathlib.Core.Path.{subst}
use clove1db.Geometry.{page, logical_header}
use clove1db.Backend.{Storage, Aead, Io, Tuning, Backend}
use clove1db.Backend.Blocks.{page_at, stage_pages, write_blocks}
use clove1db.Backend.Blocks.Sealed.{shown}
use clove1db.Backend.Blocks.Drained.{IsSound, blocks, page_now}
use clove1db.Backend.Blocks.Staged.{
  pages_of, stage_pages-page_now, stage_pages-IsSound, write_blocks-page_now, write_blocks-IsSound,
  IsSameShape, stage_pages-IsSameShape, write_blocks-kept,
}
use clove1db.Backend.Calls.{is_empty, layer_len, read, write_pages, write}
use clove1db.Backend.Calls.Device.{answer, first_page, layer_len_lem, IsServed, read-page_now}

module _ (aead : Aead) (s : Storage) where
  -- Whole pages behind the header page, all within the layer.
  pub record IsPages (b : Backend s) (first : ℕ) (plain : List ℕ) : Type 0 where
    pub some_bytes : is_empty plain ≡ false
    pub are_whole : length plain % page ≡ 0
    pub fits : first + length plain / page ≤ blocks aead s b

  -- Where such pages go.
  abbrev put_pages : Tuning → ℕ → List ℕ → Backend s → Io (Unit {0}) × Backend s
  put_pages t first plain b =
      if t.parallel_seal
      then stage_pages aead s t first plain b
      else write_blocks aead s first (length plain / page) plain b

  write_pages_at :
      (t : Tuning) (first : ℕ) (plain : List ℕ) (b : Backend s)
      → IsPages b first plain
      → write_pages aead s t (logical_header + first * page) plain b ≡ put_pages t first plain b
  unfolding write_pages
  write_pages_at t first plain b pages =
      rw (pages.some_bytes, pages.are_whole, rel, whole) (rw (first_page first) refl)
    where
      rel : logical_header + first * page - logical_header ≡ first * page
      rel = omega arith

      whole : first * page % page ≡ 0
      whole = omega arith

  write_at :
      (t : Tuning) (first : ℕ) (plain : List ℕ) (b : Backend s)
      → b.header_area ≡ true
      → IsPages b first plain
      → write aead s t (logical_header + first * page) plain b ≡ put_pages t first plain b
  unfolding write
  write_at t first plain b area pages = behind_header ∙ write_pages_at t first plain b pages
    where
      behind : ltb (logical_header + first * page) logical_header ≡ false
      behind = ground arith

      fits : ltb (layer_len aead s b) (logical_header + first * page + length plain) ≡ false
      fits = rw (layer_len_lem aead s b area) (ground (arith, pages.are_whole, pages.fits))

      behind_header :
          write aead s t (logical_header + first * page) plain b
          ≡ write_pages aead s t (logical_header + first * page) plain b
      behind_header = simp (pages.some_bytes, fits, behind)

  put_staged :
      (t : Tuning) (first : ℕ) (plain : List ℕ) (b : Backend s)
      → t.parallel_seal ≡ true
      → put_pages t first plain b ≡ stage_pages aead s t first plain b
  put_staged t first plain b p = simp (p)

  put_blocks :
      (t : Tuning) (first : ℕ) (plain : List ℕ) (b : Backend s)
      → t.parallel_seal ≡ false
      → put_pages t first plain b ≡ write_blocks aead s first (length plain / page) plain b
  put_blocks t first plain b p = simp (p)

  abbrev pub after_write : Tuning → ℕ → List ℕ → Backend s → Backend s
  after_write t first plain b = (write aead s t (logical_header + first * page) plain b).1

  -- After a write of whole pages to a sound layer, the layer shows these pages, and every other page as
  -- before.
  pub write-page_now :
      (t : Tuning) (first k : ℕ) (plain : List ℕ) (b : Backend s)
      → IsSound aead s b
      → b.header_area ≡ true
      → b.read_only ≡ false
      → IsServed aead s t b
      → IsPages b first plain
      → k < blocks aead s b
      → page_now aead s (after_write t first plain b) k
        ≡ shown (page_at k (pages_of aead s first plain)) (page_now aead s b k)
  write-page_now t first k plain b sound area allowed served pages less =
      ap (λ r. page_now aead s r.1 k) (write_at t first plain b area pages)
      ∙ by_mode (Bool-cases t.parallel_seal) served
    where
      by_mode :
          (t.parallel_seal ≡ true) ⊎ (t.parallel_seal ≡ false)
          → IsServed aead s t b
          → page_now aead s (put_pages t first plain b).1 k
            ≡ shown (page_at k (pages_of aead s first plain)) (page_now aead s b k)
      by_mode (inl p) served =
          ap (λ r. page_now aead s r.1 k) (put_staged t first plain b p)
          ∙ stage_pages-page_now aead s t first k plain b sound allowed pages.fits less
      by_mode (inr p) (inl q) = cc
      by_mode (inr p) (inr e) =
          ap (λ r. page_now aead s r.1 k) (put_blocks t first plain b p)
          ∙ write_blocks-page_now aead s first k plain b sound allowed e less

  -- And the layer is sound afterwards.
  pub write-IsSound :
      (t : Tuning) (first : ℕ) (plain : List ℕ) (b : Backend s)
      → IsSound aead s b
      → b.header_area ≡ true
      → IsPages b first plain
      → IsSound aead s (after_write t first plain b)
  write-IsSound t first plain b sound area pages =
      subst (λ r. IsSound aead s r.1) (sym (write_at t first plain b area pages))
        (by_mode (Bool-cases t.parallel_seal))
    where
      by_mode :
          (t.parallel_seal ≡ true) ⊎ (t.parallel_seal ≡ false)
          → IsSound aead s (put_pages t first plain b).1
      by_mode (inl p) =
          subst (λ r. IsSound aead s r.1) (sym (put_staged t first plain b p))
            (stage_pages-IsSound aead s t first plain b sound pages.fits)
      by_mode (inr p) =
          subst (λ r. IsSound aead s r.1) (sym (put_blocks t first plain b p))
            (write_blocks-IsSound aead s first plain b sound (omega (arith, pages.fits)))

  write-IsSameShape :
      (t : Tuning) (first : ℕ) (plain : List ℕ) (b : Backend s)
      → b.header_area ≡ true
      → IsServed aead s t b
      → IsPages b first plain
      → IsSameShape aead s b (after_write t first plain b)
        × IsServed aead s t (after_write t first plain b)
  write-IsSameShape t first plain b area served pages =
      subst (λ r. IsSameShape aead s b r.1 × IsServed aead s t r.1)
        (sym (write_at t first plain b area pages)) (by_mode (Bool-cases t.parallel_seal) served)
    where
      by_mode :
          (t.parallel_seal ≡ true) ⊎ (t.parallel_seal ≡ false)
          → IsServed aead s t b
          → IsSameShape aead s b (put_pages t first plain b).1
            × IsServed aead s t (put_pages t first plain b).1
      by_mode (inl p) served =
          subst (λ r. IsSameShape aead s b r.1 × IsServed aead s t r.1)
            (sym (put_staged t first plain b p))
            (stage_pages-IsSameShape aead s t first plain b, inl p)
      by_mode (inr p) (inl q) = cc
      by_mode (inr p) (inr e) =
          let (shape, none_wait) = write_blocks-kept aead s first plain b in
          subst (λ r. IsSameShape aead s b r.1 × IsServed aead s t r.1)
            (sym (put_blocks t first plain b p)) (shape, inr (none_wait ∙ e))

  -- In a sound layer that has its header area and may be written, and in which pages wait only if reads
  -- look at them, a page that is read after a write of whole pages is the page that was written, where
  -- the write had one for its place, and otherwise the page that the layer showed before. The read
  -- fails only for a block that does not open, names it, and changes nothing.
  pub read_after_write :
      (t : Tuning) (first k : ℕ) (plain : List ℕ) (b : Backend s)
      → IsSound aead s b
      → b.header_area ≡ true
      → b.read_only ≡ false
      → IsServed aead s t b
      → IsPages b first plain
      → k < blocks aead s b
      → read aead s t (logical_header + k * page) page (after_write t first plain b) ≡ (
        answer k (shown (page_at k (pages_of aead s first plain)) (page_now aead s b k)),
        after_write t first plain b,
      )
  read_after_write t first k plain b sound area allowed served pages less =
      let (shape, still_served) = write-IsSameShape t first plain b area served pages in
      read-page_now aead s t k (after_write t first plain b)
        (write-IsSound t first plain b sound area pages) (shape.0 ∙ area) still_served
        (rw shape.1 less)
      ∙ ap (λ o. (answer k o, after_write t first plain b))
          (write-page_now t first k plain b sound area allowed served pages less)
