-- ===== src/Backend/Calls/Device.antt =====
-- The layer as a device of pages: `read` and `write` of whole pages against the pages that it shows.
use clove1db.Prelude.{
  ℕ, zero, suc, ◌+◌, ◌-◌, ◌*◌, ◌/◌, ◌%◌, ◌<◌, ◌≡◌, refl, sym, ◌∙◌, ap, ◌⊎◌, inl, inr, true, false,
  List, [], ◌∷◌, Option, none, some, length, take, ltb, arith, Bool-cases, Option-cases,
}
use mathlib.Core.List.{append-nil}
use clove1db.Geometry.{page, logical_header, stride}
use clove1db.Backend.{
  Storage, Aead, geometry, tampered, Io, done, failed, block_aad, Tuning, Backend, then_run,
}
use clove1db.Backend.Pieces.{slice}
use clove1db.Backend.Blocks.{page_at}
use clove1db.Backend.Blocks.Layout.{block, block_len, offset, offset_before}
use clove1db.Backend.Blocks.Sealed.{shown}
use clove1db.Backend.Blocks.Drained.{IsSound, blocks, page_now, ≤-trans}
use clove1db.Backend.Calls.{
  staged, staged_or_not, and_more, with_plain, layer_len, open_blocks, read_blocks, read_staged,
  read_data, read,
}

-- What a read of one page answers.
abbrev pub answer : ℕ → Option (List ℕ) → Io (List ℕ)
answer k none = failed (tampered (some k))
answer k (some p) = done (take page p)

rel_page : (k : ℕ) → logical_header + k * page + 0 - logical_header ≡ k * page
rel_page k = omega arith

pub first_page : (k : ℕ) → k * page / page ≡ k
first_page k = omega arith

within_page : (k : ℕ) → k * page % page ≡ 0
within_page k = omega arith

count_page : (k : ℕ) → (k * page + page - 1) / page - k * page / page + 1 ≡ 1
count_page k = omega arith

take_all : (n : ℕ) (l : List ℕ) → length l ≡ n → take n l ≡ l
take_all zero [] h = refl
take_all zero (x ∷ l) h = absurd (omega (arith, h))
take_all (suc n) [] h = absurd (omega (arith, h))
take_all (suc n) (x ∷ l) h = ap (λ r. x ∷ r) (take_all n l (omega (arith, h)))

once :
    (k : ℕ) (o : Option (List ℕ))
    → with_plain k o (λ plain. and_more (slice 0 page plain) (done [])) ≡ answer k o
once k none = refl
once k (some p) = ap done (append-nil (take page p))

then_run_done :
    {s : Storage} {A : Type 0} (r : Io A × Backend s) → then_run s r (λ a b. (done a, b)) ≡ r
then_run_done (failed e, b) = refl
then_run_done (done a, b) = refl

staged_one :
    (t : Tuning) (k : ℕ) (pending : List (ℕ × List ℕ))
    → (t.parallel_seal ≡ true) ⊎ (pending ≡ [])
    → staged t k 1 pending ≡ staged_or_not (page_at k pending)
unfolding staged page_at
staged_one t k [] served = elim (Bool-cases t.parallel_seal) [ inl p ↦ simp (p) | inr p ↦ simp (p) ]
staged_one t k (x ∷ pending) (inl p) = rw p refl
staged_one t k (x ∷ pending) (inr e) = cc

module _ (aead : Aead) (s : Storage) where
  -- One block, opened from its first byte.
  open_block :
      (k : ℕ) (raw : List ℕ)
      → length raw ≡ block_len aead
      → open_blocks aead k 1 0 page raw ≡ answer k (aead.open_in_place (block_aad k) raw)
  unfolding open_blocks
  open_block k raw n =
      ap
        (λ l.
          with_plain k (aead.open_in_place (block_aad k) l)
            (λ plain. and_more (slice 0 page plain) (done [])))
        (take_all (stride (geometry aead)) raw n)
      ∙ once k (aead.open_in_place (block_aad k) raw)

  read_one_block :
      (k : ℕ) (b : Backend s)
      → length (block aead s b.file k) ≡ block_len aead
      → read_blocks aead s k 1 0 page b
        ≡ (answer k (aead.open_in_place (block_aad k) (block aead s b.file k)), b)
  unfolding read_blocks
  read_one_block k b n =
      ap (λ m. (open_blocks aead k 1 0 page (s.read b.file (offset aead k) m), b)) one_block
      ∙ ap (λ o. (o, b)) (open_block k (block aead s b.file k) n)
    where
      one_block : 1 * stride (geometry aead) ≡ stride (geometry aead)
      one_block = omega arith

  read_one :
      (t : Tuning) (k : ℕ) (b : Backend s)
      → read_data aead s t (k * page) page b
        ≡ read_staged aead s t (staged t k 1 b.pending) k 1 0 page b
  unfolding read_data
  read_one t k b = rw (count_page k, first_page k, within_page k) refl

  pub layer_len_lem :
      (b : Backend s) → b.header_area ≡ true → layer_len aead s b ≡ logical_header + b.data_len
  unfolding layer_len
  layer_len_lem b area = simp (area)

  read_at :
      (t : Tuning) (k : ℕ) (b : Backend s)
      → b.header_area ≡ true
      → k < blocks aead s b
      → read aead s t (logical_header + k * page) page b ≡ read_data aead s t (k * page) page b
  unfolding read
  read_at t k b area less =
      rw (behind, fits) (rw (rel_page k) (then_run_done (read_data aead s t (k * page) page b)))
    where
      behind : ltb (logical_header + k * page) logical_header ≡ false
      behind = ground arith

      fits : ltb (layer_len aead s b) (logical_header + k * page + page) ≡ false
      fits = rw (layer_len_lem b area) (ground (arith, less))

  -- The pages that a read looks at are the ones that the layer shows.
  abbrev pub IsServed : Tuning → Backend s → Type 0
  IsServed t b = (t.parallel_seal ≡ true) ⊎ (b.pending ≡ [])

  read_staged-page_now :
      (t : Tuning) (k : ℕ) (b : Backend s)
      → IsSound aead s b
      → IsServed t b
      → k < blocks aead s b
      → read_staged aead s t (staged t k 1 b.pending) k 1 0 page b
        ≡ (answer k (page_now aead s b k), b)
  read_staged-page_now t k b sound served less = elim (Option-cases (page_at k b.pending)) [
    | inl e ↦
        by_page e
        ∙ from_file
        ∙ ap
            (λ o.
              (answer k (shown o (aead.open_in_place (block_aad k) (block aead s b.file k))), b))
            (sym e)
    | inr (p, e) ↦
        by_page e
        ∙ ap
            (λ o.
              (answer k (shown o (aead.open_in_place (block_aad k) (block aead s b.file k))), b))
            (sym e)
  ]
    where
      by_page :
          {o : Option (List ℕ)}
          → page_at k b.pending ≡ o
          → read_staged aead s t (staged t k 1 b.pending) k 1 0 page b
            ≡ read_staged aead s t (staged_or_not o) k 1 0 page b
      by_page e =
          ap (λ f. read_staged aead s t f k 1 0 page b)
            (staged_one t k b.pending served ∙ ap staged_or_not e)

      from_file :
          read_blocks aead s k 1 0 page b
          ≡ (answer k (aead.open_in_place (block_aad k) (block aead s b.file k)), b)
      from_file = read_one_block k b (
          s.length_read b.file (offset aead k) (block_len aead)
            (≤-trans (offset_before aead s k (blocks aead s b) less) sound.filled))

  -- A page that is read is the page that the layer shows, and an error names a block that does not
  -- open; the read changes nothing.
  pub read-page_now :
      (t : Tuning) (k : ℕ) (b : Backend s)
      → IsSound aead s b
      → b.header_area ≡ true
      → IsServed t b
      → k < blocks aead s b
      → read aead s t (logical_header + k * page) page b ≡ (answer k (page_now aead s b k), b)
  read-page_now t k b sound area served less =
      read_at t k b area less ∙ read_one t k b ∙ read_staged-page_now t k b sound served less
