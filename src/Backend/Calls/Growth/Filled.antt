-- ===== src/Backend/Calls/Growth/Filled.antt =====
-- One batch of zero blocks (src/encrypted_store/backend.rs, `fill`).
use clove1db.Prelude.{
  ℕ, zero, suc, ◌+◌, ◌*◌, ◌≤◌, ◌<◌, ◌≡◌, refl, sym, ◌∙◌, ap, inl, inr, true, false, List, ◌∷◌,
  Option, none, some, length, take, drop, max, ◌==◌, arith, Bool-cases,
}
use clove1db.Geometry.{page}
use clove1db.Backend.{Storage, Aead, block_aad, Backend}
use clove1db.Backend.Pieces.{zeros, length-zeros}
use clove1db.Backend.Blocks.{page_at, is_there, pages_from, seal_chunk, joined}
use clove1db.Backend.Blocks.Layout.{
  block_len, offset, offset_add, offset_before, block, length-joined, write-run, AreBlocks,
}
use clove1db.Backend.Blocks.Written.{page_at-below}
use clove1db.Backend.Blocks.Pending.{pages_from-AscendFrom, length-pages_from}
use clove1db.Backend.Blocks.Sealed.{
  shown, SealedAs, seal_chunk-SealedAs, SealedAs-opened, SealedAs-AreBlocks, SealedAs-there,
}
use clove1db.Backend.Blocks.Drained.{≤-trans}
use clove1db.Backend.Blocks.Staged.{pages_from-IsRun, SealedAs-IsRun}

take-zeros : (n m : ℕ) → take n (zeros (n + m)) ≡ zeros n
unfolding zeros
take-zeros zero m = refl
take-zeros (suc n) m = ap (λ k. take (suc n) (zeros k)) (sum n m) ∙ ap (λ l. 0 ∷ l) (take-zeros n m)
  where
    sum : (i j : ℕ) → suc i + j ≡ suc (i + j)
    sum i j = omega arith

drop-zeros : (n m : ℕ) → drop n (zeros (n + m)) ≡ zeros m
unfolding zeros
drop-zeros zero m = ap zeros (sum m)
  where
    sum : (j : ℕ) → 0 + j ≡ j
    sum j = omega arith
drop-zeros (suc n) m = ap (λ k. drop (suc n) (zeros k)) (sum n m) ∙ drop-zeros n m
  where
    sum : (i j : ℕ) → suc i + j ≡ suc (i + j)
    sum i j = omega arith

abbrev pub zero_pages : ℕ → ℕ → List (ℕ × List ℕ)
zero_pages first count = pages_from first count (zeros (count * page))

page_at-zero_pages :
    (first count k : ℕ)
    → first ≤ k
    → k < first + count
    → page_at k (zero_pages first count) ≡ some (zeros page)
unfolding page_at pages_from
page_at-zero_pages first zero k low high = absurd (omega (arith, low, high))
page_at-zero_pages first (suc count) k low high = elim (Bool-cases (first == k)) [
  | inl s ↦ rw s (ap some first_page)
  | inr n ↦ rw n (
      ap (λ l. page_at k (pages_from (suc first) count l)) rest
      ∙ page_at-zero_pages (suc first) count k (ground (arith, low, n)) (omega (arith, high)))
]
  where
    sum : suc count * page ≡ page + count * page
    sum = omega arith

    first_page : take page (zeros (suc count * page)) ≡ zeros page
    first_page = ap (λ m. take page (zeros m)) sum ∙ take-zeros page (count * page)

    rest : drop page (zeros (suc count * page)) ≡ zeros (count * page)
    rest = ap (λ m. drop page (zeros m)) sum ∙ drop-zeros page (count * page)

length-seal_chunk :
    (aead : Aead) (drawn first count : ℕ) (plain : List ℕ)
    → length (seal_chunk aead drawn (pages_from first count plain)) ≡ count
unfolding seal_chunk pages_from
length-seal_chunk aead drawn first zero plain = refl
length-seal_chunk aead drawn first (suc count) plain =
    ap suc (length-seal_chunk aead (suc drawn) (suc first) count (drop page plain))

module _ (aead : Aead) (s : Storage) where
  abbrev pub zero_blocks : ℕ → ℕ → Backend s → List (ℕ × List ℕ)
  zero_blocks first count b = seal_chunk aead b.drawn (zero_pages first count)

  -- The layer after a batch.
  abbrev pub filled : ℕ → ℕ → Backend s → Backend s
  filled first count b = record b {
    file = s.write b.file (offset aead first) (joined (zero_blocks first count b));
    drawn = b.drawn + count;
  }

  -- What the file has of a page.
  abbrev pub in_file : Backend s → ℕ → Option (List ℕ)
  in_file b k = aead.open_in_place (block_aad k) (block aead s b.file k)

  is_sealed :
      (first count : ℕ) (b : Backend s)
      → SealedAs aead (zero_pages first count) (zero_blocks first count b)
  is_sealed first count b = seal_chunk-SealedAs aead b.drawn (zero_pages first count)

  are_blocks : (first count : ℕ) (b : Backend s) → AreBlocks aead (zero_blocks first count b)
  are_blocks first count b =
      SealedAs-AreBlocks aead (zero_pages first count) (zero_blocks first count b)
        (length-pages_from first count (zeros (count * page))
          (omega (arith, length-zeros (count * page))))
        (is_sealed first count b)

  in_file-filled :
      (first count k : ℕ) (b : Backend s)
      → (page_at k (zero_blocks first count b) ≡ none
          → offset aead k + block_len aead ≤ s.len b.file)
      → in_file (filled first count b) k ≡ shown (page_at k (zero_pages first count)) (in_file b k)
  in_file-filled first count k b within =
      ap (aead.open_in_place (block_aad k)) (
        write-run aead s b.file first k (zero_blocks first count b)
          (SealedAs-IsRun aead s first (zero_pages first count) (zero_blocks first count b)
            (pages_from-IsRun first count (zeros (count * page))) (is_sealed first count b))
          (are_blocks first count b) within)
      ∙ SealedAs-opened aead k (zero_pages first count) (zero_blocks first count b)
          (block aead s b.file k) (is_sealed first count b)

  pub filled_before :
      (first count k : ℕ) (b : Backend s)
      → offset aead first ≤ s.len b.file
      → k < first
      → in_file (filled first count b) k ≡ in_file b k
  filled_before first count k b big less =
      in_file-filled first count k b (λ e. ≤-trans (offset_before aead s k first less) big)
      ∙ ap (λ o. shown o (in_file b k))
          (page_at-below first k (zero_pages first count)
            (pages_from-AscendFrom first count (zeros (count * page))) less)

  pub filled_in :
      (first count k : ℕ) (b : Backend s)
      → first ≤ k
      → k < first + count
      → in_file (filled first count b) k ≡ some (zeros page)
  filled_in first count k b low high =
      in_file-filled first count k b (λ e. absurd (missing (ap is_there e)))
      ∙ ap (λ o. shown o (in_file b k)) (page_at-zero_pages first count k low high)
    where
      true_ne : true ≡ false → ⊥
      true_ne e = cc

      missing : is_there (page_at k (zero_blocks first count b)) ≡ false → ⊥
      missing e = true_ne (
          sym (ap is_there (page_at-zero_pages first count k low high))
          ∙ sym (
              SealedAs-there aead k (zero_pages first count) (zero_blocks first count b)
                (is_sealed first count b))
          ∙ e)

  pub filled-grows :
      (first count : ℕ) (b : Backend s)
      → offset aead first ≤ s.len b.file
      → offset aead (first + count) ≤ s.len (filled first count b).file
  filled-grows first count b big =
      longer
        (length-joined aead s (zero_blocks first count b) (are_blocks first count b)
          ∙ ap (λ n. n * block_len aead)
              (length-seal_chunk aead b.drawn first count (zeros (count * page))))
        (s.len_write b.file (offset aead first) (joined (zero_blocks first count b)) big)
        (offset_add aead first count)
    where
      longer :
          {l n m : ℕ}
          → l ≡ count * block_len aead
          → n ≡ max (s.len b.file) (offset aead first + l)
          → m ≡ offset aead first + count * block_len aead
          → m ≤ n
      longer e f g = rw (f, e, g) (ground arith)
