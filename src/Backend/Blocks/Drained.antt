-- ===== src/Backend/Blocks/Drained.antt =====
-- Draining (src/encrypted_store/backend.rs, `drain`): the pages that a layer shows, before and after.
use clove1db.Prelude.{
  ℕ, ◌/◌, ◌≤◌, ◌<◌, ◌≡◌, refl, sym, ◌∙◌, ap, inl, inr, true, List, [], ◌∷◌, Option, length, All,
  All-map, ◌==◌, ==_iff, arith, Bool-cases,
}
use mathlib.Core.Path.{subst}
use clove1db.Geometry.{page}
use clove1db.Backend.{Storage, Aead, block_aad, Tuning, Backend}
use clove1db.Backend.Blocks.{page_at, is_there, workers_for, seal_all, forget_pages, drain}
use clove1db.Backend.Blocks.Layout.{offset, offset_before, offset_mono, block}
use clove1db.Backend.Blocks.Written.{AscendFrom, AreWithin, block-write_all, write_all-grows}
use clove1db.Backend.Blocks.Sealed.{
  shown, SealedAs, seal_all-SealedAs, SealedAs-opened, SealedAs-AreBlocks, SealedAs-AscendFrom,
  SealedAs-All,
}

-- All pages of the batch are forgotten.
forget_all :
    (batch list : List (ℕ × List ℕ))
    → All (λ e. is_there (page_at e.0 batch) ≡ true) list
    → forget_pages batch list ≡ []
unfolding forget_pages
forget_all batch [] h = refl
forget_all batch ((i, p) ∷ list) h = rw h.0 (forget_all batch list h.1)

is_there_later :
    (k i : ℕ) (p : List ℕ) (list : List (ℕ × List ℕ))
    → is_there (page_at k list) ≡ true
    → is_there (page_at k ((i, p) ∷ list)) ≡ true
unfolding page_at
is_there_later k i p list h = elim (Bool-cases (i == k)) [ inl s ↦ rw s refl | inr n ↦ rw n h ]

all_there : (list : List (ℕ × List ℕ)) → All (λ e. is_there (page_at e.0 list) ≡ true) list
unfolding page_at
all_there [] = tt
all_there ((i, p) ∷ list) = (
  (rw ((==_iff i i).1 refl) refl),
  All-map (λ e. is_there (page_at e.0 list) ≡ true)
      (λ e. is_there (page_at e.0 ((i, p) ∷ list)) ≡ true) list
      (λ e h. is_there_later e.0 i p list h) (all_there list),
)

pub ≤-trans : {x y z : ℕ} → x ≤ y → y ≤ z → x ≤ z
≤-trans h k = omega (arith, h, k)

module _ (aead : Aead) (s : Storage) where
  abbrev pub blocks : Backend s → ℕ
  blocks b = b.data_len / page

  -- Waiting pages are whole, in the order of their numbers, and have a block in the file.
  pub record IsSound (b : Backend s) : Type 0 where
    pub ascending : AscendFrom 0 b.pending
    pub whole : All (λ e. length e.1 ≡ page) b.pending
    pub inside : All (λ e. e.0 < blocks b) b.pending
    pub filled : offset aead (blocks b) ≤ s.len b.file

  -- What is read of a page: the copy in memory, or the block that the file has.
  abbrev pub page_now : Backend s → ℕ → Option (List ℕ)
  page_now b k =
      shown (page_at k b.pending) (aead.open_in_place (block_aad k) (block aead s b.file k))

  abbrev pub after_drain : Tuning → Backend s → Backend s
  after_drain t b = (drain aead s t b).1

  pub drain-pending : (t : Tuning) (b : Backend s) → (after_drain t b).pending ≡ []
  unfolding drain
  drain-pending t b = forget_all b.pending b.pending (all_there b.pending)

  sealed_batch : Tuning → Backend s → List (ℕ × List ℕ)
  sealed_batch t b = seal_all aead (workers_for t (length b.pending)) b.drawn b.pending

  sealed_batch-AreWithin :
      (t : Tuning) (b : Backend s)
      → IsSound b
      → AreWithin aead s (offset aead (blocks b)) (sealed_batch t b)
  unfolding sealed_batch
  sealed_batch-AreWithin t b sound =
      All-map (λ e. e.0 < blocks b) (λ e. offset aead e.0 ≤ offset aead (blocks b))
        (sealed_batch t b) (λ e less. offset_mono aead s e.0 (blocks b) (omega (arith, less)))
        (SealedAs-All aead (λ n. n < blocks b) b.pending (sealed_batch t b) sound.inside
          (seal_all-SealedAs aead (workers_for t (length b.pending)) b.drawn b.pending))

  -- In a sound layer a drain changes nothing of what is read of a page that the file has.
  pub drain-page_now :
      (t : Tuning) (b : Backend s) (k : ℕ)
      → IsSound b
      → k < blocks b
      → page_now (after_drain t b) k ≡ page_now b k
  unfolding drain sealed_batch page_at
  drain-page_now t b k sound less =
      ap
        (λ l.
          shown (page_at k l)
            (aead.open_in_place (block_aad k) (block aead s (after_drain t b).file k)))
        (drain-pending t b)
      ∙ ap (aead.open_in_place (block_aad k)) (
          block-write_all aead s b.file k (sealed_batch t b)
            (SealedAs-AscendFrom aead 0 b.pending (sealed_batch t b) sound.ascending is_sealed)
            (SealedAs-AreBlocks aead b.pending (sealed_batch t b) sound.whole is_sealed)
            (All-map (λ e. offset aead e.0 ≤ offset aead (blocks b))
              (λ e. offset aead e.0 ≤ s.len b.file) (sealed_batch t b)
              (λ e h. ≤-trans h sound.filled) (sealed_batch-AreWithin t b sound))
            (≤-trans (offset_before aead s k (blocks b) less) sound.filled))
      ∙ SealedAs-opened aead k b.pending (sealed_batch t b) (block aead s b.file k) is_sealed
    where
      is_sealed : SealedAs aead b.pending (sealed_batch t b)
      is_sealed = seal_all-SealedAs aead (workers_for t (length b.pending)) b.drawn b.pending

  -- A drain of a sound layer leaves a sound layer.
  pub drain-IsSound : (t : Tuning) (b : Backend s) → IsSound b → IsSound (after_drain t b)
  unfolding drain sealed_batch AscendFrom
  drain-IsSound t b sound = record {
    ascending = subst (AscendFrom 0) (sym (drain-pending t b)) tt;
    whole = subst (All (λ e. length e.1 ≡ page)) (sym (drain-pending t b)) tt;
    inside = subst (All (λ e. e.0 < blocks b)) (sym (drain-pending t b)) tt;
    filled =
        write_all-grows aead s (offset aead (blocks b)) b.file (sealed_batch t b) sound.filled
          (sealed_batch-AreWithin t b sound);
  }
