-- ===== src/Backend/Blocks/Staged.antt =====
-- Writing whole pages (src/encrypted_store/backend.rs, `stage_pages` and `write_blocks`).
use clove1db.Prelude.{
  ℕ, zero, suc, ◌+◌, ◌/◌, ◌≤◌, ◌<◌, ◌≡◌, refl, sym, ◌∙◌, ap, inl, inr, true, false, List, [], ◌∷◌,
  Option, none, some, length, drop, leb, arith, Bool-cases,
}
use mathlib.Core.Path.{subst}
use clove1db.Geometry.{page}
use clove1db.Backend.{Storage, Aead, done, failed, permission_denied, block_aad, Tuning, Backend}
use clove1db.Backend.Blocks.{
  page_at, pages_from, insert_pages, pending_cap_pages, refuse_if_read_only, drain, seal_chunk,
  write_blocks, joined, stage_pages,
}
use clove1db.Backend.Blocks.Layout.{IsRun, offset, offset_before, offset_mono, block, write-run}
use clove1db.Backend.Blocks.Written.{write-grows}
use clove1db.Backend.Blocks.Sealed.{
  shown, SealedAs, seal_chunk-SealedAs, SealedAs-opened, SealedAs-AreBlocks,
}
use clove1db.Backend.Blocks.Drained.{
  ≤-trans, IsSound, blocks, page_now, drain-page_now, drain-IsSound,
}
use clove1db.Backend.Blocks.Pending.{
  page_at-insert_pages, AscendFrom-insert_pages, All-insert_pages, pages_from-AscendFrom,
  pages_from-All, length-pages_from,
}

shown_assoc : (a b c : Option (List ℕ)) → shown (shown a b) c ≡ shown a (shown b c)
shown_assoc none b c = refl
shown_assoc (some p) b c = refl

pub pages_from-IsRun :
    (first count : ℕ) (plain : List ℕ) → IsRun first (pages_from first count plain)
unfolding IsRun pages_from
pages_from-IsRun first zero plain = tt
pages_from-IsRun first (suc count) plain =
    (refl, pages_from-IsRun (suc first) count (drop page plain))

module _ (aead : Aead) (s : Storage) where
  pub SealedAs-IsRun :
      (start : ℕ) (pages sealed : List (ℕ × List ℕ))
      → IsRun start pages
      → SealedAs aead pages sealed
      → IsRun start sealed
  unfolding IsRun SealedAs
  SealedAs-IsRun start [] [] r h = tt
  SealedAs-IsRun start [] (c ∷ sealed) r h = absurd h
  SealedAs-IsRun start (p ∷ pages) [] r h = absurd h
  SealedAs-IsRun start ((i, p) ∷ pages) ((j, c) ∷ sealed) r h =
      (h.0 ∙ r.0, SealedAs-IsRun (suc start) pages sealed r.1 h.3)

  -- The pages that a call with the bytes `plain` writes.
  abbrev pub pages_of : ℕ → List ℕ → List (ℕ × List ℕ)
  pages_of first plain = pages_from first (length plain / page) plain

  abbrev pub staged : ℕ → List ℕ → Backend s → Backend s
  staged first plain b = record b { pending = insert_pages (pages_of first plain) b.pending }

  staged-IsSound :
      (first : ℕ) (plain : List ℕ) (b : Backend s)
      → IsSound aead s b
      → first + length plain / page ≤ blocks aead s b
      → IsSound aead s (staged first plain b)
  staged-IsSound first plain b sound fits = record {
    ascending =
        AscendFrom-insert_pages first (pages_of first plain) b.pending
          (pages_from-AscendFrom first (length plain / page) plain) sound.ascending;
    whole =
        All-insert_pages (λ e. length e.1 ≡ page) (pages_of first plain) b.pending
          (length-pages_from first (length plain / page) plain (omega arith)) sound.whole;
    inside =
        All-insert_pages (λ e. e.0 < blocks aead s b) (pages_of first plain) b.pending
          (pages_from-All first (length plain / page) (blocks aead s b) plain fits) sound.inside;
    filled = sound.filled;
  }

  staged-page_now :
      (first k : ℕ) (plain : List ℕ) (b : Backend s)
      → page_now aead s (staged first plain b) k
        ≡ shown (page_at k (pages_of first plain)) (page_now aead s b k)
  staged-page_now first k plain b =
      ap (λ o. shown o (aead.open_in_place (block_aad k) (block aead s b.file k)))
        (page_at-insert_pages first k (pages_of first plain) b.pending
          (pages_from-AscendFrom first (length plain / page) plain))
      ∙ shown_assoc (page_at k (pages_of first plain)) (page_at k b.pending)
          (aead.open_in_place (block_aad k) (block aead s b.file k))

  stage_refused :
      (t : Tuning) (first : ℕ) (plain : List ℕ) (b : Backend s)
      → b.read_only ≡ true
      → stage_pages aead s t first plain b ≡ (failed permission_denied, b)
  unfolding stage_pages refuse_if_read_only
  stage_refused t first plain b closed = simp (closed)

  stage_full :
      (t : Tuning) (first : ℕ) (plain : List ℕ) (b : Backend s)
      → b.read_only ≡ false
      → leb pending_cap_pages (length (staged first plain b).pending) ≡ true
      → stage_pages aead s t first plain b ≡ drain aead s t (staged first plain b)
  unfolding stage_pages refuse_if_read_only
  stage_full t first plain b allowed full = simp (allowed, full)

  stage_room :
      (t : Tuning) (first : ℕ) (plain : List ℕ) (b : Backend s)
      → b.read_only ≡ false
      → leb pending_cap_pages (length (staged first plain b).pending) ≡ false
      → stage_pages aead s t first plain b ≡ (done tt, staged first plain b)
  unfolding stage_pages refuse_if_read_only
  stage_room t first plain b allowed room = simp (allowed, room)

  write_refused :
      (first count : ℕ) (plain : List ℕ) (b : Backend s)
      → b.read_only ≡ true
      → write_blocks aead s first count plain b ≡ (failed permission_denied, b)
  unfolding write_blocks refuse_if_read_only
  write_refused first count plain b closed = simp (closed)

  pub write_allowed :
      (first count : ℕ) (plain : List ℕ) (b : Backend s)
      → b.read_only ≡ false
      → write_blocks aead s first count plain b ≡ (
        done tt,
        record b {
          file =
              s.write b.file
                (offset aead first)
                (joined (seal_chunk aead b.drawn (pages_from first count plain)));
          drawn = b.drawn + count;
        },
      )
  unfolding write_blocks refuse_if_read_only
  write_allowed first count plain b allowed = simp (allowed)

  abbrev pub after_stage : Tuning → ℕ → List ℕ → Backend s → Backend s
  after_stage t first plain b = (stage_pages aead s t first plain b).1

  -- Whole pages that are put into memory, and drained when too many wait there, are the ones that are
  -- read from then on; every other page stays as it was.
  pub stage_pages-page_now :
      (t : Tuning) (first k : ℕ) (plain : List ℕ) (b : Backend s)
      → IsSound aead s b
      → b.read_only ≡ false
      → first + length plain / page ≤ blocks aead s b
      → k < blocks aead s b
      → page_now aead s (after_stage t first plain b) k
        ≡ shown (page_at k (pages_of first plain)) (page_now aead s b k)
  stage_pages-page_now t first k plain b sound allowed fits less =
      elim (Bool-cases (leb pending_cap_pages (length (staged first plain b).pending))) [
        | inl full ↦
            ap (λ r. page_now aead s r.1 k) (stage_full t first plain b allowed full)
            ∙ drain-page_now aead s t (staged first plain b) k
                (staged-IsSound first plain b sound fits) less
            ∙ staged-page_now first k plain b
        | inr room ↦
            ap (λ r. page_now aead s r.1 k) (stage_room t first plain b allowed room)
            ∙ staged-page_now first k plain b
      ]

  pub stage_pages-IsSound :
      (t : Tuning) (first : ℕ) (plain : List ℕ) (b : Backend s)
      → IsSound aead s b
      → first + length plain / page ≤ blocks aead s b
      → IsSound aead s (after_stage t first plain b)
  stage_pages-IsSound t first plain b sound fits = elim (Bool-cases b.read_only) [
    | inl closed ↦
        subst (λ r. IsSound aead s r.1) (sym (stage_refused t first plain b closed)) sound
    | inr allowed ↦
        elim (Bool-cases (leb pending_cap_pages (length (staged first plain b).pending))) [
          | inl full ↦
              subst (λ r. IsSound aead s r.1) (sym (stage_full t first plain b allowed full))
                (drain-IsSound aead s t (staged first plain b)
                  (staged-IsSound first plain b sound fits))
          | inr room ↦
              subst (λ r. IsSound aead s r.1) (sym (stage_room t first plain b allowed room))
                (staged-IsSound first plain b sound fits)
        ]
  ]

  abbrev pub after_blocks : ℕ → List ℕ → Backend s → Backend s
  after_blocks first plain b = (write_blocks aead s first (length plain / page) plain b).1

  chunk_of : ℕ → List ℕ → Backend s → List (ℕ × List ℕ)
  chunk_of first plain b = seal_chunk aead b.drawn (pages_of first plain)

  -- The same when pages are sealed and written at once, and none wait in memory.
  pub write_blocks-page_now :
      (first k : ℕ) (plain : List ℕ) (b : Backend s)
      → IsSound aead s b
      → b.read_only ≡ false
      → b.pending ≡ []
      → k < blocks aead s b
      → page_now aead s (after_blocks first plain b) k
        ≡ shown (page_at k (pages_of first plain)) (page_now aead s b k)
  unfolding page_at chunk_of
  write_blocks-page_now first k plain b sound allowed none_wait less =
      ap (λ r. page_now aead s r.1 k) (write_allowed first (length plain / page) plain b allowed)
      ∙ ap (λ l. shown (page_at k l) (aead.open_in_place (block_aad k) (block aead s written k)))
          none_wait
      ∙ ap (aead.open_in_place (block_aad k)) (
          write-run aead s b.file first k (chunk_of first plain b)
            (SealedAs-IsRun first (pages_of first plain) (chunk_of first plain b)
              (pages_from-IsRun first (length plain / page) plain) is_sealed)
            (SealedAs-AreBlocks aead (pages_of first plain) (chunk_of first plain b)
              (length-pages_from first (length plain / page) plain (omega arith)) is_sealed)
            (λ e. ≤-trans (offset_before aead s k (blocks aead s b) less) sound.filled))
      ∙ SealedAs-opened aead k (pages_of first plain) (chunk_of first plain b)
          (block aead s b.file k) is_sealed
      ∙ ap
          (λ l.
            shown (page_at k (pages_of first plain))
              (shown (page_at k l) (aead.open_in_place (block_aad k) (block aead s b.file k))))
          (sym none_wait)
    where
      written : s.File
      written = s.write b.file (offset aead first) (joined (chunk_of first plain b))

      is_sealed : SealedAs aead (pages_of first plain) (chunk_of first plain b)
      is_sealed = seal_chunk-SealedAs aead b.drawn (pages_of first plain)

  pub write_blocks-IsSound :
      (first : ℕ) (plain : List ℕ) (b : Backend s)
      → IsSound aead s b
      → first ≤ blocks aead s b
      → IsSound aead s (after_blocks first plain b)
  write_blocks-IsSound first plain b sound fits = elim (Bool-cases b.read_only) [
    | inl closed ↦
        subst (λ r. IsSound aead s r.1)
          (sym (write_refused first (length plain / page) plain b closed)) sound
    | inr allowed ↦
        subst (λ r. IsSound aead s r.1)
          (sym (write_allowed first (length plain / page) plain b allowed))
          (record {
            ascending = sound.ascending;
            whole = sound.whole;
            inside = sound.inside;
            filled =
                write-grows aead s (offset aead (blocks aead s b)) b.file first
                  (seal_chunk aead b.drawn (pages_of first plain)) sound.filled
                  (offset_mono aead s first (blocks aead s b) fits);
          })
  ]

  -- The length of the layer stays.
  abbrev pub IsSameShape : Backend s → Backend s → Type 0
  IsSameShape b c = (c.header_area ≡ b.header_area) × (c.data_len ≡ b.data_len)

  pub stage_pages-IsSameShape :
      (t : Tuning) (first : ℕ) (plain : List ℕ) (b : Backend s)
      → IsSameShape b (after_stage t first plain b)
  unfolding drain
  stage_pages-IsSameShape t first plain b = elim (Bool-cases b.read_only) [
    | inl closed ↦
        subst (λ r. IsSameShape b r.1) (sym (stage_refused t first plain b closed)) (refl, refl)
    | inr allowed ↦
        elim (Bool-cases (leb pending_cap_pages (length (staged first plain b).pending))) [
          | inl full ↦
              subst (λ r. IsSameShape b r.1) (sym (stage_full t first plain b allowed full))
                (refl, refl)
          | inr room ↦
              subst (λ r. IsSameShape b r.1) (sym (stage_room t first plain b allowed room))
                (refl, refl)
        ]
  ]

  -- And no page waits when none waited.
  pub write_blocks-kept :
      (first : ℕ) (plain : List ℕ) (b : Backend s)
      → IsSameShape b (after_blocks first plain b)
        × ((after_blocks first plain b).pending ≡ b.pending)
  write_blocks-kept first plain b = elim (Bool-cases b.read_only) [
    | inl closed ↦
        subst (λ r. IsSameShape b r.1 × (r.1.pending ≡ b.pending))
          (sym (write_refused first (length plain / page) plain b closed)) ((refl, refl), refl)
    | inr allowed ↦
        subst (λ r. IsSameShape b r.1 × (r.1.pending ≡ b.pending))
          (sym (write_allowed first (length plain / page) plain b allowed)) ((refl, refl), refl)
  ]
