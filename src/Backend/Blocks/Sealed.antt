-- ===== src/Backend/Blocks/Sealed.antt =====
-- Sealing in parallel (src/encrypted_store/backend.rs, `seal_all`): the pages and what is sealed of
-- them.
use clove1db.Prelude.{
  ℕ, zero, suc, ◌+◌, ◌-◌, ◌/◌, ◌≤◌, ◌<◌, ◌≡◌, refl, sym, inl, inr, List, [], ◌∷◌, ◌++◌, Option,
  none, some, length, length-drop, take, drop, take-append-drop, All, ◌==◌, ==_iff, leb, leb→lt,
  arith, Bool-cases,
}
use mathlib.Core.Path.{subst}
use native.Mathlib.Nat.{le-div_iff_mul-le}
use clove1db.Geometry.{page, stride}
use clove1db.Backend.{Aead, block_aad}
use clove1db.Backend.Blocks.{page_at, is_there, div_ceil, seal_chunk, seal_parts, seal_all}
use clove1db.Backend.Blocks.Layout.{or_else, AreBlocks}
use clove1db.Backend.Blocks.Written.{AscendFrom}

-- What is known of a page: what is kept in memory goes before what the file has.
abbrev pub shown : Option (List ℕ) → Option (List ℕ) → Option (List ℕ)
shown none o = o
shown (some p) o = some p

module _ (aead : Aead) where
  -- The sealed pages, in the order of the pages: each opens under the number of its page.
  unfoldable pub SealedAs : List (ℕ × List ℕ) → List (ℕ × List ℕ) → Type 0
  SealedAs [] [] = Unit {0}
  SealedAs [] (c ∷ sealed) = ⊥
  SealedAs (p ∷ pages) [] = ⊥
  SealedAs ((i, p) ∷ pages) ((j, c) ∷ sealed) =
      (j ≡ i)
      × (aead.open_in_place (block_aad i) c ≡ some p)
      × (length c ≡ length p + aead.overhead)
      × SealedAs pages sealed

  pub seal_chunk-SealedAs :
      (drawn : ℕ) (pages : List (ℕ × List ℕ)) → SealedAs pages (seal_chunk aead drawn pages)
  unfolding SealedAs seal_chunk
  seal_chunk-SealedAs drawn [] = tt
  seal_chunk-SealedAs drawn ((i, p) ∷ pages) = (
    refl,
    aead.open_seal drawn (block_aad i) p,
    aead.length_seal drawn (block_aad i) p,
    seal_chunk-SealedAs (suc drawn) pages,
  )

  SealedAs-append :
      (xs ys cs ds : List (ℕ × List ℕ))
      → SealedAs xs cs
      → SealedAs ys ds
      → SealedAs (xs ++ ys) (cs ++ ds)
  unfolding SealedAs
  SealedAs-append [] ys [] ds h k = k
  SealedAs-append ((i, p) ∷ xs) ys ((j, c) ∷ cs) ds h k =
      (h.0, h.1, h.2, SealedAs-append xs ys cs ds h.3 k)
  SealedAs-append [] ys (c ∷ cs) ds h k = absurd h
  SealedAs-append (x ∷ xs) ys [] ds h k = absurd h

  seal_parts-SealedAs :
      (fuel per drawn : ℕ) (pages : List (ℕ × List ℕ))
      → length pages ≤ fuel
      → 1 ≤ per
      → SealedAs pages (seal_parts aead fuel per drawn pages)
  unfolding SealedAs seal_parts
  seal_parts-SealedAs zero per drawn [] enough pos = tt
  seal_parts-SealedAs zero per drawn (p ∷ pages) enough pos = absurd (omega (arith, enough))
  seal_parts-SealedAs (suc fuel) per drawn [] enough pos = tt
  seal_parts-SealedAs (suc fuel) per drawn (p ∷ pages) enough pos =
      subst
        (λ l. SealedAs l (
          seal_chunk aead drawn (take per (p ∷ pages))
          ++ seal_parts aead fuel per (drawn + per) (drop per (p ∷ pages))))
        (take-append-drop per (p ∷ pages))
        (SealedAs-append (take per (p ∷ pages)) (drop per (p ∷ pages)) _ _
          (seal_chunk-SealedAs drawn (take per (p ∷ pages)))
          (seal_parts-SealedAs fuel per (drawn + per) (drop per (p ∷ pages))
            (fewer (length-drop per (p ∷ pages))) pos))
    where
      fewer : {n : ℕ} → n ≡ suc (length pages) - per → n ≤ fuel
      fewer e = omega (arith, enough, pos)

  -- Threads that share a batch of pages, however many, seal each page of it once, in its place, under
  -- the page's own number.
  pub seal_all-SealedAs :
      (workers drawn : ℕ) (batch : List (ℕ × List ℕ))
      → SealedAs batch (seal_all aead workers drawn batch)
  unfolding seal_all seal_parts div_ceil SealedAs
  seal_all-SealedAs workers drawn batch = elim (Bool-cases (leb workers 1)) [
    | inl one ↦ rw one (seal_chunk-SealedAs drawn batch)
    | inr many ↦ rw many (parts batch (leb→lt workers 1 many))
  ]
    where
      share : (n : ℕ) → 1 < workers → 1 ≤ (suc n + (workers - 1)) / workers
      share n w = (le-div_iff_mul-le (omega (arith, w))).1 (omega (arith, w))

      parts :
          (pages : List (ℕ × List ℕ))
          → 1 < workers
          → SealedAs pages
              (seal_parts aead (length pages) (div_ceil (length pages) workers) drawn pages)
      parts [] w = tt
      parts (p ∷ pages) w =
          seal_parts-SealedAs (suc (length pages)) (div_ceil (suc (length pages)) workers) drawn
            (p ∷ pages) (omega arith) (share (length pages) w)

  -- What is read back from the sealed pages, before what was in the file.
  pub SealedAs-opened :
      (k : ℕ) (pages sealed : List (ℕ × List ℕ)) (d : List ℕ)
      → SealedAs pages sealed
      → aead.open_in_place (block_aad k) (or_else (page_at k sealed) d)
        ≡ shown (page_at k pages) (aead.open_in_place (block_aad k) d)
  unfolding SealedAs page_at
  SealedAs-opened k [] [] d h = refl
  SealedAs-opened k [] (c ∷ sealed) d h = absurd h
  SealedAs-opened k (p ∷ pages) [] d h = absurd h
  SealedAs-opened k ((i, p) ∷ pages) ((j, c) ∷ sealed) d h = elim (Bool-cases (i == k)) [
    | inl s ↦
        rw (h.0, s)
          (subst (λ n. aead.open_in_place (block_aad n) c ≡ some p) ((==_iff i k).0 s) h.1)
    | inr n ↦ rw (h.0, n) (SealedAs-opened k pages sealed d h.3)
  ]

  pub SealedAs-AreBlocks :
      (pages sealed : List (ℕ × List ℕ))
      → All (λ e. length e.1 ≡ page) pages
      → SealedAs pages sealed
      → AreBlocks aead sealed
  unfolding SealedAs stride
  SealedAs-AreBlocks [] [] a h = tt
  SealedAs-AreBlocks [] (c ∷ sealed) a h = absurd h
  SealedAs-AreBlocks (p ∷ pages) [] a h = absurd h
  SealedAs-AreBlocks ((i, p) ∷ pages) ((j, c) ∷ sealed) a h =
      (omega (arith, h.2, a.0), SealedAs-AreBlocks pages sealed a.1 h.3)

  pub SealedAs-AscendFrom :
      (n : ℕ) (pages sealed : List (ℕ × List ℕ))
      → AscendFrom n pages
      → SealedAs pages sealed
      → AscendFrom n sealed
  unfolding SealedAs AscendFrom
  SealedAs-AscendFrom n [] [] a h = tt
  SealedAs-AscendFrom n [] (c ∷ sealed) a h = absurd h
  SealedAs-AscendFrom n (p ∷ pages) [] a h = absurd h
  SealedAs-AscendFrom n ((i, p) ∷ pages) ((j, c) ∷ sealed) a h =
      rw h.0 (a.0, SealedAs-AscendFrom (suc i) pages sealed a.1 h.3)

  pub SealedAs-All :
      (P : ℕ → Type 0) (pages sealed : List (ℕ × List ℕ))
      → All (λ e. P e.0) pages
      → SealedAs pages sealed
      → All (λ e. P e.0) sealed
  unfolding SealedAs
  SealedAs-All P [] [] a h = tt
  SealedAs-All P [] (c ∷ sealed) a h = absurd h
  SealedAs-All P (p ∷ pages) [] a h = absurd h
  SealedAs-All P ((i, p) ∷ pages) ((j, c) ∷ sealed) a h =
      (subst P (sym h.0) a.0, SealedAs-All P pages sealed a.1 h.3)

  -- A page is among the sealed ones when it is among the pages.
  pub SealedAs-there :
      (k : ℕ) (pages sealed : List (ℕ × List ℕ))
      → SealedAs pages sealed
      → is_there (page_at k sealed) ≡ is_there (page_at k pages)
  unfolding SealedAs page_at
  SealedAs-there k [] [] h = refl
  SealedAs-there k [] (c ∷ sealed) h = absurd h
  SealedAs-there k (p ∷ pages) [] h = absurd h
  SealedAs-there k ((i, p) ∷ pages) ((j, c) ∷ sealed) h = elim (Bool-cases (i == k)) [
    | inl s ↦ rw (h.0, s) refl
    | inr n ↦ rw (h.0, n) (SealedAs-there k pages sealed h.3)
  ]
