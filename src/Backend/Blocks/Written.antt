-- ===== src/Backend/Blocks/Written.antt =====
-- Sealed pages are written in runs (src/encrypted_store/backend.rs, `drain`): the blocks of
-- the file before and after.
use clove1db.Prelude.{
  ℕ, suc, ◌+◌, ◌≤◌, ◌<◌, ◌≡◌, refl, sym, ◌∙◌, ap, inl, inr, ◌&&◌, List, [], ◌∷◌, ◌++◌, none, length,
  length-append, All, All-append, max, ◌==◌, ==_iff, ltb, arith, Bool-cases, and-true, Option-cases,
}
use mathlib.Core.Path.{subst}
use clove1db.Backend.{Storage, Aead}
use clove1db.Backend.Blocks.{page_at, joined, write_runs, write_all, write_chunk}
use clove1db.Backend.Blocks.Layout.{
  or_else, IsRun, run_found, IsRun-snoc, AreBlocks, block_len, offset, block, write-run,
}

-- Numbers from `start` on, each larger than the one before.
unfoldable pub AscendFrom : ℕ → List (ℕ × List ℕ) → Type 0
AscendFrom start [] = Unit {0}
AscendFrom start ((i, b) ∷ rest) = (start ≤ i) × AscendFrom (suc i) rest

-- The first of two lists that has the page.
page_at-append :
    (k : ℕ) (xs ys : List (ℕ × List ℕ)) (d : List ℕ)
    → or_else (page_at k (xs ++ ys)) d ≡ or_else (page_at k xs) (or_else (page_at k ys) d)
unfolding page_at
page_at-append k [] ys d = refl
page_at-append k ((i, b) ∷ xs) ys d = elim (Bool-cases (i == k)) [
  | inl s ↦ rw s refl
  | inr n ↦ rw n (page_at-append k xs ys d)
]

-- The same with a list of one page in front.
page_at-cons :
    (k i : ℕ) (b : List ℕ) (ys : List (ℕ × List ℕ)) (d : List ℕ)
    → or_else (page_at k ((i, b) ∷ ys)) d
      ≡ or_else (page_at k ((i, b) ∷ [])) (or_else (page_at k ys) d)
page_at-cons k i b ys d = page_at-append k ((i, b) ∷ []) ys d

pub page_at-below :
    (n k : ℕ) (list : List (ℕ × List ℕ)) → AscendFrom n list → k < n → page_at k list ≡ none
unfolding AscendFrom page_at
page_at-below n k [] h less = refl
page_at-below n k ((i, b) ∷ list) h less = elim (Bool-cases (i == k)) [
  | inl s ↦ absurd (above ((==_iff i k).0 s) h.0)
  | inr d ↦ rw d (page_at-below (suc i) k list h.1 (far h.0))
]
  where
    above : i ≡ k → n ≤ i → ⊥
    above e l = omega (arith, less)

    far : n ≤ i → k < suc i
    far l = omega (arith, less)

-- A run and the pages after it have no page in common.
swap_parts :
    (start k : ℕ) (run list : List (ℕ × List ℕ)) (d : List ℕ)
    → IsRun start run
    → AscendFrom (start + length run) list
    → or_else (page_at k list) (or_else (page_at k run) d)
      ≡ or_else (page_at k run) (or_else (page_at k list) d)
swap_parts start k run list d r a = elim (Option-cases (page_at k run)) [
  | inl e ↦ rw e refl
  | inr (b, e) ↦
      let (front, back, split, n) = run_found start k run r e in
      let short = ap length split ∙ length-append front ((k, b) ∷ back) in
      rw
        (
          e,
          page_at-below (start + length run) k list a (before (length front) (length back) n short),
        )
        refl
]
  where
    before : (n m : ℕ) → k ≡ start + n → length run ≡ n + suc m → k < start + length run
    before n m e l = omega arith

module _ (aead : Aead) (s : Storage) where
  -- Every block of the list begins within the first `size` bytes.
  abbrev pub AreWithin : ℕ → List (ℕ × List ℕ) → Type 0
  AreWithin size = All (λ e. offset aead e.0 ≤ size)

  -- The file never gets shorter.
  pub write-grows :
      (size : ℕ) (f : s.File) (start : ℕ) (run : List (ℕ × List ℕ))
      → size ≤ s.len f
      → offset aead start ≤ size
      → size ≤ s.len (s.write f (offset aead start) (joined run))
  write-grows size f start run big wr =
      larger _ _ (s.len_write f (offset aead start) (joined run) (omega (arith, wr, big)))
    where
      larger : (l m : ℕ) → m ≡ max (s.len f) l → size ≤ m
      larger l m e = rw e (ground (arith, big))

  write_runs-grows :
      (size : ℕ) (f : s.File) (start : ℕ) (run list : List (ℕ × List ℕ))
      → size ≤ s.len f
      → AreWithin size list
      → offset aead start ≤ size
      → size ≤ s.len (write_runs aead s f start run list)
  unfolding write_runs
  write_runs-grows size f start run [] big wl wr = write-grows size f start run big wr
  write_runs-grows size f start run ((i, b) ∷ list) big wl wr =
      elim (Bool-cases ((i == start + length run) && ltb (length run) write_chunk)) [
        | inl t ↦ rw t (write_runs-grows size f start (run ++ (i, b) ∷ []) list big wl.1 wr)
        | inr n ↦ rw n (
            write_runs-grows size (s.write f (offset aead start) (joined run)) i ((i, b) ∷ []) list
              (write-grows size f start run big wr) wl.1 wl.0)
      ]

  pub write_all-grows :
      (size : ℕ) (f : s.File) (list : List (ℕ × List ℕ))
      → size ≤ s.len f
      → AreWithin size list
      → size ≤ s.len (write_all aead s f list)
  write_all-grows size f [] big wl = big
  write_all-grows size f ((i, b) ∷ list) big wl =
      write_runs-grows size f i ((i, b) ∷ []) list big wl.1 wl.0

  pub block-write_runs :
      (size : ℕ) (f : s.File) (start k : ℕ) (run list : List (ℕ × List ℕ))
      → size ≤ s.len f
      → IsRun start run
      → AscendFrom (start + length run) list
      → AreBlocks aead run
      → AreBlocks aead list
      → AreWithin size list
      → offset aead start ≤ size
      → offset aead k + block_len aead ≤ size
      → block aead s (write_runs aead s f start run list) k
        ≡ or_else (page_at k run) (or_else (page_at k list) (block aead s f k))
  unfolding write_runs page_at AscendFrom IsRun
  block-write_runs size f start k run [] big r asc br bl wl wr wk =
      write-run aead s f start k run r br (λ e. omega (arith, big, wk))
  block-write_runs size f start k run ((i, b) ∷ list) big r asc br bl wl wr wk =
      elim (Bool-cases ((i == start + length run) && ltb (length run) write_chunk)) [
        | inl t ↦ rw t (
            let e =
              (==_iff i (start + length run)).0
                (and-true (i == start + length run) (ltb (length run) write_chunk) t).0 in
            block-write_runs size f start k (run ++ (i, b) ∷ []) list big
              (subst (λ n. IsRun start (run ++ (n, b) ∷ [])) (sym e) (IsRun-snoc start run b r))
              (subst (λ n. AscendFrom n list) (longer e (length-append run ((i, b) ∷ []))) asc.1)
              (All-append (λ x. length x.1 ≡ block_len aead) run ((i, b) ∷ []) br (bl.0, tt)) bl.1
              wl.1 wr wk
            ∙ page_at-append k run ((i, b) ∷ []) (or_else (page_at k list) (block aead s f k))
            ∙ ap (or_else (page_at k run)) (sym (page_at-cons k i b list (block aead s f k))))
        | inr n ↦ rw n (
            let written = s.write f (offset aead start) (joined run) in
            block-write_runs size written i k ((i, b) ∷ []) list
              (write-grows size f start run big wr) (refl, tt)
              (subst (λ m. AscendFrom m list) (one i) asc.1) (bl.0, tt) bl.1 wl.1 wl.0 wk
            ∙ sym (page_at-cons k i b list (block aead s written k))
            ∙ ap (or_else (page_at k ((i, b) ∷ list)))
                (write-run aead s f start k run r br (λ e. omega (arith, big, wk)))
            ∙ swap_parts start k run ((i, b) ∷ list) (block aead s f k) r asc)
      ]
    where
      longer :
          i ≡ start + length run
          → length (run ++ (i, b) ∷ []) ≡ length run + 1
          → suc i ≡ start + length (run ++ (i, b) ∷ [])
      longer e n = omega (arith, e, n)

      one : (j : ℕ) → suc j ≡ j + 1
      one j = omega arith

  -- After all pages are written.
  pub block-write_all :
      (f : s.File) (k : ℕ) (list : List (ℕ × List ℕ))
      → AscendFrom 0 list
      → AreBlocks aead list
      → AreWithin (s.len f) list
      → offset aead k + block_len aead ≤ s.len f
      → block aead s (write_all aead s f list) k ≡ or_else (page_at k list) (block aead s f k)
  unfolding page_at AscendFrom IsRun
  block-write_all f k [] asc bl wl wk = refl
  block-write_all f k ((i, b) ∷ list) asc bl wl wk =
      block-write_runs (s.len f) f i k ((i, b) ∷ []) list (omega arith) (refl, tt)
        (subst (λ m. AscendFrom m list) one asc.1) (bl.0, tt) bl.1 wl.1 wl.0 wk
      ∙ sym (page_at-cons k i b list (block aead s f k))
    where
      one : suc i ≡ i + 1
      one = omega arith
