-- ===== src/Backend/Blocks/Layout.antt =====
-- The places of blocks in a file, and the write of a run of them (src/encrypted_store/backend.rs).
use clove1db.Prelude.{
  ℕ, suc, ◌+◌, ◌*◌, ◌≤◌, ◌<◌, ◌≡◌, refl, sym, ◌∙◌, ap, ◌⊎◌, inl, inr, List, [], ◌∷◌, ◌++◌, Option,
  none, some, length, length-append, All, All-split, ◌==◌, ==_iff, arith, Bool-cases, Option-cases,
}
use mathlib.Core.Path.{subst}
use mathlib.Core.List.{append_assoc}
use clove1db.Prelude.Options.{some-eq, none-ne}
use clove1db.Geometry.{stride, block_offset}
use clove1db.Backend.{Storage, Aead, geometry}
use clove1db.Backend.Blocks.{page_at, joined}

abbrev pub or_else : Option (List ℕ) → List ℕ → List ℕ
or_else none d = d
or_else (some p) d = p

-- Numbered from `start` without a gap.
unfoldable pub IsRun : ℕ → List (ℕ × List ℕ) → Type 0
IsRun start [] = Unit {0}
IsRun start ((i, b) ∷ run) = (i ≡ start) × IsRun (suc start) run

pub IsRun-snoc :
    (start : ℕ) (run : List (ℕ × List ℕ)) (b : List ℕ)
    → IsRun start run
    → IsRun start (run ++ (start + length run, b) ∷ [])
unfolding IsRun
IsRun-snoc start [] b h = (omega arith, tt)
IsRun-snoc start ((i, c) ∷ run) b h = (
  h.0,
  subst (λ n. IsRun (suc start) (run ++ (n, b) ∷ [])) (later start (length run))
      (IsRun-snoc (suc start) run b h.1),
)
  where
    later : (n m : ℕ) → suc n + m ≡ n + suc m
    later n m = omega arith

pub run_found :
    (start k : ℕ) (run : List (ℕ × List ℕ)) {b : List ℕ}
    → IsRun start run
    → page_at k run ≡ some b
    → (front : List (ℕ × List ℕ)) × (back : List (ℕ × List ℕ)) × (run ≡ front ++ (k, b) ∷ back)
      × (k ≡ start + length front)
unfolding IsRun page_at
run_found start k [] h e = absurd (none-ne e)
run_found start k ((i, c) ∷ run) {b} h e = elim (Bool-cases (i == k)) [
  | inl s ↦
      let one : i ≡ k = (==_iff i k).0 s in
      let block : c ≡ b = some-eq (rw s at e) in
      ([], run, rw (one, block) refl, omega (arith, one, h.0))
  | inr d ↦
      let (front, back, r, n) = run_found (suc start) k run h.1 (rw d at e) in
      ((i, c) ∷ front, back, ap (λ l. (i, c) ∷ l) r, omega (arith, n))
]

pub run_missing :
    (start k : ℕ) (run : List (ℕ × List ℕ))
    → IsRun start run
    → page_at k run ≡ none
    → (k < start) ⊎ (start + length run ≤ k)
unfolding IsRun page_at
run_missing start k [] h e = omega arith
run_missing start k ((i, c) ∷ run) h e = elim (Bool-cases (i == k)) [
  | inl s ↦ absurd (none-ne (sym (rw s at e)))
  | inr d ↦ past (run_missing (suc start) k run h.1 (rw d at e)) (differs (ground (arith, d)))
]
  where
    differs : (i ≡ k → ⊥) → start ≡ k → ⊥
    differs f e = f (h.0 ∙ e)

    past :
        (k < suc start) ⊎ (suc start + length run ≤ k)
        → (start ≡ k → ⊥)
        → (k < start) ⊎ (start + suc (length run) ≤ k)
    past o f = ground (arith, f)

module _ (aead : Aead) where
  abbrev pub block_len : ℕ
  block_len = stride (geometry aead)

  abbrev pub offset : ℕ → ℕ
  offset = block_offset (geometry aead)

  -- Every block has the length of a sealed page.
  abbrev pub AreBlocks : List (ℕ × List ℕ) → Type 0
  AreBlocks = All (λ e. length e.1 ≡ block_len)

  pub offset_add : (n m : ℕ) → offset (n + m) ≡ offset n + m * block_len
  unfolding block_offset
  offset_add n m = grind arith

  module _ (s : Storage) where
    pub length-joined :
        (run : List (ℕ × List ℕ)) → AreBlocks run → length (joined run) ≡ length run * block_len
    unfolding joined
    length-joined [] h = omega arith
    length-joined ((i, b) ∷ run) h =
        length-append b (joined run) ∙ grind (arith, h.0, length-joined run h.1)

    pub joined-append : (xs ys : List (ℕ × List ℕ)) → joined (xs ++ ys) ≡ joined xs ++ joined ys
    unfolding joined
    joined-append [] ys = refl
    joined-append ((i, b) ∷ xs) ys =
        ap (λ l. b ++ l) (joined-append xs ys) ∙ sym (append_assoc b (joined xs) (joined ys))

    -- The bytes of a block in the file.
    abbrev pub block : s.File → ℕ → List ℕ
    block f k = s.read f (offset k) block_len

    write-found :
        (f : s.File) (start k : ℕ) (front back : List (ℕ × List ℕ)) (b : List ℕ)
        → AreBlocks front
        → length b ≡ block_len
        → k ≡ start + length front
        → block (s.write f (offset start) (joined (front ++ (k, b) ∷ back))) k ≡ b
    unfolding joined
    write-found f start k front back b a n e =
        ap (λ l. block (s.write f (offset start) l) k) (joined-append front ((k, b) ∷ back))
        ∙ ap (λ p. s.read written p block_len) place
        ∙ ap (λ m. s.read written (offset start + length (joined front)) m) (sym n)
        ∙ s.read_write f (offset start) (joined front) b (joined back)
      where
        written : s.File
        written = s.write f (offset start) (joined front ++ (b ++ joined back))

        place : offset k ≡ offset start + length (joined front)
        place =
            ap offset e
            ∙ offset_add start (length front)
            ∙ ap (λ m. offset start + m) (sym (length-joined front a))

    pub offset_before : (k n : ℕ) → k < n → offset k + block_len ≤ offset n
    unfolding block_offset
    offset_before k n h = grind arith

    pub offset_mono : (k n : ℕ) → k ≤ n → offset k ≤ offset n
    unfolding block_offset
    offset_mono k n h = grind arith

    write-missing :
        (f : s.File) (start k : ℕ) (run : List (ℕ × List ℕ))
        → AreBlocks run
        → offset k + block_len ≤ s.len f
        → (k < start) ⊎ (start + length run ≤ k)
        → block (s.write f (offset start) (joined run)) k ≡ block f k
    write-missing f start k run a within o =
        s.read_write_apart f (offset start) (joined run) (offset k) block_len within (apart o)
      where
        later :
            start + length run ≤ k
            → offset (start + length run) ≡ offset start + length run * block_len
            → length (joined run) ≡ length run * block_len
            → offset start + length (joined run) ≤ offset k
        later h e n = omega (arith, e, n, offset_mono (start + length run) k h)

        apart :
            (k < start) ⊎ (start + length run ≤ k)
            → (offset k + block_len ≤ offset start)
              ⊎ (offset start + length (joined run) ≤ offset k)
        apart (inl h) = inl (offset_before k start h)
        apart (inr h) = inr (later h (offset_add start (length run)) (length-joined run a))

    pub write-run :
        (f : s.File) (start k : ℕ) (run : List (ℕ × List ℕ))
        → IsRun start run
        → AreBlocks run
        → (page_at k run ≡ none → offset k + block_len ≤ s.len f)
        → block (s.write f (offset start) (joined run)) k ≡ or_else (page_at k run) (block f k)
    write-run f start k run r a within = elim (Option-cases (page_at k run)) [
      | inl e ↦ rw e (write-missing f start k run a (within e) (run_missing start k run r e))
      | inr (b, e) ↦
          let (front, back, split, n) = run_found start k run r e in
          let parts = All-split (λ e. length e.1 ≡ block_len) front (k, b) back (rw split at a) in
          rw (e, split) (write-found f start k front back b parts.0 parts.1 n)
    ]
