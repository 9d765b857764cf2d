-- ===== src/Backend/Blocks/Kept.antt =====
-- The length of the file in a drain (src/encrypted_store/backend.rs, `drain`).
use clove1db.Prelude.{
  ℕ, suc, ◌+◌, ◌*◌, ◌≤◌, ◌<◌, ◌≡◌, refl, sym, inl, inr, ◌&&◌, List, [], ◌∷◌, ◌++◌, length,
  length-append, All, All-map, All-append, max, ◌==◌, ==_iff, ltb, arith, Bool-cases, and-true,
}
use mathlib.Core.Path.{subst}
use clove1db.Backend.{Storage, Aead, Tuning, Backend}
use clove1db.Backend.Blocks.{
  joined, write_runs, write_all, write_chunk, workers_for, seal_all, drain,
}
use clove1db.Backend.Blocks.Layout.{
  AreBlocks, block_len, offset, offset_add, offset_mono, length-joined,
}
use clove1db.Backend.Blocks.Sealed.{seal_all-SealedAs, SealedAs-AreBlocks, SealedAs-All}
use clove1db.Backend.Blocks.Drained.{≤-trans, IsSound, blocks, after_drain}

module _ (aead : Aead) (s : Storage) where
  write-kept :
      (size : ℕ) (f : s.File) (start : ℕ) (run : List (ℕ × List ℕ))
      → s.len f ≡ size
      → AreBlocks aead run
      → offset aead (start + length run) ≤ size
      → s.len (s.write f (offset aead start) (joined run)) ≡ size
  write-kept size f start run same blocks_of inside =
      kept
        (s.len_write f (offset aead start) (joined run)
          (rw same (≤-trans (offset_mono aead s start (start + length run) (omega arith)) inside)))
        (length-joined aead s run blocks_of) (offset_add aead start (length run))
    where
      kept :
          {l n : ℕ}
          → n ≡ max (s.len f) (offset aead start + l)
          → l ≡ length run * block_len aead
          → offset aead (start + length run) ≡ offset aead start + length run * block_len aead
          → n ≡ size
      kept e g h = rw (e, g, same) (rw (sym h) (ground (arith, inside)))

  write_runs-kept :
      (size : ℕ) (f : s.File) (start : ℕ) (run list : List (ℕ × List ℕ))
      → s.len f ≡ size
      → AreBlocks aead run
      → AreBlocks aead list
      → All (λ e. offset aead (suc e.0) ≤ size) list
      → offset aead (start + length run) ≤ size
      → s.len (write_runs aead s f start run list) ≡ size
  unfolding write_runs
  write_runs-kept size f start run [] same br bl al inside =
      write-kept size f start run same br inside
  write_runs-kept size f start run ((i, b) ∷ list) same br bl al inside =
      elim (Bool-cases ((i == start + length run) && ltb (length run) write_chunk)) [
        | inl t ↦ rw t (
            write_runs-kept size f start (run ++ (i, b) ∷ []) list same
              (All-append (λ x. length x.1 ≡ block_len aead) run ((i, b) ∷ []) br (bl.0, tt)) bl.1
              al.1
              (subst (λ n. offset aead n ≤ size)
                (longer
                  ((==_iff i (start + length run)).0
                    (and-true (i == start + length run) (ltb (length run) write_chunk) t).0)
                  (length-append run ((i, b) ∷ [])))
                al.0))
        | inr n ↦ rw n (
            write_runs-kept size (s.write f (offset aead start) (joined run)) i ((i, b) ∷ []) list
              (write-kept size f start run same br inside) (bl.0, tt) bl.1 al.1
              (subst (λ m. offset aead m ≤ size) one al.0))
      ]
    where
      longer :
          i ≡ start + length run
          → length (run ++ (i, b) ∷ []) ≡ length run + 1
          → suc i ≡ start + length (run ++ (i, b) ∷ [])
      longer e n = omega (arith, e, n)

      one : suc i ≡ i + 1
      one = omega arith

  write_all-kept :
      (f : s.File) (list : List (ℕ × List ℕ))
      → AreBlocks aead list
      → All (λ e. offset aead (suc e.0) ≤ s.len f) list
      → s.len (write_all aead s f list) ≡ s.len f
  write_all-kept f [] bl al = refl
  write_all-kept f ((i, b) ∷ list) bl al =
      write_runs-kept (s.len f) f i ((i, b) ∷ []) list refl (bl.0, tt) bl.1 al.1
        (subst (λ m. offset aead m ≤ s.len f) one al.0)
    where
      one : suc i ≡ i + 1
      one = omega arith

  -- A drain of a sound layer leaves the length of the file.
  pub drain-len :
      (t : Tuning) (b : Backend s)
      → IsSound aead s b
      → s.len (after_drain aead s t b).file ≡ s.len b.file
  unfolding drain
  drain-len t b sound =
      let sealed = seal_all aead (workers_for t (length b.pending)) b.drawn b.pending in
      let is_sealed = seal_all-SealedAs aead (workers_for t (length b.pending)) b.drawn b.pending in
      write_all-kept b.file sealed (SealedAs-AreBlocks aead b.pending sealed sound.whole is_sealed)
        (All-map (λ e. e.0 < blocks aead s b) (λ e. offset aead (suc e.0) ≤ s.len b.file) sealed
          (λ e less.
            ≤-trans (offset_mono aead s (suc e.0) (blocks aead s b) (omega (arith, less)))
              sound.filled)
          (SealedAs-All aead (λ n. n < blocks aead s b) b.pending sealed sound.inside is_sealed))
