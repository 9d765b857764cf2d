-- ===== src/Backend/Calls/Growth/Grown.antt =====
-- A layer that grows (src/encrypted_store/backend.rs, `fill` and `set_len`).
use clove1db.Prelude.{
  ℕ, zero, suc, ◌-◌, ◌*◌, ◌≤◌, ◌<◌, ◌≡◌, refl, sym, ◌∙◌, ap, inl, inr, false, some, ltb, ltb→lt,
  lt→ltb, arith, Bool-cases,
}
use mathlib.Core.Path.{subst}
use clove1db.Geometry.{page}
use clove1db.Backend.{Storage, Aead, Io, done, Backend, then_run}
use clove1db.Backend.Pieces.{zeros}
use clove1db.Backend.Blocks.Layout.{offset}
use clove1db.Backend.Blocks.Staged.{write_allowed}
use clove1db.Backend.Calls.Growth.{Shape, stop_after, fill_from}
use clove1db.Backend.Calls.Growth.Stops.{stop_after-bounds}
use clove1db.Backend.Calls.Growth.Filled.{filled, in_file, filled_before, filled_in, filled-grows}

module _ (aead : Aead) (s : Storage) where
  -- From `b`, the blocks from `at` to `end` are new.
  pub record IsGrown (b : Backend s) (at end : ℕ) (r : Io (Unit {0}) × Backend s) : Type 0 where
    pub finished : r.0 ≡ done tt
    pub kept : (r.1.pending ≡ b.pending) × (r.1.header_area ≡ b.header_area)
    pub reaches : offset aead end ≤ s.len r.1.file
    pub old : (k : ℕ) → k < at → in_file aead s r.1 k ≡ in_file aead s b k
    pub new : (k : ℕ) → at ≤ k → k < end → in_file aead s r.1 k ≡ some (zeros page)

  pub nothing-IsGrown :
      (at end : ℕ) (b : Backend s)
      → at ≡ end
      → offset aead at ≤ s.len b.file
      → IsGrown b at end (done tt, b)
  nothing-IsGrown at end b e big = record {
    finished = refl;
    kept = (refl, refl);
    reaches = subst (λ n. offset aead n ≤ s.len b.file) e big;
    old = λ k less. refl;
    new = λ k low high. absurd (omega (arith, e, low, high));
  }

  -- A batch, and what is grown after it.
  batch-IsGrown :
      (at stop end : ℕ) (b : Backend s) {r : Io (Unit {0}) × Backend s}
      → at < stop
      → offset aead at ≤ s.len b.file
      → IsGrown (filled aead s at (stop - at) b) stop end r
      → IsGrown b at end r
  batch-IsGrown at stop end b less big after = record {
    finished = after.finished;
    kept = after.kept;
    reaches = after.reaches;
    old = λ k before.
        after.old k (omega (arith, before, less))
        ∙ filled_before aead s at (stop - at) k b big before;
    new = λ k low high. elim (Bool-cases (ltb k stop)) [
      | inl inside ↦
          let within : k < stop = ltb→lt k stop inside in
          after.old k within ∙ filled_in aead s at (stop - at) k b low (omega (arith, within))
      | inr later ↦ after.new k (ground (arith, later)) high
    ];
  }

  fill_from_end :
      (fuel at end : ℕ) (shape : Shape) (b : Backend s)
      → end ≤ at
      → fill_from aead s fuel at end shape b ≡ (done tt, b)
  unfolding fill_from
  fill_from_end zero at end shape b h = refl
  fill_from_end (suc fuel) at end shape b h = rw over refl
    where
      over : ltb at end ≡ false
      over = ground (arith, h)

  fill_from_step :
      (fuel at end : ℕ) (shape : Shape) (b : Backend s)
      → at < end
      → b.read_only ≡ false
      → fill_from aead s (suc fuel) at end shape b
        ≡ fill_from aead s fuel
            (stop_after at end shape)
            end
            shape
            (filled aead s at (stop_after at end shape - at) b)
  unfolding fill_from
  fill_from_step fuel at end shape b less allowed = rw (lt→ltb at end less) (
      ap (λ r. then_run s r (λ x. fill_from aead s fuel (stop_after at end shape) end shape))
        (write_allowed aead s at (stop_after at end shape - at)
          (zeros ((stop_after at end shape - at) * page)) b allowed))

  pub fill_from-IsGrown :
      (fuel at end : ℕ) (shape : Shape) (b : Backend s)
      → end - at ≤ fuel
      → at ≤ end
      → b.read_only ≡ false
      → offset aead at ≤ s.len b.file
      → IsGrown b at end (fill_from aead s fuel at end shape b)
  fill_from-IsGrown zero at end shape b enough ordered allowed big =
      subst (IsGrown b at end) (sym (fill_from_end zero at end shape b (omega (arith, enough))))
        (nothing-IsGrown at end b (omega (arith, enough, ordered)) big)
  fill_from-IsGrown (suc fuel) at end shape b enough ordered allowed big =
      elim (Bool-cases (ltb at end)) [
        | inl more ↦
            let less : at < end = ltb→lt at end more in
            let (low, high) = stop_after-bounds at end shape less in
            grow less low (
              fill_from-IsGrown fuel stop end shape next (omega (arith, enough, low)) high allowed
                (reaches low))
        | inr over ↦
            let reached : end ≤ at = ground (arith, over) in
            subst (IsGrown b at end) (sym (fill_from_end (suc fuel) at end shape b reached))
              (nothing-IsGrown at end b (omega (arith, reached, ordered)) big)
      ]
    where
      stop : ℕ
      stop = stop_after at end shape

      next : Backend s
      next = filled aead s at (stop - at) b

      reaches : at < stop → offset aead stop ≤ s.len next.file
      reaches low =
          subst (λ n. offset aead n ≤ s.len next.file) (omega (arith, low))
            (filled-grows aead s at (stop - at) b big)

      grow :
          at < end
          → at < stop
          → IsGrown next stop end (fill_from aead s fuel stop end shape next)
          → IsGrown b at end (fill_from aead s (suc fuel) at end shape b)
      grow less low after =
          subst (IsGrown b at end) (sym (fill_from_step fuel at end shape b less allowed))
            (batch-IsGrown at stop end b low big after)
