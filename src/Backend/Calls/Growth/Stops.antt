-- ===== src/Backend/Calls/Growth/Stops.antt =====
-- Where the batches of a growth end (src/encrypted_store/backend.rs, `fill`).
use clove1db.Prelude.{
  ℕ, zero, suc, ◌+◌, ◌-◌, ◌≤◌, ◌<◌, ◌≡◌, ◌⊎◌, inl, inr, true, min, arith, Bool-cases,
}
use clove1db.Backend.Calls.Growth.{Shape, fill_batch, length_makes_layout, next_stop, stop_after}

next_stop-bounds :
    (fuel stop : ℕ) (shape : Shape)
    → (stop ≤ next_stop fuel stop shape) × (next_stop fuel stop shape ≤ stop + fuel)
unfolding next_stop
next_stop-bounds zero stop shape = (omega arith, omega arith)
next_stop-bounds (suc fuel) stop shape =
    let (low, high) = next_stop-bounds fuel (suc stop) shape in
    elim (Bool-cases (length_makes_layout stop shape)) [
      | inl valid ↦ rw valid (omega arith, omega arith)
      | inr other ↦ rw other (omega (arith, low), omega (arith, high))
    ]

next_stop-layout :
    (fuel stop : ℕ) (shape : Shape)
    → (next_stop fuel stop shape ≡ stop + fuel)
      ⊎ (length_makes_layout (next_stop fuel stop shape) shape ≡ true)
unfolding next_stop
next_stop-layout zero stop shape = inl (omega arith)
next_stop-layout (suc fuel) stop shape = elim (Bool-cases (length_makes_layout stop shape)) [
  | inl valid ↦ rw valid (inr valid)
  | inr other ↦ rw other (later (next_stop-layout fuel (suc stop) shape))
]
  where
    later :
        {n : ℕ}
        → (n ≡ suc stop + fuel) ⊎ (length_makes_layout n shape ≡ true)
        → (n ≡ stop + suc fuel) ⊎ (length_makes_layout n shape ≡ true)
    later (inl e) = inl (omega (arith, e))
    later (inr h) = inr h

pub stop_after-bounds :
    (at end : ℕ) (shape : Shape)
    → at < end
    → (at < stop_after at end shape) × (stop_after at end shape ≤ end)
unfolding stop_after
stop_after-bounds at end shape h =
    let (low, high) =
      next_stop-bounds (end - min (at + fill_batch) end) (min (at + fill_batch) end) shape in
    (ground (arith, h, low), ground (arith, h, high))

-- While a file grows, each batch of blocks goes at least one block further and not beyond the end, and
-- it ends at the end or at a number of pages with which the engine opens the file.
pub stop_after-layout :
    (at end : ℕ) (shape : Shape)
    → at < end
    → (at < stop_after at end shape)
      × (stop_after at end shape ≤ end)
      × ((stop_after at end shape ≡ end)
          ⊎ (length_makes_layout (stop_after at end shape) shape ≡ true))
unfolding stop_after
stop_after-layout at end shape h =
    let (low, high) = stop_after-bounds at end shape h in
    (
      low,
      high,
      last (next_stop-layout (end - min (at + fill_batch) end) (min (at + fill_batch) end) shape),
    )
  where
    last :
        {n : ℕ} {P : Type 0}
        → (n ≡ min (at + fill_batch) end + (end - min (at + fill_batch) end)) ⊎ P
        → (n ≡ end) ⊎ P
    last (inl e) = inl (ground (arith, e))
    last (inr p) = inr p
