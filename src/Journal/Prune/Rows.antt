-- ===== src/Journal/Prune/Rows.antt =====
-- The loop of `prune` removes exactly the rows up to its bound.
use clove1db.Prelude.{
  ℕ, zero, suc, ◌+◌, ◌-◌, ◌≤◌, ◌<◌, ◌≡◌, refl, sym, ◌∙◌, true, false, List, [], ◌∷◌, arith, Option,
  length, leb, ltb, Bool-cases, inl, inr, max,
}
use clove1db.Prelude.Results.{ok}
use clove1db.Prelude.Table.Entries.{after}
use clove1db.Memory.{Allocator, Grants}
use clove1db.Journal.Row.{
  ChangeKind, upsert, delete, table_reset, blob_put, blob_delete, IsWellFormed, parts,
}
use clove1db.Journal.Row.RoundTrip.{row_bytes, decode-row}
use clove1db.Journal.Store.{Engine}
use clove1db.Journal.Invariant.{IsRow, wrote, Numbered, row_cost}
use clove1db.Journal.Prune.{
  snapshot_name, snapshot_of, Pruned, due, delete_snapshot, prune_row, prune_rows,
}

snapshot_of-parts :
    (granted : Allocator) (c : ChangeKind)
    → Grants granted
    → IsWellFormed c
    → snapshot_of granted (row_bytes (parts c)) ≡ ok (snapshot_name c)
unfolding snapshot_of parts
snapshot_of-parts granted (upsert t k v) g w = refl
snapshot_of-parts granted (delete t k) g w = refl
snapshot_of-parts granted (table_reset t s) g w = rw (decode-row granted (table_reset t s) g w)
snapshot_of-parts granted (blob_put t k b n) g w = refl
snapshot_of-parts granted (blob_delete t k b n) g w = refl

snapshot_of-row :
    (granted : Allocator) (row : List ℕ)
    → Grants granted
    → IsRow row
    → (snapshot : Option (List ℕ)) × (snapshot_of granted row ≡ ok snapshot)
snapshot_of-row granted row g (wrote c w e) =
    (snapshot_name c, rw e (snapshot_of-parts granted c g w))

-- Rows that start after the bound all stay.
pub after-Numbered_all :
    (next head through : ℕ) (rows : List (ℕ × List ℕ))
    → through < next
    → Numbered next rows head
    → after through rows ≡ rows
unfolding after
after-Numbered_all next head through [] h n = refl
after-Numbered_all next head through ((k, row) ∷ rows) h n =
    ground (arith, after-Numbered_all (next + 1) head through rows (omega arith) n.2)

-- What stays is numbered without a gap from the bound on.
pub Numbered-after :
    (next head through : ℕ) (rows : List (ℕ × List ℕ))
    → through ≤ head
    → Numbered next rows head
    → Numbered (max next (through + 1)) (after through rows) head
unfolding after
Numbered-after next head through [] h n = omega arith
Numbered-after next head through ((k, row) ∷ rows) h n = elim (Bool-cases (ltb through k)) [
  | inl later ↦
      let bound : max next (through + 1) ≡ next = ground (arith, n.0) in
      rw (later, bound, after-Numbered_all (next + 1) head through rows (ground (arith, n.0)) n.2) n
  | inr due_row ↦
      let bound : max next (through + 1) ≡ max (next + 1) (through + 1) = ground (arith, n.0) in
      rw (due_row, bound) (Numbered-after (next + 1) head through rows h n.2)
]

module _ (granted : Allocator) (e : Engine) (g : Grants granted) where
  -- One round takes the first row out.
  prune_row_lem :
      (s : Pruned granted e) (k : ℕ) (row : List ℕ) (rest : List (ℕ × List ℕ))
      → e.changes.iter s.changes ≡ (k, row) ∷ rest
      → IsRow row
      → s.bytes ≡ row_cost ((k, row) ∷ rest)
      → (t : Pruned granted e) × (prune_row granted e s ≡ ok t)
        × (e.changes.iter t.changes ≡ rest)
        × (t.bytes ≡ row_cost rest)
  unfolding prune_row
  prune_row_lem s k row rest listed r b =
      let (changes, popped, left) = e.changes.pop_some s.changes listed in
      let (snapshot, found) = snapshot_of-row granted row g r in
      let enough : leb (8 + length row) s.bytes ≡ true = ground arith in
      (
        record {
          bytes = s.bytes - (8 + length row);
          changes = changes;
          catalog = delete_snapshot granted e s.catalog snapshot;
        },
        rw popped (rw found (rw enough)),
        left,
        omega arith,
      )

  due_lem :
      (through k : ℕ) (row : List ℕ) (rest : List (ℕ × List ℕ)) (changes : e.changes.Table)
      → e.changes.iter changes ≡ (k, row) ∷ rest
      → due granted e through changes ≡ leb k through
  unfolding due
  due_lem through k row rest changes listed = rw (listed, due)

  due_none :
      (through : ℕ) (changes : e.changes.Table)
      → e.changes.iter changes ≡ []
      → due granted e through changes ≡ false
  unfolding due
  due_none through changes listed = rw (listed, due)

  prune_rows_stop :
      (fuel through : ℕ) (s : Pruned granted e)
      → due granted e through s.changes ≡ false
      → prune_rows granted e fuel through s ≡ ok s
  unfolding prune_rows
  prune_rows_stop zero through s h = refl
  prune_rows_stop (suc fuel) through s h = rw (h, prune_rows)

  prune_rows_step :
      (fuel through : ℕ) (s t : Pruned granted e)
      → due granted e through s.changes ≡ true
      → prune_row granted e s ≡ ok t
      → prune_rows granted e (suc fuel) through s ≡ prune_rows granted e fuel through t
  unfolding prune_rows
  prune_rows_step fuel through s t h p = rw (h, prune_rows) (rw p)

  -- With a round for each row, the loop ends by its test: the rows up to the bound are gone, the
  -- others are untouched, and the byte count is that of the rows left.
  pub prune_rows_lem :
      (fuel through next head : ℕ) (s : Pruned granted e) (rows : List (ℕ × List ℕ))
      → e.changes.iter s.changes ≡ rows
      → length rows ≤ fuel
      → Numbered next rows head
      → s.bytes ≡ row_cost rows
      → (t : Pruned granted e) × (prune_rows granted e fuel through s ≡ ok t)
        × (e.changes.iter t.changes ≡ after through rows)
        × (t.bytes ≡ row_cost (after through rows))
  unfolding after
  prune_rows_lem fuel through next head s [] listed h n b =
      (s, prune_rows_stop fuel through s (due_none through s.changes listed), listed, b)
  prune_rows_lem zero through next head s (r ∷ rows) listed h n b = absurd (omega arith)
  prune_rows_lem (suc fuel) through next head s ((k, row) ∷ rows) listed h n b =
      elim (Bool-cases (leb k through)) [
        | inl early ↦
            let (t, one, left, counted) = prune_row_lem s k row rows listed n.1 b in
            let (u, others, rest, total) =
              prune_rows_lem fuel through (next + 1) head t rows left (omega arith) n.2 counted in
            let gone : after through ((k, row) ∷ rows) ≡ after through rows = ground arith in
            let d = due_lem through k row rows s.changes listed ∙ early in
            (u, prune_rows_step fuel through s t d one ∙ others, rest ∙ sym gone, rw gone total)
        | inr late ↦
            let stay : after through ((k, row) ∷ rows) ≡ (k, row) ∷ rows =
              after-Numbered_all next head through ((k, row) ∷ rows) (ground (arith, n.0)) n in
            let d = due_lem through k row rows s.changes listed ∙ late in
            (s, prune_rows_stop (suc fuel) through s d, listed ∙ sym stay, rw stay b)
      ]
