-- ===== src/Journal/Append/Rows.antt =====
-- `append_effects` adds one row for each effect, in order, with the next numbers (src/journal.rs).
use mathlib.Core.List.{append_assoc, append-nil}
use clove1db.Prelude.{
  ℕ, ◌+◌, ◌<◌, ◌≡◌, refl, sym, ap, ◌∙◌, List, [], ◌∷◌, ◌++◌, arith, length, All, lt→ltb,
}
use clove1db.Prelude.Bytes.{u64_mod}
use clove1db.Prelude.Results.{ok}
use clove1db.Prelude.Table.Entries.{insert_number}
use clove1db.Memory.{Allocator, Grants}
use clove1db.Journal.Row.{ChangeKind, IsWellFormed, parts}
use clove1db.Journal.Row.RoundTrip.{row_bytes, encode-row_bytes}
use clove1db.Journal.Store.{Engine}
use clove1db.Journal.Invariant.{IsRow, wrote, Numbered, row_cost}
use clove1db.Journal.Prune.Laws.{Numbered-floor}
use clove1db.Journal.Append.{Appended, append_effect, append_effects}

-- The rows of some effects, numbered from `head + 1`.
abbrev pub new_rows : ℕ → List ChangeKind → List (ℕ × List ℕ)
new_rows head [] = []
new_rows head (c ∷ cs) = (head + 1, row_bytes (parts c)) ∷ new_rows (head + 1) cs

insert_number_last :
    (next head : ℕ) (row : List ℕ) (rows : List (ℕ × List ℕ))
    → Numbered next rows head
    → insert_number (head + 1) row rows ≡ rows ++ (head + 1, row) ∷ []
unfolding insert_number
insert_number_last next head row [] n = refl
insert_number_last next head row ((k, r) ∷ rows) n = ground (
  arith,
  Numbered-floor (next + 1) head rows n.2,
  insert_number_last (next + 1) head row rows n.2,
)

Numbered-snoc :
    (next head : ℕ) (row : List ℕ) (rows : List (ℕ × List ℕ))
    → IsRow row
    → Numbered next rows head
    → Numbered next (rows ++ (head + 1, row) ∷ []) (head + 1)
Numbered-snoc next head row [] r n = (sym n, r, omega arith)
Numbered-snoc next head row ((k, w) ∷ rows) r n =
    (n.0, n.1, Numbered-snoc (next + 1) head row rows r n.2)

pub row_cost-append : (xs ys : List (ℕ × List ℕ)) → row_cost (xs ++ ys) ≡ row_cost xs + row_cost ys
row_cost-append [] ys = omega arith
row_cost-append ((k, row) ∷ xs) ys = omega (arith, row_cost-append xs ys)

module _ (granted : Allocator) (e : Engine) (g : Grants granted) where
  append_effect_lem :
      (s : Appended granted e) (c : ChangeKind) (next : ℕ)
      → IsWellFormed c
      → Numbered next (e.changes.iter s.changes) s.head
      → s.bytes ≡ row_cost (e.changes.iter s.changes)
      → s.head + 1 < u64_mod
      → s.bytes + row_cost (new_rows s.head (c ∷ [])) < u64_mod
      → (t : Appended granted e) × (append_effect granted e s c ≡ ok t)
        × (t.head ≡ s.head + 1)
        × (e.changes.iter t.changes
            ≡ e.changes.iter s.changes ++ (s.head + 1, row_bytes (parts c)) ∷ [])
        × (t.bytes ≡ row_cost (e.changes.iter t.changes))
  unfolding append_effect
  append_effect_lem s c next w n b hf bf =
      let row = row_bytes (parts c) in
      let rows = e.changes.iter s.changes in
      let listed =
        e.changes.insert_law s.changes (s.head + 1) row
        ∙ insert_number_last next s.head row rows n in
      (
        record {
          head = s.head + 1;
          bytes = s.bytes + (8 + length row);
          changes = e.changes.insert s.changes (s.head + 1) row;
        },
        rw (lt→ltb _ _ hf, encode-row_bytes granted c g w)
            (rw (lt→ltb (s.bytes + (8 + length row)) u64_mod (omega arith))),
        refl,
        listed,
        rw (listed, row_cost-append) (omega arith),
      )

  -- Within the counters' range all effects are appended: the old rows stay, and each effect has a
  -- row of its own behind them, with consecutive numbers.
  pub append_effects_lem :
      (effects : List ChangeKind) (s : Appended granted e) (next : ℕ)
      → All IsWellFormed effects
      → Numbered next (e.changes.iter s.changes) s.head
      → s.bytes ≡ row_cost (e.changes.iter s.changes)
      → s.head + length effects < u64_mod
      → s.bytes + row_cost (new_rows s.head effects) < u64_mod
      → (t : Appended granted e) × (append_effects granted e s effects ≡ ok t)
        × (t.head ≡ s.head + length effects)
        × (e.changes.iter t.changes ≡ e.changes.iter s.changes ++ new_rows s.head effects)
        × (t.bytes ≡ row_cost (e.changes.iter t.changes))
        × Numbered next (e.changes.iter t.changes) t.head
  unfolding append_effects
  append_effects_lem [] s next w n b hf bf =
      (s, refl, omega arith, sym (append-nil (e.changes.iter s.changes)), b, n)
  append_effects_lem (c ∷ cs) s next w n b hf bf =
      let row = row_bytes (parts c) in
      let rows = e.changes.iter s.changes in
      let (t, one, head, listed, cost) =
        append_effect_lem s c next w.0 n b (omega arith) (omega arith) in
      let numbered : Numbered next (e.changes.iter t.changes) t.head =
        rw (listed, head) (Numbered-snoc next s.head row rows (wrote c w.0 refl) n) in
      let spent : t.bytes ≡ s.bytes + (8 + length row) =
        omega (arith, cost, ap row_cost listed, row_cost-append rows ((s.head + 1, row) ∷ [])) in
      let fits : t.bytes + row_cost (new_rows t.head cs) < u64_mod = rw head (omega arith) in
      let (u, rest, head', listed', cost', numbered') =
        append_effects_lem cs t next w.1 numbered cost (omega arith) fits in
      (
        u,
        rw one rest,
        omega arith,
        listed'
            ∙ rw (listed, head)
                (append_assoc rows ((s.head + 1, row) ∷ []) (new_rows (s.head + 1) cs)),
        cost',
        numbered',
      )
