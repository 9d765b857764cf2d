-- ===== src/Journal/Store/Counters.antt =====
-- Reading a counter of `__seq` after a write to it.
use Prim.Native.String.{String}
use text.Mathlib.Text.{◌==◌ as str_eq}
use clove1db.Prelude.{ℕ, ◌<◌, ◌≡◌, Bool-cases, inl, inr, some, if◌then◌else◌}
use clove1db.Prelude.Bytes.{u64_mod, to_be, length-to_be, from_be-to_be}
use clove1db.Prelude.Results.{ok}
use clove1db.Prelude.Table.Laws.{get-insert}
use clove1db.Journal.Store.{Engine, read_word, write_word}

module _ (e : Engine) where
  -- A counter that was written is read back, and no other counter changes.
  pub read_word-write_word :
      (t : e.seq.Table) (k j : String) (v : ℕ)
      → v < u64_mod
      → read_word e (write_word e t k v) j ≡ (if str_eq k j then ok v else read_word e t j)
  unfolding read_word write_word
  read_word-write_word t k j v h = rw (get-insert e.seq) (elim (Bool-cases (str_eq k j)) [
    | inl same ↦ rw same (rw (length-to_be 8 v) (rw (from_be-to_be 8 v h)))
    | inr other ↦ rw other
  ])

  -- The other entries of `__seq` stay as they are.
  pub get-write_word :
      (t : e.seq.Table) (k j : String) (v : ℕ)
      → e.seq.get (write_word e t k v) j ≡ (if str_eq k j then some (to_be 8 v) else e.seq.get t j)
  unfolding write_word
  get-write_word t k j v = get-insert e.seq t k j (to_be 8 v)
