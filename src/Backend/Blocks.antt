-- ===== src/Backend/Blocks.antt =====
-- Sealing pages and writing blocks: `write_blocks`, `stage_pages`, `seal_all` and `drain`.
pub mod Layout
pub mod Sealed
pub mod Written
pub mod Drained
pub mod Kept
pub mod Staged
pub mod Pending
use clove1db.Prelude.{
  ℕ, zero, suc, ◌+◌, ◌-◌, ◌*◌, ◌/◌, Bool, true, false, ◌&&◌, List, [], ◌∷◌, ◌++◌, Option, none,
  some, length, take, drop, min, max, ltb, leb, ◌==◌, if◌then◌else◌,
}
use clove1db.Geometry.{page, stride, block_offset}
use clove1db.Backend.{
  Storage, Aead, geometry, IoError, permission_denied, Io, done, failed, block_aad, Tuning, Backend,
  M, then_run, ◌>>=◌, ◌>>◌,
}

abbrev pub pending_cap_pages : ℕ
pending_cap_pages = 1024

abbrev pub seal_min_pages : ℕ
seal_min_pages = 64

abbrev pub pages_per_thread : ℕ
pages_per_thread = 16

abbrev pub write_chunk : ℕ
write_chunk = 128

-- `count` pages, numbered from `first`.
unfoldable pub pages_from : ℕ → ℕ → List ℕ → List (ℕ × List ℕ)
pages_from first zero plain = []
pages_from first (suc count) plain =
    (first, take page plain) ∷ pages_from (suc first) count (drop page plain)

-- A page is put in its place, instead of an older one.
unfoldable pub insert_page : ℕ → List ℕ → List (ℕ × List ℕ) → List (ℕ × List ℕ)
insert_page i p [] = (i, p) ∷ []
insert_page i p ((j, q) ∷ rest) =
    let later = insert_page i p rest in
    if ltb i j then (i, p) ∷ (j, q) ∷ rest else if i == j then (i, p) ∷ rest else (j, q) ∷ later

unfoldable pub insert_pages : List (ℕ × List ℕ) → List (ℕ × List ℕ) → List (ℕ × List ℕ)
insert_pages [] pending = pending
insert_pages ((i, p) ∷ pages) pending = insert_pages pages (insert_page i p pending)

unfoldable pub page_at : ℕ → List (ℕ × List ℕ) → Option (List ℕ)
page_at i [] = none
page_at i ((j, p) ∷ rest) = if j == i then some p else page_at i rest

abbrev pub is_there : Option (List ℕ) → Bool
is_there none = false
is_there (some p) = true

-- Threads worth starting for so many pages.
unfoldable pub workers_for : Tuning → ℕ → ℕ
workers_for t pages =
    if ltb pages seal_min_pages
    then 1
    else max (min (min (max t.threads 1) t.cores) (pages / pages_per_thread)) 1

-- `div_ceil`
unfoldable pub div_ceil : ℕ → ℕ → ℕ
div_ceil n d = (n + (d - 1)) / d

-- A page that is in the file is no longer pending.
unfoldable pub forget_pages : List (ℕ × List ℕ) → List (ℕ × List ℕ) → List (ℕ × List ℕ)
forget_pages batch [] = []
forget_pages batch ((i, p) ∷ pending) =
    let rest = forget_pages batch pending in
    if is_there (page_at i batch) then rest else (i, p) ∷ rest

-- The blocks of a run, one after the other.
unfoldable pub joined : List (ℕ × List ℕ) → List ℕ
joined [] = []
joined ((i, block) ∷ blocks) = block ++ joined blocks

module _ (aead : Aead) where
  -- Each page sealed, with its number; the nonces are drawn one after the other.
  unfoldable pub seal_chunk : ℕ → List (ℕ × List ℕ) → List (ℕ × List ℕ)
  seal_chunk drawn [] = []
  seal_chunk drawn ((index, plain) ∷ pages) =
      (index, aead.seal drawn (block_aad index) plain) ∷ seal_chunk (suc drawn) pages

  -- `batch.chunks(per)`, each sealed by a thread of its own into its part of the output; on fuel, as
  -- many rounds as there are pages.
  unfoldable pub seal_parts : ℕ → ℕ → ℕ → List (ℕ × List ℕ) → List (ℕ × List ℕ)
  seal_parts zero per drawn pages = []
  seal_parts (suc fuel) per drawn [] = []
  seal_parts (suc fuel) per drawn (p ∷ pages) =
      seal_chunk drawn (take per (p ∷ pages))
      ++ seal_parts fuel per (drawn + per) (drop per (p ∷ pages))

  unfoldable pub seal_all : ℕ → ℕ → List (ℕ × List ℕ) → List (ℕ × List ℕ)
  unfolding seal_parts
  seal_all workers drawn batch =
      if leb workers 1
      then seal_chunk drawn batch
      else seal_parts (length batch) (div_ceil (length batch) workers) drawn batch

  module _ (s : Storage) where
    -- `run` are the blocks from number `start` on that go out with the next write.
    unfoldable pub write_runs : s.File → ℕ → List (ℕ × List ℕ) → List (ℕ × List ℕ) → s.File
    write_runs f start run [] = s.write f (block_offset (geometry aead) start) (joined run)
    write_runs f start run ((i, block) ∷ blocks) =
        let longer = write_runs f start (run ++ (i, block) ∷ []) blocks in
        let next =
          write_runs (s.write f (block_offset (geometry aead) start) (joined run)) i
            ((i, block) ∷ []) blocks in
        if (i == start + length run) && ltb (length run) write_chunk then longer else next

    abbrev pub write_all : s.File → List (ℕ × List ℕ) → s.File
    write_all f [] = f
    write_all f ((i, block) ∷ blocks) = write_runs f i ((i, block) ∷ []) blocks

    unfoldable pub refuse_if_read_only : M s (Unit {0})
    refuse_if_read_only b = if b.read_only then (failed permission_denied, b) else (done tt, b)

    unfoldable pub write_blocks : ℕ → ℕ → List ℕ → M s (Unit {0})
    write_blocks first count plain = (◌>>◌ s refuse_if_read_only) (λ b.
        let sealed = seal_chunk b.drawn (pages_from first count plain) in
        (
          done tt,
          record b {
            file = s.write b.file (block_offset (geometry aead) first) (joined sealed);
            drawn = b.drawn + count;
          },
        ))

    unfoldable pub drain : Tuning → M s (Unit {0})
    drain t b =
        let batch = b.pending in
        let sealed = seal_all (workers_for t (length batch)) b.drawn batch in
        (
          done tt,
          record b {
            file = write_all b.file sealed;
            drawn = b.drawn + length batch;
            pending = forget_pages batch b.pending;
          },
        )

    unfoldable pub stage_pages : Tuning → ℕ → List ℕ → M s (Unit {0})
    unfolding refuse_if_read_only
    stage_pages t first plain = (◌>>◌ s refuse_if_read_only) (λ b.
        let staged = record b {
          pending = insert_pages (pages_from first (length plain / page) plain) b.pending;
        } in
        if leb pending_cap_pages (length staged.pending) then drain t staged else (done tt, staged))
