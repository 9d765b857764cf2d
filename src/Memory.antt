-- ===== src/Memory.antt =====
-- memory.rs: allocations that report a refusal. Whether the system grants a reservation is outside the
-- program, so `granted site bytes` is a parameter of all code that reserves.
use clove1db.Prelude.{ℕ, Bool, true, ◌≡◌, List, if◌then◌else◌, length}
use clove1db.Prelude.Results.{Result, ok, err, ◌>>◌, ClError, out_of_memory}
use Prim.Native.String.{String}

abbrev pub Allocator : Type 0
Allocator = String → ℕ → Bool

-- Every reservation is granted.
abbrev pub Grants : Allocator → Type 0
Grants granted = (site : String) (bytes : ℕ) → granted site bytes ≡ true

abbrev pub refused : String → ℕ → ClError
refused = out_of_memory

module _ (granted : Allocator) where
  -- Room for `n` bytes; the vector is empty until it is written to.
  unfoldable pub vec_with_capacity : String → ℕ → Result (Unit {0})
  vec_with_capacity site n = if granted site n then ok tt else err (refused site n)

  unfoldable pub copy_bytes : String → List ℕ → Result (List ℕ)
  unfolding vec_with_capacity
  copy_bytes site src = do vec_with_capacity site (length src); ok src

  -- Room for one more item; the size of an item is the compiler's.
  unfoldable pub reserve_one : String → Result (Unit {0})
  reserve_one site = if granted site 1 then ok tt else err (refused site 1)
