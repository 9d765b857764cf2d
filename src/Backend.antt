-- ===== src/Backend.antt =====
-- The file layer under the database engine: every page is one sealed block
-- (src/encrypted_store/backend.rs). The file below it, an engine's `StorageBackend`, and the cipher
-- are interfaces with the behaviour that the layer relies on. Errors of the file below abort the
-- program's transaction and are not part of the model; the layer's own errors are `IoError`.
pub mod Pieces
pub mod Blocks
pub mod Calls
mod Concrete
mod Examples
use Prim.Native.String.{String}
use clove1db.Prelude.{
  ℕ, zero, suc, ◌+◌, ◌*◌, ◌/◌, ◌%◌, ◌≤◌, ◌≡◌, ◌⊎◌, Bool, true, false, List, [], ◌∷◌, ◌++◌, Option,
  none, some, length, max,
}
use clove1db.Geometry.{Geometry, stride, block_offset}

-- The file below. Offsets and counts are in bytes.
pub record Storage : Type 1 where
  pub File : Type 0
  pub len : File → ℕ
  pub read : File → ℕ → ℕ → List ℕ
  pub write : File → ℕ → List ℕ → File
  pub set_len : File → ℕ → File
  pub length_read : (f : File) (at n : ℕ) → at + n ≤ len f → length (read f at n) ≡ n
  pub read_append :
      (f : File) (at n m : ℕ)
      → at + (n + m) ≤ len f
      → read f at (n + m) ≡ read f at n ++ read f (at + n) m
  -- what is written is read, every part of it
  pub read_write :
      (f : File) (at : ℕ) (front part back : List ℕ)
      → read (write f at (front ++ (part ++ back))) (at + length front) (length part) ≡ part
  -- and nothing else changes
  pub read_write_apart :
      (f : File) (at : ℕ) (bytes : List ℕ) (from n : ℕ)
      → from + n ≤ len f
      → (from + n ≤ at) ⊎ (at + length bytes ≤ from)
      → read (write f at bytes) from n ≡ read f from n
  pub len_write :
      (f : File) (at : ℕ) (bytes : List ℕ)
      → at ≤ len f
      → len (write f at bytes) ≡ max (len f) (at + length bytes)
  pub len_set_len : (f : File) (n : ℕ) → len (set_len f n) ≡ n
  pub read_set_len :
      (f : File) (n from count : ℕ)
      → from + count ≤ n
      → from + count ≤ len f
      → read (set_len f n) from count ≡ read f from count

-- An authenticated cipher: the first argument of `seal` is the number of the nonce that is drawn, the
-- second the data that is authenticated with the text.
pub record Aead : Type 0 where
  pub overhead : ℕ
  pub seal : ℕ → List ℕ → List ℕ → List ℕ
  pub open_in_place : List ℕ → List ℕ → Option (List ℕ)
  pub open_seal :
      (nonce : ℕ) (aad plain : List ℕ) → open_in_place aad (seal nonce aad plain) ≡ some plain
  pub length_seal :
      (nonce : ℕ) (aad plain : List ℕ) → length (seal nonce aad plain) ≡ length plain + overhead

abbrev pub geometry : Aead → Geometry
geometry aead = record { overhead = aead.overhead }

pub data IoError : Type 0 where
  -- `bad`
  invalid_input : String → IoError
  permission_denied unexpected_eof : IoError
  -- `tamper_io`, with the number of the block
  tampered : Option ℕ → IoError

pub data Io (A : Type 0) : Type 0 where
  failed : IoError → Io A
  done : A → Io A

-- The lowest byte first.
unfoldable pub to_le : ℕ → ℕ → List ℕ
to_le zero v = []
to_le (suc n) v = v % 256 ∷ to_le n (v / 256)

unfoldable pub block_aad : ℕ → List ℕ
unfolding to_le
block_aad index = b'b' ∷ to_le 8 index

unfoldable pub piece_aad : ℕ → List ℕ
piece_aad piece = b'h' ∷ piece ∷ []

-- `EncryptionTuning`, with the number of the processor's threads
pub record Tuning : Type 0 where
  pub parallel_seal : Bool
  pub threads : ℕ
  pub cores : ℕ

-- The engine's own header bytes as the layer last saw them.
pub record Header : Type 0 where
  pub bytes : List ℕ
  pub seq : ℕ
  pub newest_copy : ℕ

module _ (s : Storage) where
  pub record Backend : Type 0 where
    pub file : s.File
    pub data_len : ℕ
    pub header_area : Bool
    pub header : Header
    pub read_only : Bool
    -- pages that are written and not yet sealed, in order of their numbers
    pub pending : List (ℕ × List ℕ)
    -- nonces drawn so far
    pub drawn : ℕ

  -- An operation may change the layer and then fail.
  abbrev pub M : Type 0 → Type 0
  M A = Backend → Io A × Backend

  abbrev pub then_run : {A C : Type 0} → Io A × Backend → (A → M C) → Io C × Backend
  then_run (failed e, b) next = (failed e, b)
  then_run (done a, b) next = next a b

  infixl 5 ◌>>=◌ ◌>>◌
  abbrev pub ◌>>=◌ : {A C : Type 0} → M A → (A → M C) → M C
  ◌>>=◌ first next b = then_run (first b) next

  abbrev pub ◌>>◌ : {C : Type 0} → M (Unit {0}) → M C → M C
  first >> next = first >>= λ (_ : Unit {0}). next
