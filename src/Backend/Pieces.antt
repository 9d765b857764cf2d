-- ===== src/Backend/Pieces.antt =====
-- The engine's header, kept as four sealed pieces before the blocks (src/encrypted_store/backend.rs): the
-- first 64 bytes in two copies that are written in turn, and each half of the rest.
use clove1db.Prelude.{
  ℕ, zero, suc, ◌+◌, ◌-◌, ◌*◌, ◌≡◌, refl, ap, Bool, true, false, not, ◌&&◌, List, [], ◌∷◌, ◌++◌,
  Option, none, some, length, take, drop, min, ltb, ◌==◌, list_eq, if◌then◌else◌,
}
use clove1db.Geometry.{file_header_len, piece_len}
use clove1db.Backend.{
  Storage, Aead, invalid_input, tampered, Io, done, failed, to_le, piece_aad, Header, M, ◌>>◌,
}

abbrev pub redb_header_len : ℕ
redb_header_len = 320

-- The lowest byte first.
unfoldable pub from_le : List ℕ → ℕ
from_le [] = 0
from_le (b ∷ bytes) = b + 256 * from_le bytes

unfoldable pub zeros : ℕ → List ℕ
zeros zero = []
zeros (suc n) = 0 ∷ zeros n

pub length-zeros : (n : ℕ) → length (zeros n) ≡ n
unfolding zeros
length-zeros zero = refl
length-zeros (suc n) = ap suc (length-zeros n)

unfoldable pub all_zero : List ℕ → Bool
all_zero [] = true
all_zero (b ∷ bytes) = (b == 0) && all_zero bytes

-- `resize` with zeros
unfoldable pub resized : ℕ → List ℕ → List ℕ
unfolding zeros
resized n v = take n (v ++ zeros (n - length v))

-- `bytes[from..to]`
abbrev pub slice : ℕ → ℕ → List ℕ → List ℕ
slice from to bytes = take (to - from) (drop from bytes)

-- `bytes[at..at + data.len()].copy_from_slice(data)`
unfoldable pub copied : ℕ → List ℕ → List ℕ → List ℕ
copied at new bytes = take at bytes ++ (new ++ drop (at + length new) bytes)

unfoldable pub piece_offset : ℕ → ℕ
piece_offset copy = file_header_len + copy * piece_len

-- Piece 0 has the number of the write in front.
unfoldable pub piece_plain : Header → ℕ → ℕ → List ℕ
unfolding to_le resized
piece_plain h zero plain_len = resized plain_len (to_le 8 h.seq ++ slice 0 64 h.bytes)
piece_plain h (suc zero) plain_len = resized plain_len (slice 64 192 h.bytes)
piece_plain h (suc (suc piece)) plain_len = resized plain_len (slice 192 320 h.bytes)

abbrev pub other_copy : ℕ → ℕ
other_copy copy = if copy == 0 then 1 else 0

-- The newest copy of the first piece: number of the write, copy, text.
abbrev pub Best : Type 0
Best = Option (ℕ × ℕ × List ℕ)

unfoldable pub better : ℕ → List ℕ → Best → Best
unfolding from_le
better copy p none = some (from_le (take 8 p), copy, slice 8 72 p)
better copy p (some (seq, c, text)) =
    if ltb seq (from_le (take 8 p))
    then some (from_le (take 8 p), copy, slice 8 72 p)
    else some (seq, c, text)

module _ (aead : Aead) (s : Storage) where
  unfoldable pub write_piece : ℕ → ℕ → Header → M s (Unit {0})
  unfolding piece_plain piece_aad piece_offset
  write_piece copy piece h b = (
    done tt,
    record b {
      file =
          s.write b.file (piece_offset copy)
            (aead.seal b.drawn (piece_aad piece) (piece_plain h piece (piece_len - aead.overhead)));
      drawn = suc b.drawn;
    },
  )

  -- What a piece opens to: none when it was never written.
  abbrev pub opened : Option (List ℕ) → Io (Option (List ℕ))
  opened none = failed (tampered none)
  opened (some p) = done (some p)

  unfoldable pub read_piece : s.File → ℕ → ℕ → Io (Option (List ℕ))
  unfolding all_zero piece_aad piece_offset
  read_piece f copy piece =
      let raw = s.read f (piece_offset copy) piece_len in
      if all_zero raw then done none else opened (aead.open_in_place (piece_aad piece) raw)

  abbrev pub choose_copy : ℕ → Io (Option (List ℕ)) → Best → Best
  choose_copy copy (done (some p)) best = better copy p best
  choose_copy copy (done none) best = best
  choose_copy copy (failed e) best = best

  abbrev pub take_best : Best → Header → Header
  take_best none h = h
  take_best (some (seq, copy, p)) h = record {
    bytes = copied 0 p h.bytes;
    seq = seq;
    newest_copy = copy;
  }

  abbrev pub take_header_part : ℕ → Io (Option (List ℕ)) → Header → Header
  take_header_part at (done (some p)) h = record h { bytes = copied at (take 128 p) h.bytes }
  take_header_part at (done none) h = h
  take_header_part at (failed e) h = h

  -- A piece that does not open leaves zeros, or what was there.
  unfoldable pub load_header : s.File → Header → Header
  unfolding read_piece better copied
  load_header f h =
      let best = choose_copy 1 (read_piece f 1 0) (choose_copy 0 (read_piece f 0 0) none) in
      take_header_part 192 (read_piece f 3 2)
        (take_header_part 64 (read_piece f 2 1) (take_best best h))

  abbrev pub piece_if_changed : Bool → ℕ → ℕ → Header → M s (Unit {0})
  piece_if_changed true copy piece h b = write_piece copy piece h b
  piece_if_changed false copy piece h b = (done tt, b)

  abbrev pub differ : ℕ → ℕ → List ℕ → List ℕ → Bool
  differ from to before now = not (list_eq (slice from to before) (slice from to now))

  -- The first piece, in the copy that is not the newest.
  abbrev pub first_piece_if_changed : Bool → Header → M s (Unit {0})
  first_piece_if_changed true h b =
      let next = record h { seq = suc h.seq } in
      let copy = other_copy h.newest_copy in
      (◌>>◌ s (write_piece copy 0 next))
        (λ b. (done tt, record b { header = record next { newest_copy = copy } })) b
  first_piece_if_changed false h b = (done tt, b)

  abbrev pub write_pieces : List ℕ → Header → M s (Unit {0})
  write_pieces before h b =
      (◌>>◌ s (
          (◌>>◌ s (piece_if_changed (differ 64 192 before h.bytes) 2 1 h))
            (piece_if_changed (differ 192 320 before h.bytes) 3 2 h)))
        (first_piece_if_changed (differ 0 64 before h.bytes) h) b

  unfoldable pub write_header_range : ℕ → List ℕ → M s (Unit {0})
  unfolding write_piece all_zero copied
  write_header_range offset new b =
      let n = min (length new) (redb_header_len - offset) in
      let before = b.header.bytes in
      let h = record b.header {
        bytes = if ltb 0 n then copied offset (take n new) before else before;
      } in
      let held = record b { header = h } in
      if not (all_zero (drop n new))
      then (failed (invalid_input "write into the unused part of redb's header page"), b)
      else if b.read_only
      then (done tt, held)
      else write_pieces before h held

  -- `noise` are the random bytes of the call.
  unfoldable pub init_pieces : List ℕ → M s (Unit {0})
  unfolding zeros
  init_pieces noise b = (
    done tt,
    record b {
      file = s.write b.file file_header_len noise;
      header = record { bytes = zeros redb_header_len; seq = 0; newest_copy = 0 };
    },
  )
