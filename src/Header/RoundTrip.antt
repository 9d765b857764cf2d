-- ===== src/Header/RoundTrip.antt =====
-- What is locked comes back.
use clove1db.Prelude.{
  ℕ, ==_iff, ◌*◌, ◌≤◌, ◌≡◌, refl, sym, ◌∙◌, ap, Bool, not, ◌||◌, true, false, List, ◌++◌, length,
  take, drop, ltb, ◌==◌, if◌then◌else◌, arith, length-append, take-length_append,
  drop-length_append, length-drop,
}
use clove1db.Prelude.Results.{ok, err, io_error}
use clove1db.Geometry.{file_header_len}
use clove1db.Header.{
  lock_len, LockedDataKey, done, failed, looks_like_unencrypted, encode_header, decode_header,
  starts_with, plain_signature,
}

ltb-false : (n : ℕ) → n ≡ 2048 → ltb n 2048 ≡ false
ltb-false n h = ground arith

done-parts :
    (n : ℕ) (locked : LockedDataKey) (rest bytes : List ℕ)
    → (if not (length locked.read == n) || not (length locked.search == n)
        then err (io_error "locked key does not match the cipher")
        else ok (locked.read ++ (locked.search ++ rest)))
      ≡ ok bytes
    → (length locked.read ≡ n)
      × (length locked.search ≡ n)
      × (locked.read ++ (locked.search ++ rest) ≡ bytes)
done-parts n locked rest bytes h =
    go (length locked.read == n) (length locked.search == n) refl refl h
  where
    go :
        (a b : Bool)
        → (length locked.read == n) ≡ a
        → (length locked.search == n) ≡ b
        → (if not a || not b
            then err (io_error "locked key does not match the cipher")
            else ok (locked.read ++ (locked.search ++ rest)))
          ≡ ok bytes
        → (length locked.read ≡ n)
          × (length locked.search ≡ n)
          × (locked.read ++ (locked.search ++ rest) ≡ bytes)
    go true true ea eb h =
        ((==_iff (length locked.read) n).0 ea, (==_iff (length locked.search) n).0 eb, cc h)
    go true false ea eb h = cc
    go false b ea eb h = cc

parts-of :
    (n : ℕ) (locked : LockedDataKey) (rest : List ℕ)
    → length locked.read ≡ n
    → length locked.search ≡ n
    → let bytes = locked.read ++ (locked.search ++ rest) in
      (take n bytes ≡ locked.read) × (take n (drop n bytes) ≡ locked.search)
parts-of n locked rest er es =
    let bytes = locked.read ++ (locked.search ++ rest) in
    let dropped =
      ap (λ k. drop k bytes) (sym er) ∙ drop-length_append locked.read (locked.search ++ rest) in
    (
      ap (λ k. take k bytes) (sym er) ∙ take-length_append locked.read (locked.search ++ rest),
      ap (take n) dropped
          ∙ ap (λ k. take k (locked.search ++ rest)) (sym es)
          ∙ take-length_append locked.search rest,
    )

-- Where a header was made over filler of the header's length, and the two locked keys fit it, decoding
-- it gives the locked keys back, unless its first bytes spell the signature of an unencrypted file:
-- then it is taken for one.
pub decode_header-encode_header :
    (filler : List ℕ) (overhead : ℕ) (locked : LockedDataKey) (bytes : List ℕ)
    → length filler ≡ file_header_len
    → 2 * lock_len overhead ≤ file_header_len
    → encode_header filler overhead locked ≡ ok bytes
    → decode_header overhead bytes
      ≡ (if starts_with bytes plain_signature then failed looks_like_unencrypted else done locked)
unfolding encode_header decode_header
decode_header-encode_header filler overhead locked bytes hf hn h =
    let n = lock_len overhead in
    let rest = drop (2 * n) filler in
    let (er, es, eb) = done-parts n locked rest bytes h in
    let (p, q) = parts-of n locked rest er es in
    let whole : ltb (length (locked.read ++ (locked.search ++ rest))) 2048 ≡ false =
      ltb-false (length (locked.read ++ (locked.search ++ rest))) (
        omega (
          arith,
          length-append locked.read (locked.search ++ rest),
          length-append locked.search rest,
          length-drop (2 * n) filler,
          er,
          es,
          hf,
          hn,
        )) in
    rw⁻¹ (eb) (rw (whole, p, q) refl)
