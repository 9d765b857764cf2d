-- ===== src/Base64/Alphabet.antt =====
-- The alphabet and the decoding table undo each other.
use clove1db.Prelude.{
  ℕ, zero, suc, ◌+◌, ◌-◌, ◌%◌, ◌<◌, ◌≤◌, ◌≡◌, ◌≢◌, refl, ◌∙◌, ap, Bool, true, false, not, ◌&&◌, [],
  ◌∷◌, length, ◌==◌, ==_iff, if◌then◌else◌, arith,
}
use clove1db.Prelude.Bytes.{Text}
use clove1db.Base64.{alphabet, char_at, table_from, encode_char, table}

-- A character is not in the rest of the alphabet.
unfoldable absent : ℕ → Text → Bool
absent c [] = true
absent c (x ∷ rest) = not (x == c) && absent c rest

unfoldable distinct : Text → Bool
distinct [] = true
distinct (x ∷ rest) = absent x rest && distinct rest

and-true : (a b : Bool) → (a && b) ≡ true → (a ≡ true) × (b ≡ true)
and-true true b h = (refl, h)
and-true false b h = cc

table_from-absent : (i : ℕ) (l : Text) (c : ℕ) → absent c l ≡ true → table_from i l c ≡ 255
unfolding table_from absent
table_from-absent i [] c h = refl
table_from-absent i (x ∷ l) c h = ground (arith, table_from-absent (suc i) l c)

absent-char_at : (c : ℕ) (l : Text) (v : ℕ) → v < length l → absent c l ≡ true → char_at l v ≢ c
unfolding absent char_at
absent-char_at c [] v h a = absurd (omega arith)
absent-char_at c (x ∷ l) zero h a = ground arith
absent-char_at c (x ∷ l) (suc v) h a = ground (arith, absent-char_at c l v)

-- The table holds the place of every character of the alphabet.
table_from-char_at :
    (l : Text) (i v : ℕ)
    → distinct l ≡ true
    → v < length l
    → i + length l < 255
    → table_from i l (char_at l v) ≡ i + v
unfolding table_from char_at distinct
table_from-char_at [] i v d h k = absurd (omega arith)
table_from-char_at (x ∷ l) i zero d h k =
    ground (arith, table_from-absent (suc i) l x (and-true (absent x l) (distinct l) d).0)
table_from-char_at (x ∷ l) i (suc v) d h k = ground (
  arith,
  table_from-char_at l (suc i) v (and-true (absent x l) (distinct l) d).1 (omega arith)
      (omega arith),
)

-- What the table does not map to 255 is the place of the character.
char_at-table_from :
    (l : Text) (i c : ℕ)
    → i + length l ≤ 255
    → table_from i l c ≢ 255
    → (i ≤ table_from i l c)
      × (table_from i l c < i + length l)
      × (char_at l (table_from i l c - i) ≡ c)
unfolding table_from char_at
char_at-table_from [] i c k h = absurd (h refl)
char_at-table_from (x ∷ l) i c k h =
    go (table_from (suc i) l c == 255) (x == c) refl refl
      (char_at-table_from l (suc i) c (omega arith)) h
  where
    later : ℕ
    later = table_from (suc i) l c

    value : Bool → Bool → ℕ
    value p q = if p then (if q then i else 255) else later

    go :
        (p q : Bool)
        → (later == 255) ≡ p
        → (x == c) ≡ q
        → (later ≢ 255
            → (suc i ≤ later) × (later < suc i + length l) × (char_at l (later - suc i) ≡ c))
        → value p q ≢ 255
        → (i ≤ value p q) × (value p q < i + suc (length l)) × (char_at (x ∷ l) (value p q - i) ≡ c)
    go true true e f ih ne =
        let zeroth : i - i ≡ 0 = omega arith in
        (omega arith, omega arith, ap (char_at (x ∷ l)) zeroth ∙ (==_iff x c).0 f)
    go true false e f ih ne = absurd (ne refl)
    go false q e f ih ne =
        let (ge, lt, eq) = ih ne in
        let next : later - i ≡ suc (later - suc i) = omega (arith, ge) in
        (omega (arith, ge), omega (arith, lt), ap (char_at (x ∷ l)) next ∙ eq)

alphabet-distinct : distinct alphabet ≡ true
unfolding distinct absent
alphabet-distinct = refl

pub table-encode_char : (v : ℕ) → table (encode_char v) ≡ v % 64
unfolding table encode_char
table-encode_char v =
    omega
      (arith, table_from-char_at alphabet 0 (v % 64) alphabet-distinct (omega arith) (omega arith))

pub encode_char-table : (c : ℕ) → table c ≢ 255 → (table c < 64) × (encode_char (table c) ≡ c)
unfolding table encode_char
encode_char-table c h =
    let (_, lt, eq) = char_at-table_from alphabet 0 c (omega arith) h in
    (lt, ap (char_at alphabet) (omega (arith, lt)) ∙ eq)
