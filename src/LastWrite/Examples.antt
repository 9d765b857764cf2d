-- ===== src/LastWrite/Examples.antt =====
-- A table of two rows that is replaced by one row, with keys that begin with the length of the
-- table's name.
use clove1db.Prelude.{
  ℕ, ◌≡◌, refl, List, [], ◌∷◌, ◌++◌, Option, none, some, length, take, drop, list_eq,
  take-length_append, drop-length_append,
}
use clove1db.Prelude.Bytes.{Text}
use clove1db.Journal.Row.{table_reset}
use clove1db.LastWrite.{Writes, number_at, put, retain, is_other, put_all, apply}
use clove1db.LastWrite.Laws.{written, apply-written}

abbrev row_key : Text → Text → List ℕ
row_key t r = length t ∷ t ++ r

abbrev parse_key : List ℕ → Option (Text × Text)
parse_key [] = none
parse_key (n ∷ rest) = some (take n rest, drop n rest)

parse-row_key : (t r : Text) → parse_key (row_key t r) ≡ some (t, r)
parse-row_key t r = rw (take-length_append t r, drop-length_append t r)

abbrev notes : Text
notes = b'n' ∷ []

abbrev rows_now : Text → List Text
rows_now t = (b'b' ∷ []) ∷ []

abbrev writes : Writes
writes = (row_key notes (b'a' ∷ []), 3) ∷ (row_key notes (b'b' ∷ []), 4) ∷ []

-- The row that the new image has not is forgotten.
forgotten :
    number_at
      (row_key notes (b'a' ∷ []))
      (apply row_key parse_key rows_now (table_reset notes []) 9 writes)
    ≡ none
unfolding number_at apply put_all put retain is_other list_eq
forgotten = refl

apply-written_example :
    number_at
      (row_key notes (b'b' ∷ []))
      (apply row_key parse_key rows_now (table_reset notes []) 9 writes)
    ≡ written rows_now
        (table_reset notes [])
        9
        notes
        (b'b' ∷ [])
        (number_at (row_key notes (b'b' ∷ [])) writes)
apply-written_example =
    apply-written row_key parse_key parse-row_key rows_now (table_reset notes []) 9 writes notes
      (b'b' ∷ [])
