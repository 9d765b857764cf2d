-- ===== src/Prelude/Bytes.antt =====
-- Bytes as numbers: big-endian words as `to_be_bytes` and `from_be_bytes` of Rust's integers write
-- and read them, and the UTF-8 test of `String::from_utf8`. A Rust `String` is its UTF-8 bytes.
use Prim.Native.Nat.{ℕ, zero, suc, ◌+◌, ◌*◌, ◌/◌, ◌%◌, ◌^◌, ◌<◌}
use mathlib.Core.Path.{◌≡◌, refl, ◌∙◌}
use mathlib.Core.Bool.{Bool, ◌&&◌, ◌||◌}
use mathlib.Core.List.{List, [], ◌∷◌, ◌++◌}
use native.Mathlib.Omega.{arith}
use native.Mathlib.Nat.{pow-suc}
use clove1db.Prelude.Tests.{leb, ◌==◌, if◌then◌else◌}
use clove1db.Prelude.Lists.{length, length-append, All, All-append}

abbrev pub Text : Type 0
Text = List ℕ

abbrev pub IsByte : ℕ → Type 0
IsByte b = b < 256

abbrev pub u64_mod : ℕ
u64_mod = 2 ^ 64

-- The last `n` bytes of `v`, the highest first.
unfoldable pub to_be : ℕ → ℕ → List ℕ
to_be zero v = []
to_be (suc n) v = to_be n (v / 256) ++ v % 256 ∷ []

unfoldable pub from_be_acc : ℕ → List ℕ → ℕ
from_be_acc acc [] = acc
from_be_acc acc (b ∷ rest) = from_be_acc (acc * 256 + b) rest

unfoldable pub from_be : List ℕ → ℕ
unfolding from_be_acc
from_be = from_be_acc 0

pub length-to_be : (n v : ℕ) → length (to_be n v) ≡ n
unfolding to_be
length-to_be zero v = refl
length-to_be (suc n) v =
    omega (arith, length-append (to_be n (v / 256)) (v % 256 ∷ []), length-to_be n (v / 256))

pub to_be-IsByte : (n v : ℕ) → All IsByte (to_be n v)
unfolding to_be
to_be-IsByte zero v = tt
to_be-IsByte (suc n) v =
    All-append IsByte (to_be n (v / 256)) _ (to_be-IsByte n (v / 256)) (omega arith, tt)

from_be_acc-snoc :
    (acc : ℕ) (xs : List ℕ) (b : ℕ) → from_be_acc acc (xs ++ b ∷ []) ≡ from_be_acc acc xs * 256 + b
unfolding from_be_acc
from_be_acc-snoc acc [] b = refl
from_be_acc-snoc acc (x ∷ xs) b = from_be_acc-snoc (acc * 256 + x) xs b

-- `from_be_bytes(to_be_bytes(v))` is `v` where `v` fits the width.
pub from_be-to_be : (n v : ℕ) → v < 256 ^ n → from_be (to_be n v) ≡ v
unfolding from_be to_be
from_be-to_be zero v h = omega arith
from_be-to_be (suc n) v h =
    from_be_acc-snoc 0 (to_be n (v / 256)) (v % 256)
    ∙ omega (arith, from_be-to_be n (v / 256) (omega (arith, pow-suc 256 n)))

abbrev pub between : ℕ → ℕ → ℕ → Bool
between lo hi b = leb lo b && leb b hi

-- How many continuation bytes follow a lead byte, and the range of the first of them.
abbrev pub continuations : ℕ → ℕ
continuations b = if leb b 0x7f then 0 else if leb b 0xdf then 1 else if leb b 0xef then 2 else 3

abbrev pub first_low : ℕ → ℕ
first_low b = if b == 0xe0 then 0xa0 else if b == 0xf0 then 0x90 else 0x80

abbrev pub first_high : ℕ → ℕ
first_high b = if b == 0xed then 0x9f else if b == 0xf4 then 0x8f else 0xbf

-- `need` continuation bytes are due, the first of them in lo..=hi.
unfoldable pub utf8_from : ℕ → ℕ → ℕ → List ℕ → Bool
utf8_from need lo hi [] = need == 0
utf8_from zero lo hi (b ∷ rest) =
    (leb b 0x7f || between 0xc2 0xf4 b)
    && utf8_from (continuations b) (first_low b) (first_high b) rest
utf8_from (suc need) lo hi (b ∷ rest) = between lo hi b && utf8_from need 0x80 0xbf rest

unfoldable pub is_utf8 : List ℕ → Bool
unfolding utf8_from
is_utf8 = utf8_from 0 0x80 0xbf
