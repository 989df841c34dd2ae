-- ===== src/Text/Bytes.antt =====
-- Byte strings: the parts of std::string_view and <cctype> that src/magic/common/string_reader.h
-- calls, in the C locale.
use magic_core.Prelude.{
  ℕ, suc, ◌+◌, ◌-◌, ◌*◌, ◌^◌, ltb, ◌≡◌, refl, Bool, true, false, ◌&&◌, ◌||◌, Option, none, some,
  List, [], ◌∷◌, arith, leb, ◌==◌, if◌then◌else◌, length, take, drop,
}
use magic_core.Prelude.Int.{ℤ, pos, neg}
use mathlib.Core.Option
use Prim.Native.Char.{code}
use Prim.Native.String.{String}

abbrev pub Bytes : Type 0
Bytes = List ℕ

-- The bytes of an ASCII literal.
abbrev pub bytes : String → Bytes
bytes String.[] = []
bytes (String.◌∷◌ c s) = code c ∷ bytes s

abbrev pub is_space : ℕ → Bool
is_space c = c == 32 || (leb 9 c && leb c 13)

abbrev pub is_digit : ℕ → Bool
is_digit c = leb b'0' c && leb c b'9'

abbrev pub is_alnum : ℕ → Bool
is_alnum c = is_digit c || ((leb b'a' c && leb c b'z') || (leb b'A' c && leb c b'Z'))

-- find_first_of with one character; `none` is npos.
pub find_first_of : ℕ → Bytes → Option ℕ
find_first_of ch [] = none
find_first_of ch (c ∷ s) = if c == ch then some 0 else Option.map suc (find_first_of ch s)

pub starts_with : Bytes → Bytes → Bool
starts_with [] s = true
starts_with (p ∷ ps) [] = false
starts_with (p ∷ ps) (c ∷ s) = p == c && starts_with ps s

-- find with a string.
unfoldable pub find : Bytes → Bytes → Option ℕ
unfolding starts_with
find pat [] = if starts_with pat [] then some 0 else none
find pat (c ∷ s) = if starts_with pat (c ∷ s) then some 0 else Option.map suc (find pat s)

-- The bytes before the first `ch`, and those from it on; all bytes come first where there is none.
unfoldable pub before : ℕ → Bytes → Bytes
before ch [] = []
before ch (c ∷ s) = if c == ch then [] else c ∷ before ch s

unfoldable pub from : ℕ → Bytes → Bytes
from ch [] = []
from ch (c ∷ s) = if c == ch then c ∷ s else from ch s

unfoldable pub contains : ℕ → Bytes → Bool
contains ch [] = false
contains ch (c ∷ s) = c == ch || contains ch s

unfoldable pub skip_space : Bytes → Bytes
skip_space [] = []
skip_space (c ∷ s) = if is_space c then skip_space s else c ∷ s

-- What find_first_of finds splits the bytes.
pub find_first_of_cases :
    (ch : ℕ) (s : Bytes)
    → (find_first_of ch s ≡ (if contains ch s then some (length (before ch s)) else none))
      × (take (length (before ch s)) s ≡ before ch s)
      × (drop (length (before ch s)) s ≡ from ch s)
unfolding find_first_of contains before from
find_first_of_cases ch [] = (refl, refl, refl)
find_first_of_cases ch (c ∷ s) = ground (arith, find_first_of_cases ch s)

-- The number that a run of decimal digits stands for, read after `acc`, and the bytes behind it.
unfoldable pub read_digits : ℕ → Bytes → ℕ × Bytes
read_digits acc [] = (acc, [])
read_digits acc (c ∷ s) =
    let more = read_digits (acc * 10 + (c - b'0')) s in if is_digit c then more else (acc, c ∷ s)

abbrev pub head_is_digit : Bytes → Bool
head_is_digit [] = false
head_is_digit (c ∷ s) = is_digit c

-- Without the sign: the value if it fits under `limit`, and the bytes that are left.
pub from_digits : (ℕ → ℤ) → ℕ → Bytes → Bytes → Option ℤ × Bytes
unfolding read_digits
from_digits sign limit whole s =
    if head_is_digit s
    then (let (n, rest) = read_digits 0 s in (if ltb n limit then some (sign n) else none, rest))
    else (none, whole)

-- std::from_chars for an int, base 10: what is stored, if anything, and the bytes from `ptr` on.
unfoldable pub from_chars : Bytes → Option ℤ × Bytes
unfolding from_digits
from_chars [] = (none, [])
from_chars (c ∷ s) =
    if c == b'-'
    then from_digits neg (2 ^ 31 + 1) (c ∷ s) s
    else from_digits pos (2 ^ 31) (c ∷ s) (c ∷ s)
