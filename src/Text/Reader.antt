-- ===== src/Text/Reader.antt =====
-- src/magic/common/string_reader.h: a cursor over a byte string. `none` is a failed assertion.
-- ReadDouble, which hands its text to std::stod, is not modelled.
pub mod Laws
mod Examples
use mathlib.Core.Option
use magic_core.Prelude.{
  ℕ, zero, suc, ◌+◌, Bool, true, false, not, Option, none, some, List, [], ◌∷◌, leb, ◌==◌,
  if◌then◌else◌, length, take, drop, min,
}
use magic_core.Prelude.Int.{ℤ}
use magic_core.Text.Bytes.{Bytes, is_space, is_digit, is_alnum, find_first_of, find, from_chars}

pub record Reader : Type 0 where
  pub source : Bytes

-- StringReader(s)
abbrev pub reader : Bytes → Reader
reader s = record { source = s }

abbrev head? : Bytes → Option ℕ
head? [] = none
head? (c ∷ s) = some c

abbrev null : Bytes → Bool
null [] = true
null (c ∷ s) = false

-- NextChar
abbrev pub next_char : Reader → Option ℕ
next_char r = head? r.source

abbrev pub is_empty : Reader → Bool
is_empty r = null r.source

abbrev pub has_next : Reader → Bool
has_next r = not (is_empty r)

-- Next(ch)
abbrev pub next : ℕ → Reader → Option Bool
next ch r = Option.map (λ c. c == ch) (next_char r)

abbrev pub next_digit : Reader → Option Bool
next_digit r = Option.map is_digit (next_char r)

-- NextAlpha tests isalnum: a digit passes too.
abbrev pub next_alpha : Reader → Option Bool
next_alpha r = Option.map is_alnum (next_char r)

abbrev pub next_space : Reader → Option Bool
next_space r = next 32 r

-- source_.remove_prefix(count)
abbrev remove_prefix : ℕ → Reader → Reader
remove_prefix count r = record { source = drop count r.source }

pub skip : ℕ → Reader → Option Reader
skip count r = if leb count (length r.source) then some (remove_prefix count r) else none

pub skip_one : Reader → Option Reader
unfolding skip
skip_one r = skip 1 r

-- The loops of SkipSpaces and SkipDigits: each round drops one character.
skip_while : (ℕ → Bool) → Bytes → Bytes
skip_while test [] = []
skip_while test (c ∷ s) = if test c then skip_while test s else c ∷ s

pub skip_spaces : Reader → Reader
unfolding skip_while
skip_spaces r = record { source = skip_while is_space r.source }

pub skip_digits : Reader → Reader
unfolding skip_while
skip_digits r = record { source = skip_while is_digit r.source }

abbrev or_else : Option ℕ → ℕ → ℕ
or_else none d = d
or_else (some n) d = n

-- SkipUntil(char)
pub skip_until : ℕ → Reader → Reader
skip_until ch r = remove_prefix (or_else (find_first_of ch r.source) (length r.source)) r

after_offset : Option ℕ → ℕ → ℕ
after_offset none size = size
after_offset (some offset) size = min (offset + 1) size

pub skip_after : ℕ → Reader → Reader
unfolding after_offset
skip_after ch r = remove_prefix (after_offset (find_first_of ch r.source) (length r.source)) r

-- SkipUntilSpace and SkipAfterSpace
abbrev pub skip_until_space : Reader → Reader
skip_until_space r = skip_until 32 r

abbrev pub skip_after_space : Reader → Reader
skip_after_space r = skip_after 32 r

pub drop_return : Bytes → Bytes
drop_return [] = []
drop_return (c ∷ s) = if c == 13 then s else c ∷ s

pub skip_line : Reader → Reader
unfolding skip_after drop_return
skip_line r = record { source = drop_return (skip_after 10 r).source }

-- SkipUntil(string_view)
pub skip_until_text : Bytes → Reader → Reader
skip_until_text s r = remove_prefix (or_else (find s r.source) (length r.source)) r

pub read_one : Reader → Option (ℕ × Reader)
read_one r = elim r.source [ [] ↦ none | c ∷ s ↦ some (c, reader s) ]

read_until_found : Reader → Option ℕ → Bytes × Reader
read_until_found r none = ([], reader [])
read_until_found r (some offset) = (take offset r.source, remove_prefix offset r)

starts : ℕ → Bytes → Bool
starts ch [] = true
starts ch (c ∷ s) = c == ch

pub read_until : ℕ → Reader → Bytes × Reader
unfolding read_until_found starts
read_until ch r =
    if starts ch r.source then ([], r) else read_until_found r (find_first_of ch r.source)

abbrev pub read_until_space : Reader → Bytes × Reader
read_until_space r = read_until 32 r

pub read_to_end_line : Reader → Bytes × Reader
unfolding read_until skip_line
read_to_end_line r = let (result, rest) = read_until 10 r in (result, skip_line rest)

-- ReadInt. `none`: the int that it returns was never written.
unfoldable pub read_int : Reader → Option ℤ × Reader
read_int r = let (value, rest) = from_chars r.source in (value, reader rest)
