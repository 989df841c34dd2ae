-- ===== src/Net/Header.antt =====
-- src/magic/net/http/header.h and header.cpp: the fields of an HTTP response.
pub mod Total
pub mod Fields
mod Examples
use magic_core.Prelude.{
  ℕ, zero, suc, ◌+◌, List, [], ◌∷◌, Option, none, some, Bool, true, false, length,
}
use magic_core.Text.Bytes.{Bytes, bytes}
use magic_core.Text.Reader.{
  Reader, reader, has_next, skip_one, skip_spaces, skip_until_text, skip_line, read_until,
  read_to_end_line,
}
use magic_core.Net.Dictionary.{Dictionary, insert, find}

pub data Outcome : Type 0 where
  parsed : Dictionary → Outcome
  assertion : Outcome  -- an assert of StringReader fails
  out_of_fuel : Outcome

-- The value of a field: SkipSpaces, then ReadToEndLine.
pub read_value : Reader → Bytes × Reader
read_value r = read_to_end_line (skip_spaces r)

-- The loop of HttpHeader::Parse.
pub parse_fields : ℕ → Reader → Dictionary → Outcome
unfolding read_value
parse_fields zero r d = out_of_fuel
parse_fields (suc fuel) r d = elim (has_next (skip_spaces r)) [
  | false ↦ parsed d
  | true ↦
      let (key, at_colon) = read_until 58 (skip_spaces r) in
      elim (skip_one at_colon) [
        | none ↦ assertion
        | some behind ↦
            let (value, rest) = read_value behind in parse_fields fuel rest (insert key value d)
      ]
]

-- HttpHeader::Parse. The loop drops a character in each round.
pub parse : Bytes → Outcome
parse s = parse_fields (suc (length s)) (skip_line (skip_until_text (bytes "HTTP") (reader s))) []

-- HttpHeader::operator[]: an empty value where the key is missing.
pub get : Bytes → Dictionary → Bytes
get key d = elim (find key d) [ none ↦ [] | some value ↦ value ]
