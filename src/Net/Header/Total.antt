-- ===== src/Net/Header/Total.antt =====
-- HttpHeader::Parse always ends.
use magic_core.Prelude.{
  ℕ, zero, suc, ◌≤◌, ◌<◌, ◌≢◌, [], length, arith, inl, inr, ap, drop, length-drop,
}
use magic_core.Text.Bytes.{Bytes, bytes, from, skip_space}
use magic_core.Text.Reader.{Reader, reader, skip_spaces, skip_until_text, skip_line, read_until}
use magic_core.Text.Reader.Laws.{
  skip_spaces_lem, read_until_lem, read_to_end_line_lem, skip_one_cases, length-from,
  length-skip_space, length-drop_return, length-skip_line, length-skip_until_text,
}
use magic_core.Net.Dictionary.{Dictionary, insert}
use magic_core.Net.Header.{out_of_fuel, read_value, parse_fields, parse}

length-read_value : (r : Reader) → length (read_value r).1.source ≤ length r.source
unfolding read_value
length-read_value r =
    rw (skip_spaces_lem, read_to_end_line_lem)
      (omega (
        arith,
        length-drop_return (drop 1 (from 10 (skip_space r.source))),
        length-drop 1 (from 10 (skip_space r.source)),
        length-from 10 (skip_space r.source),
        length-skip_space r.source,
      ))

length-key : (r : Reader) → length (read_until 58 (skip_spaces r)).1.source ≤ length r.source
length-key r =
    rw (skip_spaces_lem, read_until_lem)
      (omega (arith, length-from 58 (skip_space r.source), length-skip_space r.source))

parse_fields_total :
    (fuel : ℕ) (r : Reader) (d : Dictionary)
    → length r.source < fuel
    → parse_fields fuel r d ≢ out_of_fuel
unfolding parse_fields
parse_fields_total zero r d h = absurd (omega arith)
parse_fields_total (suc fuel) r d h =
    let (key, at_colon) = read_until 58 (skip_spaces r) in
    elim (skip_one_cases at_colon) [
      | inl (_, none_left) ↦ ground (arith, none_left)
      | inr (c, rest, e, behind) ↦
          let (value, after) = read_value (reader rest) in
          ground (
            arith,
            behind,
            ap length e,
            length-key r,
            length-read_value (reader rest),
            parse_fields_total fuel after (insert key value d),
          )
    ]

-- Parsing ends on every text: the rounds allowed are enough, and the result is a dictionary or a
-- failed assertion.
pub parse_total : (s : Bytes) → parse s ≢ out_of_fuel
unfolding parse
parse_total s =
    parse_fields_total (suc (length s)) (skip_line (skip_until_text (bytes "HTTP") (reader s))) [] (
      omega (
        arith,
        length-skip_line (skip_until_text (bytes "HTTP") (reader s)),
        length-skip_until_text (bytes "HTTP") (reader s),
      ))
