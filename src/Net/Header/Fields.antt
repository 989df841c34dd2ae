-- ===== src/Net/Header/Fields.antt =====
-- What HttpHeader::Parse makes of a field, and of a whole response header.
use mathlib.Core.List.{append_assoc}
use magic_core.Prelude.{
  ℕ, zero, suc, ◌≤◌, ◌<◌, ◌≡◌, refl, List, [], ◌∷◌, ◌++◌, none, some, true, false, length, arith,
  inl, inr, ap, ◌∙◌, sym, length-append, All,
}
use magic_core.Text.Bytes.{Bytes, bytes, contains, skip_space, is_space}
use magic_core.Text.Reader.{
  reader, has_next, skip_one, skip_spaces, skip_line, read_until, drop_return,
}
use magic_core.Text.Reader.Laws.{
  skip_spaces_lem, read_until_lem, read_to_end_line_lem, skip_one_cases, before-append, from-append,
  contains-append, skip_space-append, skip_space-drop_return, skip_until-http, skip_line-append,
  from_none,
}
use magic_core.Net.Dictionary.{Dictionary, insert}
use magic_core.Net.Header.{parsed, assertion, read_value, parse_fields, parse}

-- A text that does not begin with white space.
abbrev pub IsUnspaced : Bytes → Type 0
IsUnspaced [] = Unit {0}
IsUnspaced (c ∷ s) = is_space c ≡ false

abbrev pub IsFilled : Bytes → Type 0
IsFilled [] = ⊥
IsFilled (c ∷ s) = is_space c ≡ false

blank : skip_space (32 ∷ []) ≡ []
unfolding skip_space
blank = refl

blank_line : skip_space (13 ∷ 10 ∷ []) ≡ []
unfolding skip_space
blank_line = refl

skip_space-key : (k s : Bytes) → IsUnspaced k → skip_space (k ++ 58 ∷ s) ≡ k ++ 58 ∷ s
unfolding skip_space
skip_space-key [] s h = ground arith
skip_space-key (c ∷ k) s h = ground (arith, h)

skip_space-filled : (v s : Bytes) → IsFilled v → skip_space (v ++ s) ≡ v ++ s
unfolding skip_space
skip_space-filled [] s h = absurd h
skip_space-filled (c ∷ v) s h = ground (arith, h)

skip_space_filled : (v : Bytes) → IsFilled v → skip_space v ≡ v
unfolding skip_space
skip_space_filled [] h = absurd h
skip_space_filled (c ∷ v) h = ground (arith, h)

read_value_lem :
    (gap v rest : Bytes)
    → skip_space gap ≡ []
    → IsFilled v
    → contains 10 v ≡ false
    → read_value (reader (gap ++ (v ++ 10 ∷ rest))) ≡ (v, reader (drop_return rest))
unfolding read_value
read_value_lem gap v rest blank filled line =
    rw
      (
        skip_spaces_lem,
        skip_space-append gap (v ++ 10 ∷ rest) blank,
        skip_space-filled v (10 ∷ rest) filled,
        read_to_end_line_lem,
        contains-append 10 v rest,
        before-append 10 v rest line,
        from-append 10 v rest line,
      )
      refl

has_next_key : (k s : Bytes) → has_next (reader (k ++ 58 ∷ s)) ≡ true
has_next_key [] s = refl
has_next_key (c ∷ k) s = refl

skip_one_nil : skip_one (reader []) ≡ none
skip_one_nil = ground (arith, skip_one_cases (reader []))

has_next_filled : (s : Bytes) → IsFilled s → has_next (reader s) ≡ true
has_next_filled [] h = absurd h
has_next_filled (c ∷ s) h = refl

skip_one_colon : (s : Bytes) → skip_one (reader (58 ∷ s)) ≡ some (reader s)
skip_one_colon s = elim (skip_one_cases (reader (58 ∷ s))) [
  | inl (e, _) ↦ absurd (ground (arith, e))
  | inr (c, rest, e, behind) ↦ ground (arith, e, behind)
]

-- One round of the parser. The blanks behind the colon may include line ends.
parse_round :
    (fuel : ℕ) (k gap v rest : Bytes) (d : Dictionary)
    → IsUnspaced k
    → contains 58 k ≡ false
    → skip_space gap ≡ []
    → IsFilled v
    → contains 10 v ≡ false
    → parse_fields (suc fuel) (reader (k ++ 58 ∷ (gap ++ (v ++ 10 ∷ rest)))) d
      ≡ parse_fields fuel (reader (drop_return rest)) (insert k v d)
unfolding parse_fields
parse_round fuel k gap v rest d unspaced free blank filled line =
    let tail = gap ++ (v ++ 10 ∷ rest) in
    let start : skip_spaces (reader (k ++ 58 ∷ tail)) ≡ reader (k ++ 58 ∷ tail) =
      skip_spaces_lem _ ∙ ap reader (skip_space-key k tail unspaced) in
    let name : read_until 58 (reader (k ++ 58 ∷ tail)) ≡ (k, reader (58 ∷ tail)) =
      rw
        (
          read_until_lem,
          contains-append 58 k tail,
          before-append 58 k tail free,
          from-append 58 k tail free,
        )
        refl in
    let value = read_value_lem gap v rest blank filled line in
    ground (arith, start, has_next_key k tail, name, skip_one_colon tail, value)

-- A line end that was dropped early makes no difference to the next round.
parse_fields-drop_return :
    (fuel : ℕ) (rest : Bytes) (d : Dictionary)
    → parse_fields fuel (reader (drop_return rest)) d ≡ parse_fields fuel (reader rest) d
unfolding parse_fields
parse_fields-drop_return zero rest d = refl
parse_fields-drop_return (suc fuel) rest d =
    let same : skip_spaces (reader (drop_return rest)) ≡ skip_spaces (reader rest) =
      skip_spaces_lem _ ∙ ap reader (skip_space-drop_return rest) ∙ sym (skip_spaces_lem _) in
    ground (arith, same)

-- The fields as a server sends them, and the blank line.
abbrev pub header_text : List (Bytes × Bytes) → Bytes
header_text [] = 13 ∷ 10 ∷ []
header_text ((k, v) ∷ fs) = k ++ 58 ∷ ((32 ∷ []) ++ ((v ++ 13 ∷ []) ++ 10 ∷ header_text fs))

-- A key without a colon, a value that is not empty; neither begins with white space.
abbrev pub IsField : Bytes × Bytes → Type 0
IsField (k, v) = IsUnspaced k × (contains 58 k ≡ false) × IsFilled v × (contains 10 v ≡ false)

-- The dictionary that the parser builds: each value with the carriage return of its line.
abbrev pub store_all : List (Bytes × Bytes) → Dictionary → Dictionary
store_all [] d = d
store_all ((k, v) ∷ fs) d = store_all fs (insert k (v ++ 13 ∷ []) d)

contains-return : (v : Bytes) → contains 10 v ≡ false → contains 10 (v ++ 13 ∷ []) ≡ false
unfolding contains
contains-return [] h = refl
contains-return (c ∷ v) h = ground (arith, contains-return v)

IsFilled-append : (v s : Bytes) → IsFilled v → IsFilled (v ++ s)
IsFilled-append [] s h = absurd h
IsFilled-append (c ∷ v) s h = h

parse-header_text :
    (fuel : ℕ) (fs : List (Bytes × Bytes)) (d : Dictionary)
    → length fs < fuel
    → All IsField fs
    → parse_fields fuel (reader (header_text fs)) d ≡ parsed (store_all fs d)
unfolding parse_fields
parse-header_text zero fs d h ok = absurd (omega arith)
parse-header_text (suc fuel) [] d h ok =
    ground (arith, skip_spaces_lem (reader (13 ∷ 10 ∷ [])), blank_line)
parse-header_text (suc fuel) ((k, v) ∷ fs) d h ok =
    let (unspaced, free, filled, line) = ok.0 in
    parse_round fuel k (32 ∷ []) (v ++ 13 ∷ []) (header_text fs) d unspaced free blank
      (IsFilled-append v (13 ∷ []) filled) (contains-return v line)
    ∙ parse_fields-drop_return fuel (header_text fs) (insert k (v ++ 13 ∷ []) d)
    ∙ parse-header_text fuel fs (insert k (v ++ 13 ∷ []) d) (omega arith) ok.1

length-header_text : (fs : List (Bytes × Bytes)) → length fs ≤ length (header_text fs)
length-header_text [] = omega arith
length-header_text ((k, v) ∷ fs) = omega (
  arith,
  length-append k (58 ∷ ((32 ∷ []) ++ ((v ++ 13 ∷ []) ++ 10 ∷ header_text fs))),
  length-append (v ++ 13 ∷ []) (10 ∷ header_text fs),
  length-header_text fs,
)

skip_status :
    (s rest : Bytes)
    → contains 10 s ≡ false
    → skip_line (reader (s ++ 13 ∷ 10 ∷ rest)) ≡ reader (drop_return rest)
skip_status s rest line =
    ap (λ t. skip_line (reader t)) (sym (append_assoc s (13 ∷ []) (10 ∷ rest)))
    ∙ skip_line-append (s ++ 13 ∷ []) rest (contains-return s line)

contains-http : (s : Bytes) → contains 10 (bytes "HTTP" ++ s) ≡ contains 10 s
unfolding contains
contains-http s = refl

-- A response that begins with "HTTP", has no line end in its status line, and has fields whose keys
-- hold no colon, whose values are not empty and hold no line end, neither beginning with white
-- space, is parsed into exactly these fields, a later value replacing an earlier one of the same
-- key. Each stored value keeps the carriage return that ended its line.
pub parse_response :
    (status : Bytes) (fs : List (Bytes × Bytes))
    → contains 10 status ≡ false
    → All IsField fs
    → parse (bytes "HTTP" ++ (status ++ 13 ∷ 10 ∷ header_text fs)) ≡ parsed (store_all fs [])
unfolding parse
parse_response status fs line ok =
    let whole = bytes "HTTP" ++ (status ++ 13 ∷ 10 ∷ header_text fs) in
    let fuel = suc (length whole) in
    let start =
      ap skip_line (skip_until-http (status ++ 13 ∷ 10 ∷ header_text fs))
      ∙ skip_status (bytes "HTTP" ++ status) (header_text fs) (contains-http status ∙ line) in
    ap (λ r. parse_fields fuel r []) start
    ∙ parse_fields-drop_return fuel (header_text fs) []
    ∙ parse-header_text fuel fs []
        (omega (arith, length-header_text fs, length-append status (13 ∷ 10 ∷ header_text fs))) ok

-- A field with an empty value takes the whole next line for its value, so that the field of that
-- line is lost: for every key, every next line and every text behind it.
pub parse_empty_value :
    (fuel : ℕ) (k line rest : Bytes) (d : Dictionary)
    → IsUnspaced k
    → contains 58 k ≡ false
    → IsFilled line
    → contains 10 line ≡ false
    → parse_fields (suc fuel) (reader (k ++ 58 ∷ 13 ∷ 10 ∷ (line ++ 10 ∷ rest))) d
      ≡ parse_fields fuel (reader rest) (insert k line d)
parse_empty_value fuel k line rest d unspaced free filled whole =
    parse_round fuel k (13 ∷ 10 ∷ []) line rest d unspaced free blank_line filled whole
    ∙ parse_fields-drop_return fuel rest (insert k line d)

-- A line without a colon, at the end of a response, fails an assertion of the reader: the text is
-- not white space only and holds no colon.
pub parse_no_colon :
    (fuel : ℕ) (s : Bytes) (d : Dictionary)
    → IsFilled s
    → contains 58 s ≡ false
    → parse_fields (suc fuel) (reader s) d ≡ assertion
unfolding parse_fields
parse_no_colon fuel s d filled free =
    let start : skip_spaces (reader s) ≡ reader s =
      skip_spaces_lem _ ∙ ap reader (skip_space_filled s filled) in
    let lost : (read_until 58 (reader s)).1 ≡ reader [] =
      rw (read_until_lem, from_none 58 s free) refl in
    ground (arith, start, has_next_filled s filled, lost, skip_one_nil)
