-- ===== src/Text/Reader/Laws.antt =====
-- What each operation of the reader takes and leaves, for every text.
use magic_core.Prelude.{
  ℕ, zero, suc, ◌+◌, ◌≤◌, ◌<◌, ◌≡◌, refl, ◌∙◌, ◌⊎◌, ==_iff, inl, inr, Bool-cases, true, false, none,
  some, [], ◌∷◌, ◌++◌, arith, ◌==◌, if◌then◌else◌, length, drop, min, ap, drop-length, length-drop,
}
use magic_core.Text.Bytes.{
  Bytes, bytes, find, is_space, find_first_of_cases, before, from, contains, skip_space,
}
use magic_core.Text.Reader.{
  Reader, reader, skip_one, skip_while, skip_spaces, skip_until, skip_after, after_offset,
  drop_return, skip_line, read_until, read_to_end_line, skip_until_text,
}

pub from_none : (ch : ℕ) (s : Bytes) → contains ch s ≡ false → from ch s ≡ []
unfolding from contains
from_none ch [] h = refl
from_none ch (c ∷ s) h = ground (arith, from_none ch s)

pub skip_until_lem : (ch : ℕ) (r : Reader) → skip_until ch r ≡ reader (from ch r.source)
unfolding skip_until
skip_until_lem ch r =
    ground (arith, find_first_of_cases ch r.source, drop-length r.source, from_none ch r.source)

length-before : (ch : ℕ) (s : Bytes) → contains ch s ≡ true → length (before ch s) < length s
unfolding contains before
length-before ch [] h = cc
length-before ch (c ∷ s) h = ground (arith, length-before ch s)

drop-suc : (n : ℕ) (s : Bytes) → drop (suc n) s ≡ drop 1 (drop n s)
drop-suc zero s = refl
drop-suc (suc n) [] = refl
drop-suc (suc n) (c ∷ s) = drop-suc n s

pub skip_after_lem : (ch : ℕ) (r : Reader) → skip_after ch r ≡ reader (drop 1 (from ch r.source))
unfolding skip_after
skip_after_lem ch r = elim (Bool-cases (contains ch r.source)) [
  | inl there ↦
      let found = find_first_of_cases ch r.source in
      let fits : min (length (before ch r.source) + 1) (length r.source)
          ≡ suc (length (before ch r.source)) =
        omega (arith, length-before ch r.source there) in
      rw (found.0, there, after_offset, fits)
        (ap reader (drop-suc (length (before ch r.source)) r.source ∙ ap (drop 1) found.2))
  | inr missing ↦
      ground (
        arith,
        find_first_of_cases ch r.source,
        drop-length r.source,
        from_none ch r.source missing,
      )
]

read_until_source :
    (ch : ℕ) (s : Bytes)
    → read_until ch (reader s) ≡ (if contains ch s then before ch s else [], reader (from ch s))
unfolding read_until
read_until_source ch [] = unfold contains before from in refl
read_until_source ch (c ∷ s) = elim (Bool-cases (c == ch)) [
  | inl hit ↦ unfold contains before from in rw hit refl
  | inr miss ↦ ground (arith, find_first_of_cases ch (c ∷ s), from_none ch (c ∷ s))
]

pub read_until_lem :
    (ch : ℕ) (r : Reader)
    → read_until ch r
      ≡ (if contains ch r.source then before ch r.source else [], reader (from ch r.source))
read_until_lem ch r = read_until_source ch r.source

skip_while-is_space : (s : Bytes) → skip_while is_space s ≡ skip_space s
unfolding skip_while skip_space
skip_while-is_space [] = refl
skip_while-is_space (c ∷ s) = ground (arith, skip_while-is_space s)

pub skip_spaces_lem : (r : Reader) → skip_spaces r ≡ reader (skip_space r.source)
unfolding skip_spaces
skip_spaces_lem r = ap reader (skip_while-is_space r.source)

pub before-append : (ch : ℕ) (k s : Bytes) → contains ch k ≡ false → before ch (k ++ ch ∷ s) ≡ k
unfolding before contains
before-append ch [] s h = ground (arith)
before-append ch (c ∷ k) s h = ground (arith, before-append ch k s)

pub from-append : (ch : ℕ) (k s : Bytes) → contains ch k ≡ false → from ch (k ++ ch ∷ s) ≡ ch ∷ s
unfolding from contains
from-append ch [] s h = ground arith
from-append ch (c ∷ k) s h = ground (arith, from-append ch k s)

pub contains-append : (ch : ℕ) (k s : Bytes) → contains ch (k ++ ch ∷ s) ≡ true
unfolding contains
contains-append ch [] s = ground arith
contains-append ch (c ∷ k) s = ground (arith, contains-append ch k s)

pub before-from : (ch : ℕ) (s : Bytes) → before ch s ++ from ch s ≡ s
unfolding before from
before-from ch [] = refl
before-from ch (c ∷ s) = ground (arith, before-from ch s)

pub contains-before : (ch : ℕ) (s : Bytes) → contains ch (before ch s) ≡ false
unfolding before contains
contains-before ch [] = refl
contains-before ch (c ∷ s) = ground (arith, contains-before ch s)

pub length-from : (ch : ℕ) (s : Bytes) → length (from ch s) ≤ length s
unfolding from
length-from ch [] = omega arith
length-from ch (c ∷ s) = ground (arith, length-from ch s)

pub length-skip_space : (s : Bytes) → length (skip_space s) ≤ length s
unfolding skip_space
length-skip_space [] = omega arith
length-skip_space (c ∷ s) = ground (arith, length-skip_space s)

pub drop_return_cases :
    (s : Bytes) → (drop_return s ≡ s) ⊎ ((rest : Bytes) × (s ≡ 13 ∷ rest) × (drop_return s ≡ rest))
unfolding drop_return
drop_return_cases [] = inl refl
drop_return_cases (c ∷ s) = elim (Bool-cases (c == 13)) [
  | inl hit ↦ inr (s, ap (λ x. x ∷ s) ((==_iff c 13).0 hit), rw hit)
  | inr miss ↦ inl (rw miss)
]

pub length-drop_return : (s : Bytes) → length (drop_return s) ≤ length s
length-drop_return s = ground (arith, drop_return_cases s)

-- A carriage return that SkipLine drops is white space anyway.
pub skip_space-drop_return : (s : Bytes) → skip_space (drop_return s) ≡ skip_space s
unfolding skip_space
skip_space-drop_return s = elim (drop_return_cases s) [
  | inl same ↦ rw same
  | inr (rest, e, dropped) ↦ rw (dropped, e)
]

from-from : (ch : ℕ) (s : Bytes) → from ch (from ch s) ≡ from ch s
unfolding from
from-from ch [] = refl
from-from ch (c ∷ s) = ground (arith, from-from ch s)

skip_line_lem : (r : Reader) → skip_line r ≡ reader (drop_return (drop 1 (from 10 r.source)))
unfolding skip_line
skip_line_lem r = ap (λ (x : Reader). reader (drop_return x.source)) (skip_after_lem 10 r)

pub read_to_end_line_lem :
    (r : Reader)
    → read_to_end_line r ≡ (
      if contains 10 r.source then before 10 r.source else [],
      reader (drop_return (drop 1 (from 10 r.source))),
    )
unfolding read_to_end_line
read_to_end_line_lem r = rw read_until_lem (
    ap (λ (x : Reader). (if contains 10 r.source then before 10 r.source else [], x))
      (skip_line_lem (reader (from 10 r.source))
        ∙ ap (λ t. reader (drop_return (drop 1 t))) (from-from 10 r.source)))

-- A reader that is asked for the text up to a character gets it exactly where the character stands
-- there: then the text and what is left are the source, and the text is free of the character.
-- Where it does not stand there the result is empty and the whole source is used up.
pub read_until_splits :
    (ch : ℕ) (r : Reader)
    → let (text, rest) = read_until ch r in
      ((contains ch r.source ≡ true)
        × (text ++ rest.source ≡ r.source)
        × (contains ch text ≡ false))
      ⊎ ((contains ch r.source ≡ false) × (text ≡ []) × (rest.source ≡ []))
read_until_splits ch r =
    rw (read_until_lem ch r)
      (ground (arith, before-from ch r.source, contains-before ch r.source, from_none ch r.source))

skip_one_source :
    (s : Bytes)
    → ((s ≡ []) × (skip_one (reader s) ≡ none))
      ⊎ ((c : ℕ) × (rest : Bytes) × (s ≡ c ∷ rest) × (skip_one (reader s) ≡ some (reader rest)))
unfolding skip_one
skip_one_source [] = inl (refl, refl)
skip_one_source (c ∷ s) = inr (c, s, refl, ground arith)

pub skip_one_cases :
    (r : Reader)
    → ((r.source ≡ []) × (skip_one r ≡ none))
      ⊎ ((c : ℕ) × (rest : Bytes) × (r.source ≡ c ∷ rest) × (skip_one r ≡ some (reader rest)))
skip_one_cases r = skip_one_source r.source

pub skip_space-append : (gap s : Bytes) → skip_space gap ≡ [] → skip_space (gap ++ s) ≡ skip_space s
unfolding skip_space
skip_space-append [] s h = refl
skip_space-append (c ∷ gap) s h = ground (arith, skip_space-append gap s)

pub length-skip_until_text :
    (p : Bytes) (r : Reader) → length (skip_until_text p r).source ≤ length r.source
unfolding skip_until_text
length-skip_until_text p r = omega (arith, length-drop {0})

pub length-skip_line : (r : Reader) → length (skip_line r).source ≤ length r.source
length-skip_line r = rw skip_line_lem (
    omega (
      arith,
      length-drop_return (drop 1 (from 10 r.source)),
      length-drop 1 (from 10 r.source),
      length-from 10 r.source,
    ))

-- At a text that begins with "HTTP" the search for "HTTP" stays where it is.
pub skip_until-http :
    (s : Bytes)
    → skip_until_text (bytes "HTTP") (reader (bytes "HTTP" ++ s)) ≡ reader (bytes "HTTP" ++ s)
unfolding skip_until_text find
skip_until-http s = refl

pub skip_line-append :
    (s rest : Bytes)
    → contains 10 s ≡ false
    → skip_line (reader (s ++ 10 ∷ rest)) ≡ reader (drop_return rest)
skip_line-append s rest h = rw (skip_line_lem, from-append 10 s rest h) refl
