-- ===== src/Net/Status/Texts.antt =====
-- The text of a status code begins with the code.
use magic_core.Prelude.{
  ℕ, ◌%◌, ◌^◌, ◌≡◌, ◌≢◌, refl, some, List, [], ◌∷◌, ◌==◌, arith, All, inl, inr, Bool-cases, subst,
  Bool, true, ◌&&◌, ltb,
}
use magic_core.Prelude.Int.{pos}
use magic_core.Text.Bytes.{Bytes, from_chars}
use magic_core.Text.Reader.{reader, read_int}
use magic_core.Net.Status.{from_status_code, named, text_of, to_string}

in_range : ℕ → Bool
in_range code = ltb 0 code && ltb code (2 ^ 16)

-- A case whose text begins with its code, which fits into 16 bits and is not zero.
abbrev IsCoded : ℕ × Bytes → Type 0
IsCoded e = ((read_int (reader e.1)).0 ≡ some (pos e.0)) × (in_range e.0 ≡ true)

text_of-All {κ} :
    (P : ℕ × Bytes → Type κ) (cases : List (ℕ × Bytes)) (v : ℕ) (text : Bytes)
    → All P cases
    → text_of cases v ≡ some text
    → P (v, text)
text_of-All P [] v text a e = absurd (ground arith)
text_of-All P ((code, t) ∷ cases) v text (p, ps) e = elim (Bool-cases (v == code)) [
  | inl same ↦ let found : (code, t) ≡ (v, text) = ground (arith, same, e) in subst P found p
  | inr other ↦ text_of-All P cases v text ps (ground (arith, other, e))
]

range : (n : ℕ) → in_range n ≡ true → (n ≢ 0) × (n % 2 ^ 16 ≡ n)
unfolding in_range
range n h = ground arith

named-All : All IsCoded named
unfolding read_int from_chars in_range
named-All = (
  (refl, refl),
  (
    (refl, refl),
    (
      (refl, refl),
      (
        (refl, refl),
        (
          (refl, refl),
          (
            (refl, refl),
            (
              (refl, refl),
              (
                (refl, refl),
                (
                  (refl, refl),
                  (
                    (refl, refl),
                    (
                      (refl, refl),
                      (
                        (refl, refl),
                        (
                          (refl, refl),
                          (
                            (refl, refl),
                            ((refl, refl), ((refl, refl), ((refl, refl), ((refl, refl), tt)))),
                          ),
                        ),
                      ),
                    ),
                  ),
                ),
              ),
            ),
          ),
        ),
      ),
    ),
  ),
)

-- For every code but Invalid that has a case of its own in ToString, the status of this code has a
-- text that begins with the code: ReadInt reads the code back.
pub read_int-to_string :
    (to_decimal : ℕ → Bytes) (n : ℕ) (text : Bytes)
    → text_of named n ≡ some text
    → (read_int (reader (to_string to_decimal (from_status_code (pos n))))).0 ≡ some (pos n)
unfolding to_string from_status_code
read_int-to_string to_decimal n text e =
    let (reads, fits) = text_of-All IsCoded named n text named-All e in
    ground (arith, reads, range n fits, e)
