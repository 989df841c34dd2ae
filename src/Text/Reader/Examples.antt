-- ===== src/Text/Reader/Examples.antt =====
-- The reader on short texts.
use magic_core.Prelude.{◌≡◌, refl, ◌⊎◌, true, false, some, none, [], ◌++◌}
use magic_core.Prelude.Int.{negsuc}
use magic_core.Text.Bytes.{bytes, contains, from_chars}
use magic_core.Text.Reader.{reader, read_until, read_int, skip_digits, skip}
use magic_core.Text.Reader.Laws.{read_until_splits}

age_read :
    let (text, rest) = read_until 58 (reader (bytes "Age: 7")) in
    ((contains 58 (bytes "Age: 7") ≡ true)
      × (text ++ rest.source ≡ bytes "Age: 7")
      × (contains 58 text ≡ false))
    ⊎ ((contains 58 (bytes "Age: 7") ≡ false) × (text ≡ []) × (rest.source ≡ []))
age_read = read_until_splits 58 (reader (bytes "Age: 7"))

read_int_negative : read_int (reader (bytes "-120ms")) ≡ (some (negsuc 119), reader (bytes "ms"))
unfolding read_int from_chars
read_int_negative = refl

read_int_overflow : read_int (reader (bytes "2147483648;")) ≡ (none, reader (bytes ";"))
unfolding read_int from_chars
read_int_overflow = refl

digits_skipped : skip_digits (reader (bytes "12ab")) ≡ reader (bytes "ab")
unfolding skip_digits
digits_skipped = refl

skipped_too_far : skip 3 (reader (bytes "ab")) ≡ none
unfolding skip
skipped_too_far = refl
