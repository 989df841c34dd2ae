-- ===== src/Net/Dictionary.antt =====
-- src/magic/common/dictionary.h: an unordered map from strings to strings, as an association list.
use magic_core.Prelude.{
  ◌≡◌, refl, ◌↔◌, Bool, true, false, ◌&&◌, List, [], ◌∷◌, Option, none, some, arith, ◌==◌,
  if◌then◌else◌,
}
use magic_core.Text.Bytes.{Bytes}

unfoldable pub bytes_eq : Bytes → Bytes → Bool
bytes_eq [] [] = true
bytes_eq [] (d ∷ t) = false
bytes_eq (c ∷ s) [] = false
bytes_eq (c ∷ s) (d ∷ t) = c == d && bytes_eq s t

pub bytes_eq_iff : (s t : Bytes) → (bytes_eq s t ≡ true) ↔ (s ≡ t)
unfolding bytes_eq
bytes_eq_iff [] [] = ground arith
bytes_eq_iff [] (d ∷ t) = ground arith
bytes_eq_iff (c ∷ s) [] = ground arith
bytes_eq_iff (c ∷ s) (d ∷ t) = ground (arith, bytes_eq_iff s t)

abbrev pub Dictionary : Type 0
Dictionary = List (Bytes × Bytes)

-- dictionary[key] = value
unfoldable pub insert : Bytes → Bytes → Dictionary → Dictionary
insert key value [] = (key, value) ∷ []
insert key value ((k, v) ∷ d) =
    if bytes_eq k key then (key, value) ∷ d else (k, v) ∷ insert key value d

unfoldable pub find : Bytes → Dictionary → Option Bytes
find key [] = none
find key ((k, v) ∷ d) = if bytes_eq k key then some v else find key d

pub find-insert :
    (key j value : Bytes) (d : Dictionary)
    → find j (insert key value d) ≡ (if bytes_eq key j then some value else find j d)
unfolding find insert
find-insert key j value [] = refl
find-insert key j value ((k, v) ∷ d) =
    ground
      (arith, bytes_eq_iff k key, bytes_eq_iff k j, bytes_eq_iff key j, find-insert key j value d)
