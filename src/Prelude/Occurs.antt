-- ===== src/Prelude/Occurs.antt =====
-- How often a number stands in a list.
use magic_core.Prelude.{
  ℕ, zero, suc, ◌+◌, ◌≡◌, some, List, [], ◌∷◌, ◌++◌, ◌==◌, if◌then◌else◌, arith, length, get_elem?,
  erase_idx,
}

abbrev pub occurs : ℕ → List ℕ → ℕ
occurs f [] = 0
occurs f (g ∷ gs) = (if f == g then 1 else 0) + occurs f gs

pub occurs-append : (f : ℕ) (xs ys : List ℕ) → occurs f (xs ++ ys) ≡ occurs f xs + occurs f ys
occurs-append f [] ys = omega arith
occurs-append f (x ∷ xs) ys = omega (arith, occurs-append f xs ys)

-- What erasing an entry takes away.
pub occurs-erase_idx :
    (xs : List ℕ) (i y : ℕ)
    → get_elem? xs i ≡ some y
    → (x : ℕ) → occurs x (erase_idx xs i) + (if x == y then 1 else 0) ≡ occurs x xs
occurs-erase_idx [] i y h x = absurd (ground arith)
occurs-erase_idx (z ∷ xs) zero y h x = ground arith
occurs-erase_idx (z ∷ xs) (suc i) y h x = omega (arith, occurs-erase_idx xs i y h x)

pub length-erase_idx :
    {A : Type 0} (xs : List A) (i : ℕ) (y : A)
    → get_elem? xs i ≡ some y
    → length (erase_idx xs i) + 1 ≡ length xs
length-erase_idx [] i y h = absurd (ground arith)
length-erase_idx (z ∷ xs) zero y h = omega arith
length-erase_idx (z ∷ xs) (suc i) y h = omega (arith, length-erase_idx xs i y h)
