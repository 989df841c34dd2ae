-- ===== src/Lockfree/TwoStacks/TakeAll.antt =====
-- TakeAll by a consumer while nobody else uses the queue.
use magic_core.Prelude.{
  ℕ, zero, suc, ◌+◌, ◌<◌, ◌≡◌, refl, inl, inr, ◌⊎◌, Option, none, some, List, [], ◌∷◌, ◌++◌, length,
  length-reverse, reverse, arith,
}
use mathlib.Core.List.{append-nil, reverse_aux}

-- The handler of ConsumeAll pushes one value after the other.
abbrev pour : List ℕ → List ℕ → List ℕ
pour [] reserve = reserve
pour (v ∷ rest) reserve = pour rest (v ∷ reserve)

-- The reserve from which Take pops.
abbrev refilled : (main reserve : List ℕ) → List ℕ × List ℕ
refilled main [] = ([], pour main [])
refilled main (v ∷ reserve) = (main, v ∷ reserve)

abbrev popped : List ℕ × List ℕ → Option ℕ × List ℕ × List ℕ
popped (main, []) = (none, main, [])
popped (main, v ∷ reserve) = (some v, main, reserve)

-- Take
unfoldable pub take : (main reserve : List ℕ) → Option ℕ × List ℕ × List ℕ
take main reserve = popped (refilled main reserve)

-- TakeAll, which makes at most one round more than there are values
pub take_all : (fuel : ℕ) → (main reserve : List ℕ) → Option (List ℕ)
unfolding take
take_all zero main reserve = none
take_all (suc fuel) main reserve =
    let (item, main, reserve) = take main reserve in
    let rest = take_all fuel main reserve in
    elim item [
      | none ↦ some []
      | some v ↦ elim rest [ none ↦ none | some values ↦ some (v ∷ values) ]
    ]

pour_reverses : (main reserve : List ℕ) → pour main reserve ≡ reverse_aux main reserve
pour_reverses [] reserve = refl
pour_reverses (v ∷ rest) reserve = pour_reverses rest (v ∷ reserve)

nil_or_cons : (xs : List ℕ) → (xs ≡ []) ⊎ ((x : ℕ) × (rest : List ℕ) × (xs ≡ x ∷ rest))
nil_or_cons [] = inl refl
nil_or_cons (x ∷ xs) = inr (x, xs, refl)

reserved :
    (fuel : ℕ) (main reserve : List ℕ)
    → length reserve + length main < fuel
    → take_all fuel main reserve ≡ some (reserve ++ reverse main)
unfolding take_all take
reserved zero main reserve h = absurd (omega (arith, h))
reserved (suc fuel) main (v ∷ reserve) h =
    let rest = reserved fuel main reserve (ground (arith, h)) in ground (arith, rest)
reserved (suc fuel) main [] h =
    let poured = pour_reverses main [] in
    elim (nil_or_cons (reverse main)) [
      | inl nothing ↦ ground (arith, poured, nothing)
      | inr (w, ws, some_values) ↦
          let rest = reserved fuel [] ws (ground (arith, h, some_values, length-reverse main)) in
          ground (arith, poured, some_values, rest, append-nil ws)
    ]

-- With one round more than there are values, TakeAll ends with all values of the queue, in the order
-- of the reserve and then of the main stack from its bottom.
pub take_all_values :
    (main reserve : List ℕ)
    → take_all (suc (length reserve + length main)) main reserve ≡ some (reserve ++ reverse main)
take_all_values main reserve =
    reserved (suc (length reserve + length main)) main reserve (omega arith)
