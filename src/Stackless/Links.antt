-- ===== src/Stackless/Links.antt =====
-- Links of nodes as a store, and the chains that they form.
use magic_core.Prelude.{ℕ, ◌≡◌, Option, none, some, List, [], ◌∷◌, ◌==◌, if◌then◌else◌, arith}
use magic_core.Prelude.Occurs.{occurs}

abbrev pub set_next : ℕ → Option ℕ → (ℕ → Option ℕ) → ℕ → Option ℕ
set_next f n next g = if g == f then n else next g

abbrev pub head? : List ℕ → Option ℕ
head? [] = none
head? (x ∷ xs) = some x

-- The links lead from each node of the list to the one behind it.
abbrev pub Chain : (ℕ → Option ℕ) → List ℕ → Type 0
Chain next [] = Unit
Chain next (x ∷ xs) = (next x ≡ head? xs) × Chain next xs

-- A write to a node outside of the chain changes nothing.
pub Chain-set_next :
    (f : ℕ) (n : Option ℕ) (next : ℕ → Option ℕ) (xs : List ℕ)
    → occurs f xs ≡ 0
    → Chain next xs
    → Chain (set_next f n next) xs
Chain-set_next f n next [] out c = tt
Chain-set_next f n next (x ∷ xs) out c =
    (ground (arith, c.0, out), Chain-set_next f n next xs (ground (arith, out)) c.1)
