-- ===== src/Sync/SpinLock/Examples.antt =====
-- Two threads: the second one spins until the first one has unlocked.
use magic_core.Prelude.{ℕ, ◌≤◌, ◌≡◌, refl, some, List, [], ◌∷◌}
use magic_core.Sync.SpinLock.{outside, inside, State, init, exchange, spin, unlock, advance, run}
use magic_core.Sync.SpinLock.Exclusion.{owners, spinlock_exclusive}

abbrev accesses : List ℕ
accesses = 0 ∷ 1 ∷ 0 ∷ 1 ∷ 1 ∷ 0 ∷ 1 ∷ 1 ∷ []

abbrev final : State
final = record { locked = 1; threads = outside ∷ inside ∷ [] }

reached : run accesses (init 2) ≡ some final
unfolding run advance exchange spin unlock
reached = refl

spinlock_exclusive_example : (owners final ≡ final.locked) × (final.locked ≤ 1)
spinlock_exclusive_example = spinlock_exclusive 2 accesses final reached
