-- ===== src/Sync/SpinLock/Exclusion.antt =====
-- The lock has one owner, just when it is locked.
use magic_core.Prelude.{
  ℕ, zero, suc, ◌+◌, ◌≤◌, ◌≡◌, refl, inl, inr, subst, Bool-cases, Option-cases, some, List, [], ◌∷◌,
  ◌==◌, get_elem?, set, arith,
}
use magic_core.Prelude.Totals.{total, total-set}
use magic_core.Sync.SpinLock.{
  Place, outside, exchanging, spinning, inside, State, all_outside, init, go, exchange, spin,
  unlock, advance, run,
}

abbrev pub owns : Place → ℕ
owns inside = 1
owns _ = 0

abbrev pub owners : State → ℕ
owners s = total owns s.threads

record Inv (s : State) : Type 0 where
  owned : owners s ≡ s.locked
  bit : s.locked ≤ 1

module _ (t : ℕ) (p q : Place) (s : State) (at_t : get_elem? s.threads t ≡ some p) where
  owns_moved : total owns (set s.threads t q) + owns p ≡ owners s + owns q
  owns_moved = total-set owns s.threads t p q at_t

advance-Inv :
    (t : ℕ) (p : Place) (s : State) → get_elem? s.threads t ≡ some p → Inv s → Inv (advance t p s)
unfolding advance exchange spin unlock
advance-Inv t outside s at_t i = record {
  owned = ground (arith, i.owned, owns_moved t outside exchanging s at_t);
  bit = i.bit;
}
advance-Inv t exchanging s at_t i = elim (Bool-cases (s.locked == 1)) [
  | inl taken ↦
      let m : Inv (record (go t spinning s) { locked = 1 }) = record {
        owned = ground (arith, i.owned, taken, owns_moved t exchanging spinning s at_t);
        bit = omega arith;
      } in
      ground (arith, taken, m)
  | inr free ↦
      let m : Inv (record (go t inside s) { locked = 1 }) = record {
        owned = ground (arith, i.owned, i.bit, free, owns_moved t exchanging inside s at_t);
        bit = omega arith;
      } in
      ground (arith, free, m)
]
advance-Inv t spinning s at_t i = elim (Bool-cases (s.locked == 1)) [
  | inl taken ↦ ground (arith, taken, i)
  | inr free ↦
      let m : Inv (go t exchanging s) = record {
        owned = ground (arith, i.owned, owns_moved t spinning exchanging s at_t);
        bit = i.bit;
      } in
      ground (arith, free, m)
]
advance-Inv t inside s at_t i = record {
  owned = ground (arith, i.owned, i.bit, owns_moved t inside outside s at_t);
  bit = omega arith;
}

run-Inv : (ts : List ℕ) (s u : State) → run ts s ≡ some u → Inv s → Inv u
unfolding run
run-Inv [] s u e i = subst Inv (ground (arith, e)) i
run-Inv (t ∷ ts) s u e i = elim (Option-cases (get_elem? s.threads t)) [
  | inl missing ↦ absurd (ground (arith, e, missing))
  | inr (p, found) ↦
      run-Inv ts (advance t p s) u (ground (arith, e, found)) (advance-Inv t p s found i)
]

none_owns : (n : ℕ) → total owns (all_outside n) ≡ 0
none_owns zero = refl
none_owns (suc n) = ground (arith, none_owns n)

-- In every order of the accesses of any number of threads: as many threads are between Lock and
-- Unlock as locked_ says, which is at most one.
pub spinlock_exclusive :
    (threads : ℕ) (ts : List ℕ) (s : State)
    → run ts (init threads) ≡ some s
    → (owners s ≡ s.locked) × (s.locked ≤ 1)
spinlock_exclusive threads ts s e =
    let start : Inv (init threads) = record { owned = none_owns threads; bit = omega arith } in
    let i = run-Inv ts (init threads) s e start in (i.owned, i.bit)
