-- ===== src/Lockfree/Stack/Safety.antt =====
-- The lock-free stack uses no deleted node, and deletes each node that nobody can reach.
use magic_core.Prelude.{
  Bool, ℕ, zero, suc, ◌+◌, ◌^◌, ◌≤◌, ◌<◌, ◌≡◌, ◌↔◌, inl, inr, refl, Option-cases, true, false, some,
  List, [], ◌∷◌, get_elem?, arith, subst,
}
use magic_core.Prelude.Occurs.{occurs}
use magic_core.Prelude.Totals.{total}
use magic_core.Lockfree.Stack.{
  all_idle, Link, Place, idle, holding, missed, unlinked, consuming, State, Event, pushes, acts,
  increment_global, push, acquire_ref, swap, consume, walk, take, advance, step, run, init,
}
use magic_core.Lockfree.Stack.Invariant.{
  place_links, place_stamps, place_holds, linked, holders, Inv, push-Inv, acquire_ref-Inv,
}
use magic_core.Lockfree.Stack.Moves.{swap-Inv, miss-Inv, drop-Inv, settle-Inv, take-Inv, walk-Inv}

advance-Inv :
    (t : ℕ) (first : Bool) (p : Place) (s u : State)
    → get_elem? s.places t ≡ some p
    → Inv s
    → advance t first p s ≡ some u
    → s.acquired < 2 ^ 16
    → u.acquired < 2 ^ 16
    → Inv u
unfolding advance
advance-Inv t true idle s u found i e b b' = acquire_ref-Inv t s.head s u found refl i e b'
advance-Inv t false idle s u found i e b b' = subst Inv (ground (arith, e)) (take-Inv t s found i)
advance-Inv t true (holding link) s u found i e b b' = swap-Inv t link s.head s u found refl i e b
advance-Inv t false (holding link) s u found i e b b' =
    subst Inv (ground (arith, e)) (miss-Inv t link s found i)
advance-Inv t first (missed n) s u found i e b b' =
    subst Inv (ground (arith, e)) (drop-Inv t n s found i b)
advance-Inv t first (unlinked link) s u found i e b b' =
    subst Inv (ground (arith, e)) (settle-Inv t link s found i b)
advance-Inv t first (consuming links) s u found i e b b' =
    subst Inv (ground (arith, e)) (walk-Inv t links s found i b)

walk-acquired : (t : ℕ) (links : List Link) (s : State) → (walk t links s).acquired ≡ s.acquired
unfolding walk consume increment_global
walk-acquired t [] s = refl
walk-acquired t (link ∷ links) s = refl

advance-acquired :
    (t : ℕ) (first : Bool) (p : Place) (s u : State)
    → advance t first p s ≡ some u
    → s.acquired ≤ u.acquired
unfolding advance acquire_ref swap take consume increment_global
advance-acquired t true idle s u e = ground (arith, e)
advance-acquired t false idle s u e = ground (arith, e)
advance-acquired t true (holding link) s u e = ground (arith, e)
advance-acquired t false (holding link) s u e = ground (arith, e)
advance-acquired t first (missed n) s u e = ground (arith, e)
advance-acquired t first (unlinked link) s u e = ground (arith, e)
advance-acquired t first (consuming links) s u e = ground (arith, e, walk-acquired t links s)

step-acquired : (e : Event) (s u : State) → step e s ≡ some u → s.acquired ≤ u.acquired
unfolding step push
step-acquired pushes s u e = ground (arith, e)
step-acquired (acts t first) s u e = elim (Option-cases (get_elem? s.places t)) [
  | inl out ↦ absurd (ground (arith, out))
  | inr (p, found) ↦ advance-acquired t first p s u (ground (arith, e, found))
]

step-Inv :
    (e : Event) (s u : State)
    → Inv s
    → step e s ≡ some u
    → s.acquired < 2 ^ 16
    → u.acquired < 2 ^ 16
    → Inv u
unfolding step
step-Inv pushes s u i e b b' = subst Inv (ground (arith, e)) (push-Inv s i)
step-Inv (acts t first) s u i e b b' = elim (Option-cases (get_elem? s.places t)) [
  | inl out ↦ absurd (ground (arith, out))
  | inr (p, found) ↦ advance-Inv t first p s u found i (ground (arith, e, found)) b b'
]

run-acquired : (es : List Event) (s u : State) → run es s ≡ some u → s.acquired ≤ u.acquired
unfolding run
run-acquired [] s u e = ground (arith, e)
run-acquired (x ∷ es) s u e = elim (Option-cases (step x s)) [
  | inl stuck ↦ absurd (ground (arith, stuck))
  | inr (v, moved) ↦
      let more = run-acquired es v u (ground (arith, e, moved)) in
      omega (arith, more, step-acquired x s v moved)
]

run-Inv : (es : List Event) (s u : State) → Inv s → run es s ≡ some u → u.acquired < 2 ^ 16 → Inv u
unfolding run
run-Inv [] s u i e b = subst Inv (ground (arith, e)) i
run-Inv (x ∷ es) s u i e b = elim (Option-cases (step x s)) [
  | inl stuck ↦ absurd (ground (arith, stuck))
  | inr (v, moved) ↦
      let rest : run es v ≡ some u = ground (arith, e, moved) in
      let later = run-acquired es v u rest in
      let before = step-acquired x s v moved in
      let small : v.acquired < 2 ^ 16 = omega (arith, b, later) in
      run-Inv es v u (step-Inv x s v i moved (omega (arith, before, small)) small) rest b
]

idle_links : (n k : ℕ) → total (place_links n) (all_idle k) ≡ 0
idle_links n zero = refl
idle_links n (suc k) = omega (arith, idle_links n k)

idle_stamps : (n k : ℕ) → total (place_stamps n) (all_idle k) ≡ 0
idle_stamps n zero = refl
idle_stamps n (suc k) = omega (arith, idle_stamps n k)

idle_holds : (n k : ℕ) → total (place_holds n) (all_idle k) ≡ 0
idle_holds n zero = refl
idle_holds n (suc k) = omega (arith, idle_holds n k)

idle_place : (k t : ℕ) (p : Place) → get_elem? (all_idle k) t ≡ some p → p ≡ idle
idle_place zero t p h = absurd (ground (arith, h))
idle_place (suc k) zero p h = ground (arith, h)
idle_place (suc k) (suc t) p h = idle_place k t p (ground (arith, h))

init-Inv : (threads : ℕ) → Inv (init threads)
init-Inv k = record {
  once = λ n b. absurd (omega (arith, b));
  unmade = λ n b. omega (arith, idle_links n k, idle_holds n k);
  counted = λ n. omega (arith, idle_stamps n k, idle_holds n k);
  word = λ n. omega arith;
  covered = λ n h. omega (arith, h, idle_links n k);
  few = λ n. (omega (arith, idle_stamps n k), omega (arith, idle_holds n k));
  bounded = λ t l h. absurd (ground (arith, idle_place k t (holding l) h));
  live = λ n. ground (arith, idle_links n k, idle_holds n k);
  sane = refl;
}

-- Any number of threads push, pop and consume in any order, and take fewer than 2 ^ 16 references.
-- Then no node is used after it was deleted. Each node that was pushed either can still be reached
-- through a link or gave its value to exactly one caller, and a node is there as long as a link or
-- a thread can reach it, and no longer.
pub stack_memory :
    (threads : ℕ) (es : List Event) (s : State)
    → run es (init threads) ≡ some s
    → s.acquired < 2 ^ 16
    → (s.failed ≡ false)
      × ((n : ℕ) → n < s.fresh → linked n s + occurs n s.consumed ≡ 1)
      × ((n : ℕ) → (s.alive n ≡ true) ↔ (0 < linked n s + holders n s))
stack_memory threads es s e b =
    let i = run-Inv es (init threads) s (init-Inv threads) e b in
    (i.sane, i.once, λ n. ground (arith, i.live n))
