-- ===== src/Lockfree/TwoStacks/Balance.antt =====
-- No value is lost and none is taken twice, whatever the consumers do at once.
use magic_core.Prelude.{
  ℕ, zero, suc, ◌+◌, ◌≡◌, refl, inl, inr, subst, Option-cases, some, List, [], ◌∷◌, get_elem?, set,
  arith,
}
use magic_core.Prelude.Occurs.{occurs, occurs-append}
use magic_core.Prelude.Totals.{total, total-set}
use magic_core.Lockfree.TwoStacks.{
  Place, outside, consuming, moving, popping, State, Event, puts, acts, all_outside, init, go,
  put_value, pop, advance, step, run,
}

-- How often a consumer has the value in its hands.
abbrev pub carries : ℕ → Place → ℕ
carries v (moving rest) = occurs v rest
carries v _ = 0

-- How often the value is in the queue.
abbrev pub inside : ℕ → State → ℕ
inside v s = occurs v s.main + occurs v s.reserve + total (carries v) s.consumers

abbrev Balanced : State → Type 0
Balanced s = (v : ℕ) → occurs v s.taken + inside v s ≡ occurs v s.put

carries_moved :
    (c : ℕ) (p q : Place) (s : State) (v : ℕ)
    → get_elem? s.consumers c ≡ some p
    → total (carries v) (set s.consumers c q) + carries v p
      ≡ total (carries v) s.consumers + carries v q
carries_moved c p q s v at_c = total-set (carries v) s.consumers c p q at_c

pop-Balanced :
    (c : ℕ) (reserve : List ℕ) (s : State)
    → get_elem? s.consumers c ≡ some popping
    → s.reserve ≡ reserve
    → Balanced s
    → Balanced (pop c reserve s)
pop-Balanced c [] s at_c same b =
    λ v. ground (arith, b v, same, carries_moved c popping outside s v at_c)
pop-Balanced c (x ∷ rest) s at_c same b = λ v.
    ground
      (arith, b v, same, carries_moved c popping outside s v at_c, occurs-append v s.taken (x ∷ []))

looked-Balanced :
    (c : ℕ) (q : Place) (s : State)
    → ((v : ℕ) → carries v q ≡ 0)
    → get_elem? s.consumers c ≡ some outside
    → Balanced s
    → Balanced (go c q s)
looked-Balanced c q s empty at_c b =
    λ v. ground (arith, b v, empty v, carries_moved c outside q s v at_c)

advance-Balanced :
    (c : ℕ) (p : Place) (s : State)
    → get_elem? s.consumers c ≡ some p
    → Balanced s
    → Balanced (advance c p s)
unfolding advance
advance-Balanced c outside s at_c b = looked-Balanced c _ s (λ v. ground arith) at_c b
advance-Balanced c consuming s at_c b =
    λ v. ground (arith, b v, carries_moved c consuming (moving s.main) s v at_c)
advance-Balanced c (moving []) s at_c b =
    λ v. ground (arith, b v, carries_moved c (moving []) popping s v at_c)
advance-Balanced c (moving (x ∷ rest)) s at_c b =
    λ v. ground (arith, b v, carries_moved c (moving (x ∷ rest)) (moving rest) s v at_c)
advance-Balanced c popping s at_c b = pop-Balanced c s.reserve s at_c refl b

run-Balanced : (es : List Event) (s t : State) → run es s ≡ some t → Balanced s → Balanced t
unfolding run step put_value
run-Balanced [] s t r b = subst Balanced (ground (arith, r)) b
run-Balanced (puts x ∷ es) s t r b =
    run-Balanced es (put_value x s) t r λ v. ground (arith, b v, occurs-append v s.put (x ∷ []))
run-Balanced (acts c ∷ es) s t r b = elim (Option-cases (get_elem? s.consumers c)) [
  | inl missing ↦ absurd (ground (arith, r, missing))
  | inr (p, found) ↦
      run-Balanced es (advance c p s) t (ground (arith, r, found)) (advance-Balanced c p s found b)
]

idle_carry : (n v : ℕ) → total (carries v) (all_outside n) ≡ 0
idle_carry zero v = refl
idle_carry (suc n) v = ground (arith, idle_carry n v)

-- For any number of consumers, and any order of their actions and of the calls of Put: each value has
-- been put as often as it has been taken and is in one of the stacks or in the hands of a consumer.
pub queue_balanced :
    (consumers : ℕ) (es : List Event) (s : State)
    → run es (init consumers) ≡ some s
    → (v : ℕ) → occurs v s.taken + inside v s ≡ occurs v s.put
queue_balanced consumers es s r =
    run-Balanced es (init consumers) s r λ v. ground (arith, idle_carry consumers v)
