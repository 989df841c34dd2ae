-- ===== src/Futures/Chain/Equivalence.antt =====
-- A chain of futures gives, under every schedule, the result of its meaning.
use magic_core.Prelude.{
  ◌⊎◌, ◌≤◌, erase_idx, ℕ, zero, suc, ◌+◌, ◌≡◌, ◌≢◌, false, inl, inr, Option, none, some, List, [],
  ◌∷◌, arith, length, get_elem?, subst, sym, refl, ap, All,
}
use magic_core.Prelude.Totals.{total, get_elem?-bound}
use magic_core.Futures.Chain.{Answer, Steps, Cell, Task, State, perform, step, run, start}
use magic_core.Futures.Chain.Meaning.{eval, to_list}
use magic_core.Futures.Chain.Invariant.{Inv, slot_carries, cell_carries}
use magic_core.Futures.Chain.Work.{build_work}
use magic_core.Futures.Chain.Schedule.{step-Kept, run-Kept, start-Kept}
use magic_core.Futures.Chain.Preservation.{Kept}

module _ {V : Type 0} (goal : Option (Answer V)) where
  no_carriers :
      (cells : List (Cell V))
      → ((c : ℕ) (cell : Cell V) → get_elem? cells c ≡ some cell → slot_carries cell.slot ≡ 0)
      → total cell_carries cells ≡ 0
  no_carriers [] h = refl
  no_carriers (cell ∷ cells) h =
      let rest = no_carriers cells λ c x found. h (suc c) x found in
      omega (arith, rest, h 0 cell refl)

  read_of_nothing :
      (mu : ℕ → Option (Answer V)) (s : State V)
      → Inv goal mu 0 (λ p. 0) (λ c. 0) s
      → s.pool ≡ []
      → (c : ℕ) (cell : Cell V) → get_elem? s.cells c ≡ some cell
      → slot_carries cell.slot ≡ 0
  read_of_nothing mu s i over c cell found =
      let b = get_elem?-bound s.cells c cell found in ground (arith, over, i.watched c b, found)

  reported_once :
      (rs : List (Answer V)) (lost : ℕ)
      → length rs + lost ≡ 1
      → All (λ r. some r ≡ goal) rs
      → (lost ≢ 0 → goal ≡ none)
      → rs ≡ to_list goal
  reported_once [] lost one all none_of = ap to_list (sym (none_of (ground (arith, one))))
  reported_once (r ∷ []) lost one (same, all) none_of = ap to_list same
  reported_once (r ∷ q ∷ rs) lost one all none_of = absurd (omega (arith, one))

  ends :
      (mu : ℕ → Option (Answer V)) (s : State V)
      → Inv goal mu 0 (λ p. 0) (λ c. 0) s
      → s.pool ≡ []
      → s.reported ≡ to_list goal
  ends mu s i over =
      let quiet = no_carriers s.cells (read_of_nothing mu s i over) in
      let one : length s.reported + s.lost ≡ 1 = ground (arith, i.carried, quiet, over) in
      reported_once s.reported s.lost one i.reports i.lost

step_first :
    {V : Type 0} (s : State V) (t : Task V) (rest : List (Task V))
    → s.pool ≡ t ∷ rest
    → (u : State V) × (step 0 s ≡ some u)
unfolding step
step_first s t rest e = (perform t (record s { pool = erase_idx s.pool 0 }), ground (arith, e))

List-cases : {A : Type 0} (xs : List A) → (xs ≡ []) ⊎ ((x : A) × (rest : List A) × (xs ≡ x ∷ rest))
List-cases [] = inl refl
List-cases (x ∷ xs) = inr (x, xs, refl)

drain :
    {V : Type 0} (goal : Option (Answer V)) (l : ℕ) (s : State V)
    → Kept goal l s
    → (js : List ℕ) × (t : State V) × (run js s ≡ some t) × (t.pool ≡ [])
unfolding run
drain goal zero s k = elim (List-cases s.pool) [
  | inl over ↦ ([], s, refl, over)
  | inr (t, rest, e) ↦
      let (u, moved) = step_first s t rest e in
      let (m, left, k') = step-Kept goal 0 0 s u k moved in absurd (omega (arith, left))
]
drain goal (suc l) s k = elim (List-cases s.pool) [
  | inl over ↦ ([], s, refl, over)
  | inr (t, rest, e) ↦
      let (u, moved) = step_first s t rest e in
      let (m, left, k') = step-Kept goal 0 (suc l) s u k moved in
      let same : m ≡ l = omega (arith, left) in
      let (js, v, ran, over) = drain goal l u (subst (λ n. Kept goal n u) same k') in
      (0 ∷ js, v, ground (arith, moved, ran), over)
]

-- A chain of futures is built, run and subscribed to by any number of threads, in any order of
-- their actions. No end of a contract acts twice. The user's callback gets only what the functions
-- of the chain make of the first result when they are called one after the other; when nothing is
-- left to run it was called once with that, and not at all where an asynchronous continuation or an
-- error handler that was called has thrown.
pub chain_equivalent :
    {V : Type 0} (executor : ℕ) (r : Answer V) (steps : Steps V) (js : List ℕ) (s : State V)
    → run js (start executor r steps) ≡ some s
    → (s.failed ≡ false)
      × All (λ a. some a ≡ eval steps (some r)) s.reported
      × (s.pool ≡ [] → s.reported ≡ to_list (eval steps (some r)))
chain_equivalent executor r steps js s e =
    let goal = eval steps (some r) in
    let (l, all, k) = run-Kept goal js _ _ s (start-Kept goal executor r steps refl) e in
    let (mu, i, few) = k in (i.sane, i.reports, ends goal mu s i)

-- However the actions of such a chain were scheduled so far, there were at most as many as the work
-- of its steps tells, and it can go on to an end, where nothing is left to run and the user's
-- callback was called with the result, if there is one.
pub chain-Ends :
    {V : Type 0} (executor : ℕ) (r : Answer V) (steps : Steps V) (js : List ℕ) (s : State V)
    → run js (start executor r steps) ≡ some s
    → (length js ≤ suc (build_work steps (some r)))
      × ((ks : List ℕ) × (t : State V) × (run ks s ≡ some t)
          × (t.pool ≡ [])
          × (t.reported ≡ to_list (eval steps (some r))))
chain-Ends executor r steps js s e =
    let goal = eval steps (some r) in
    let (l, all, k) = run-Kept goal js _ _ s (start-Kept goal executor r steps refl) e in
    let (ks, t, ran, over) = drain goal l s k in
    let (l', all', k') = run-Kept goal ks l s t k ran in
    let (mu, i, few) = k' in (omega (arith, all), (ks, t, ran, over, ends goal mu t i over))
