-- ===== src/Futures/Chain/Combination.antt =====
-- A combinator keeps the invariant of a chain of futures.
use magic_core.Prelude.{
  ℕ, suc, ◌+◌, ◌≤◌, ◌<◌, ◌≡◌, inl, inr, Option-cases, Option, none, some, ◌==◌, if◌then◌else◌,
  arith, length, get_elem?, subst, sym, ◌∙◌, refl, ap,
}
use magic_core.Prelude.Totals.{length-set}
use magic_core.Futures.Chain.{
  Answer, Steps, Callback, Slot, empty, ready, waits, spent, builds, State, make_contract_via,
  set_callback, callback_slot, executor_of, chain,
}
use magic_core.Futures.Chain.Meaning.{eval, eval-none, result_of}
use magic_core.Futures.Chain.Work.{
  build_work, call_work, work, work-add, work-set_callback, work-make_contract_via,
}
use magic_core.Futures.Chain.Invariant.{points, target, at_end, Within, Means, Inv}
use magic_core.Futures.Chain.Hands.{same-Inv, add-Inv}
use magic_core.Futures.Chain.Actions.{set_callback-Inv}
use magic_core.Futures.Chain.Growth.{
  extend, extend-below, at_end-extend, Within-suc, make_contract_via-Inv,
}
use magic_core.Futures.Chain.Preservation.{Kept, ends_none, at_new, length-made}

module _ {V : Type 0} (goal : Option (Answer V)) where
  length-callback_slot :
      (c e : ℕ) (cb : Callback V) (slot : Slot V) (s : State V)
      → length (callback_slot c e cb slot s).cells ≡ length s.cells
  unfolding callback_slot
  length-callback_slot c e cb empty s = length-set s.cells c _
  length-callback_slot c e cb (ready r) s = length-set s.cells c _
  length-callback_slot c e cb (waits b) s = refl
  length-callback_slot c e cb spent s = refl

  length-set_callback :
      (c : ℕ) (cb : Callback V) (s : State V) → length (set_callback c cb s).cells ≡ length s.cells
  unfolding set_callback
  length-set_callback c cb s = elim (Option-cases (get_elem? s.cells c)) [
    | inl out ↦ ground (arith, out)
    | inr (cell, found) ↦ ground (arith, found, length-callback_slot c cell.executor cb cell.slot s)
  ]

  pub chain-Kept :
      (mu : ℕ → Option (Answer V)) (c : ℕ) (cb : ℕ → Callback V) (steps : Steps V) (k : Option ℕ)
      (s : State V) (l : ℕ)
      → ((p : ℕ) → target (cb p) ≡ some p)
      → at_end mu goal k ≡ eval steps (result_of (cb (length s.cells)) (mu c))
      → c < length s.cells
      → Within (length s.cells) k
      → Inv goal mu 0 (λ p. points p k) (λ d. if d == c then 1 else 0) s
      → work mu s
          + call_work (cb (length s.cells)) (mu c)
          + build_work steps (result_of (cb (length s.cells)) (mu c))
        ≤ l
      → Kept goal l (chain c cb steps k s)
  unfolding chain
  chain-Kept mu c cb steps k s l to m b w i few =
      let n = length s.cells in
      let x : Option (Answer V) = result_of (cb n) (mu c) in
      let mu' : ℕ → Option (Answer V) = extend n x mu in
      let t : State V = make_contract_via (executor_of c s) s in
      let len : length t.cells ≡ suc n = length-made goal (executor_of c s) s in
      let dead : x ≡ none → goal ≡ none =
        λ h. ends_none goal mu 0 _ _ s k i w (m ∙ ap (eval steps) h ∙ eval-none steps) in
      let made =
        make_contract_via-Inv goal x mu (executor_of c s) 0 (λ p. points p k)
          (λ d. if d == c then 1 else 0) s dead i in
      let means : Means goal mu' (length t.cells) (cb n) (mu' c) = (
        ap (at_end mu' goal) (to n)
            ∙ at_new goal n x mu
            ∙ ap (result_of (cb n)) (sym (extend-below n x mu c b)),
        subst (Within (length t.cells)) (sym (to n)) (omega (arith, len)),
      ) in
      let u : State V = set_callback c (cb n) t in
      let len' : length u.cells ≡ suc n = length-set_callback c (cb n) t ∙ len in
      let ready_to =
        same-Inv goal mu' 0 0 (λ p. points p k + (if p == n then 1 else 0))
          (λ p. points p k + points p (target (cb n))) _
          (λ d. (if d == n then 1 else 0) + (if d == c then 1 else 0)) t refl
          (λ p. ground (arith, to n)) (λ d. omega arith) made in
      let linked : Inv goal mu' 0 (λ p. points p k) (λ d. if d == n then 1 else 0) u =
        set_callback-Inv goal mu' c (cb n) 0 (λ p. points p k) (λ d. if d == n then 1 else 0) t
          means ready_to in
      let meant : at_end mu' goal k ≡ eval steps (mu' n) =
        at_end-extend goal x mu n k w ∙ m ∙ ap (eval steps) (sym (at_new goal n x mu)) in
      (
        mu',
        add-Inv goal mu' (builds n steps k) 0 (λ p. 0) (λ c. 0) u
            (
              meant,
              omega (arith, len'),
              subst (λ l. Within l k) (sym len') (Within-suc goal x mu n k w),
            )
            (same-Inv goal mu' 0 _ _ _ _ _ u (omega arith) (λ p. omega arith) (λ c. omega arith)
              linked),
        omega (
          arith,
          few,
          work-make_contract_via goal x mu (executor_of c s) 0 (λ p. points p k)
              (λ d. if d == c then 1 else 0) s i,
          work-set_callback mu' goal 0 _ _ c (cb n) t ready_to,
          work-add mu' (builds n steps k) u,
          ap (call_work (cb n)) (extend-below n x mu c b),
          ap (build_work steps) (at_new goal n x mu),
        ),
      )
