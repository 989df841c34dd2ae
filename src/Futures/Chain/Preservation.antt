-- ===== src/Futures/Chain/Preservation.antt =====
-- Every action of a chain of futures keeps the invariant, and what is left to do shrinks by one.
use magic_core.Prelude.{
  ℕ, suc, ◌+◌, ◌≤◌, ◌<◌, ◌≡◌, inl, inr, Option-cases, Option, none, some, [], ◌∷◌, ◌++◌, ◌==◌,
  if◌then◌else◌, arith, length, length-append, subst, sym, ◌∙◌, refl, ap,
}
use magic_core.Prelude.Totals.{All-append_last}
use magic_core.Futures.Chain.{
  Answer, ok, failure, Steps, Callback, maps, flattens, recovers, passes, empty, sets, builds,
  State, add, lose, make_contract_via, set_result, execute, flattened, answered, invoke,
}
use magic_core.Futures.Chain.Meaning.{eval, eval-none, result_of, second}
use magic_core.Futures.Chain.Work.{
  build_work, call_work, work, work-add, work-set_result, work-make_contract_via,
}
use magic_core.Futures.Chain.Invariant.{points, target, at_end, Within, Means, Inv}
use magic_core.Futures.Chain.Hands.{same-Inv, add-Inv}
use magic_core.Futures.Chain.Actions.{set_result-Inv}
use magic_core.Futures.Chain.Growth.{extend, at_end-extend, Within-suc, make_contract_via-Inv}

module _ {V : Type 0} (goal : Option (Answer V)) where
  -- The invariant between two actions, where at most `n` actions are left
  abbrev pub Kept : ℕ → State V → Type 0
  Kept n s = (mu : ℕ → Option (Answer V)) × Inv goal mu 0 (λ p. 0) (λ c. 0) s × (work mu s ≤ n)

  -- A contract without a result ends the chain.
  pub ends_none :
      (mu : ℕ → Option (Answer V)) (hand : ℕ) (own read : ℕ → ℕ) (s : State V) (k : Option ℕ)
      → Inv goal mu hand own read s
      → Within (length s.cells) k
      → at_end mu goal k ≡ none
      → goal ≡ none
  ends_none mu hand own read s none i w e = e
  ends_none mu hand own read s (some p) i w e = i.dead p w e

  pub at_new : (n : ℕ) (x : Option (Answer V)) (mu : ℕ → Option (Answer V)) → extend n x mu n ≡ x
  at_new n x mu = ground arith

  pub length-made :
      (e : ℕ) (s : State V) → length (make_contract_via e s).cells ≡ suc (length s.cells)
  length-made e s =
      omega (arith, length-append s.cells (record { executor = e; slot = empty } ∷ []))

  pub execute-Kept :
      (mu : ℕ → Option (Answer V)) (e : ℕ) (r : Answer V) (steps : Steps V) (k : Option ℕ)
      (s : State V) (l : ℕ)
      → at_end mu goal k ≡ eval steps (some r)
      → Within (length s.cells) k
      → Inv goal mu 1 (λ p. points p k) (λ c. 0) s
      → work mu s + suc (build_work steps (some r)) ≤ l
      → Kept l (execute e r steps k s)
  unfolding execute
  execute-Kept mu e r steps k s l m w i few =
      let n = length s.cells in
      let mu' : ℕ → Option (Answer V) = extend n (some r) mu in
      let t : State V = make_contract_via e s in
      let len : length t.cells ≡ suc n = length-made e s in
      let made =
        make_contract_via-Inv goal (some r) mu e 1 (λ p. points p k) (λ c. 0) s
          (λ h. absurd (ground (arith, h))) i in
      let put_in : Inv goal mu' 0 (λ p. points p k) (λ c. if c == n then 1 else 0)
          (add (sets n r) t) =
        add-Inv goal mu' (sets n r) 0 (λ p. points p k) (λ c. if c == n then 1 else 0) t
          (at_new n (some r) mu, omega (arith, len))
          (same-Inv goal mu' 1 _ _ _ _ _ t refl (λ p. refl) (λ c. omega arith) made) in
      let meant : at_end mu' goal k ≡ eval steps (mu' n) =
        at_end-extend goal (some r) mu n k w ∙ m ∙ ap (eval steps) (sym (at_new n (some r) mu)) in
      (
        mu',
        add-Inv goal mu' (builds n steps k) 0 (λ p. 0) (λ c. 0) (add (sets n r) t)
            (
              meant,
              omega (arith, len),
              subst (λ l. Within l k) (sym len) (Within-suc goal (some r) mu n k w),
            )
            (same-Inv goal mu' 0 _ _ _ _ _ (add (sets n r) t) (omega arith) (λ p. omega arith)
              (λ c. omega arith) put_in),
        omega (
          arith,
          few,
          work-make_contract_via goal (some r) mu e 1 (λ p. points p k) (λ c. 0) s i,
          work-add mu' (sets n r) t,
          work-add mu' (builds n steps k) (add (sets n r) t),
          ap (build_work steps) (at_new n (some r) mu),
        ),
      )

  lose-Kept :
      (mu : ℕ → Option (Answer V)) (p : ℕ) (s : State V) (l : ℕ)
      → mu p ≡ none
      → p < length s.cells
      → Inv goal mu 1 (λ q. if q == p then 1 else 0) (λ c. 0) s
      → work mu s ≤ l
      → Kept l (lose s)
  lose-Kept mu p s l m w i few = (
    mu,
    record {
      carried = omega (arith, i.carried);
      owned = λ q. omega (arith, i.owned q);
      unowned = λ q out. omega (arith, i.unowned q out);
      watched = i.watched;
      unwatched = i.unwatched;
      tasks = i.tasks;
      slots = i.slots;
      reports = i.reports;
      dead = i.dead;
      lost = λ h. i.dead p w m;
      sane = i.sane;
    },
    few,
  )

  report-Kept :
      (mu : ℕ → Option (Answer V)) (r : Answer V) (s : State V) (l : ℕ)
      → goal ≡ some r
      → Inv goal mu 1 (λ q. 0) (λ c. 0) s
      → work mu s ≤ l
      → Kept l (record s { reported = s.reported ++ r ∷ [] })
  report-Kept mu r s l m i few = (
    mu,
    record {
      carried = omega (arith, i.carried, length-append s.reported (r ∷ []));
      owned = i.owned;
      unowned = i.unowned;
      watched = i.watched;
      unwatched = i.unwatched;
      tasks = i.tasks;
      slots = i.slots;
      reports = All-append_last (λ x. some x ≡ goal) s.reported r i.reports (sym m);
      dead = i.dead;
      lost = i.lost;
      sane = i.sane;
    },
    few,
  )

  pub set-Kept :
      (mu : ℕ → Option (Answer V)) (p : ℕ) (r : Answer V) (s : State V) (l : ℕ)
      → mu p ≡ some r
      → Inv goal mu 1 (λ q. if q == p then 1 else 0) (λ c. 0) s
      → work mu s ≤ l
      → Kept l (set_result p r s)
  set-Kept mu p r s l m i few = (
    mu,
    set_result-Inv goal mu p r 0 (λ q. 0) (λ c. 0) s m
        (same-Inv goal mu 1 _ _ _ _ _ s (omega arith) (λ q. omega arith) (λ c. refl) i),
    omega (arith, few, work-set_result mu p r s m),
  )

  pub invoke-Kept :
      (mu : ℕ → Option (Answer V)) (cb : Callback V) (r : Answer V) (s : State V) (l : ℕ)
      → Means goal mu (length s.cells) cb (some r)
      → Inv goal mu 1 (λ q. points q (target cb)) (λ c. 0) s
      → work mu s + call_work cb (some r) ≤ suc l
      → Kept l (invoke cb r s)
  unfolding invoke flattened result_of call_work
  invoke-Kept mu (maps f p) (ok v) s l (m, w) i few =
      set-Kept mu p (f v) s l m i (omega (arith, few))
  invoke-Kept mu (maps f p) (failure e) s l (m, w) i few =
      set-Kept mu p (failure e) s l m i (omega (arith, few))
  invoke-Kept mu (flattens source steps p) (ok v) s l (m, w) i few =
      elim (Option-cases (source v)) [
        | inl thrown ↦
            let none_of : mu p ≡ none =
              m ∙ ap (λ o. eval (steps v) (second o)) thrown ∙ eval-none (steps v) in
            subst (Kept l) (ap (λ o. flattened p o (steps v) s) (sym thrown))
              (lose-Kept mu p s l none_of w i (omega (arith, few)))
        | inr ((e, a), there) ↦
            let meant : mu p ≡ eval (steps v) (some a) =
              m ∙ ap (λ o. eval (steps v) (second o)) there in
            subst (Kept l) (ap (λ o. flattened p o (steps v) s) (sym there))
              (execute-Kept mu e a (steps v) (some p) s l meant w i (ground (arith, few, there)))
      ]
  invoke-Kept mu (flattens source steps p) (failure e) s l (m, w) i few =
      set-Kept mu p (failure e) s l m i (omega (arith, few))
  invoke-Kept mu (recovers h p) (ok v) s l (m, w) i few =
      set-Kept mu p (ok v) s l m i (omega (arith, few))
  invoke-Kept mu (recovers h p) (failure e) s l (m, w) i few = elim (Option-cases (h e)) [
    | inl thrown ↦
        subst (Kept l) (ap (λ o. answered p o s) (sym thrown))
          (lose-Kept mu p s l (m ∙ thrown) w i (omega (arith, few)))
    | inr (a, there) ↦
        subst (Kept l) (ap (λ o. answered p o s) (sym there))
          (set-Kept mu p a s l (m ∙ there) i (omega (arith, few)))
  ]
  invoke-Kept mu (passes (some p)) r s l (m, w) i few = set-Kept mu p r s l m i (omega (arith, few))
  invoke-Kept mu (passes none) r s l (m, w) i few = report-Kept mu r s l m i (omega (arith, few))
