-- ===== src/Futures/Chain/Work.antt =====
-- How many actions a chain of futures still takes, and what each operation adds to them.
use magic_core.Prelude.{
  ℕ, suc, ◌+◌, ◌≤◌, ◌<◌, ◌≡◌, inl, inr, Option-cases, Option, none, some, [], ◌∷◌, arith, length,
  get_elem?, refl, ap, All,
}
use magic_core.Prelude.Totals.{
  total, total-append, total_from, total_from_0-append_last, total_from_0-set, total_from-same,
  total-same, All-map,
}
use magic_core.Futures.Chain.{
  Answer, ok, Steps, subscribe, via, then_sync, then_async, recover, Callback, flattens, Slot,
  empty, ready, waits, spent, Cell, Task, sets, calls, builds, State, put, add, set_slot,
  set_result, callback_slot, set_callback, set_executor, make_contract_via,
}
use magic_core.Futures.Chain.Meaning.{eval, map_answer, bind_answer, recover_answer, second}
use magic_core.Futures.Chain.Invariant.{TaskMeans, SlotMeans, Inv}
use magic_core.Futures.Chain.Growth.{extend, extend-below}

module _ {V : Type 0} where
  abbrev pub inner_work : (V → Option (ℕ × Answer V)) → (V → Answer V → ℕ) → Option (Answer V) → ℕ
  inner_work source w (some (ok v)) = elim (source v) [ none ↦ 0 | some (e, r) ↦ suc (w v r) ]
  inner_work source w _ = 0

  -- Building these steps on a future with this result, and all that follows from it
  unfoldable pub build_work : Steps V → Option (Answer V) → ℕ
  unfolding eval
  build_work subscribe x = 2
  build_work (via e steps) x = suc (build_work steps x)
  build_work (then_sync f steps) x = 2 + build_work steps (map_answer f x)
  build_work (then_async source inner steps) x =
      2
      + inner_work source (λ v r. build_work (inner v) (some r)) x
      + build_work steps (bind_answer (λ v. eval (inner v) (second (source v))) x)
  build_work (recover h steps) x = 2 + build_work steps (recover_answer h x)

  unfoldable pub call_work : Callback V → Option (Answer V) → ℕ
  unfolding build_work
  call_work (flattens source inner p) x =
      suc (inner_work source (λ v r. build_work (inner v) (some r)) x)
  call_work _ x = 1

  module _ (mu : ℕ → Option (Answer V)) where
    abbrev pub task_work : Task V → ℕ
    task_work (sets p r) = 1
    task_work (calls e cb r) = call_work cb (some r)
    task_work (builds c steps k) = build_work steps (mu c)

    abbrev pub slot_work : ℕ → Slot V → ℕ
    slot_work c (waits cb) = call_work cb (mu c)
    slot_work c _ = 0

    abbrev pub cell_work : ℕ → Cell V → ℕ
    cell_work c cell = slot_work c cell.slot

    abbrev pub work : State V → ℕ
    work s = total task_work s.pool + total_from cell_work 0 s.cells

    pub work-add : (t : Task V) (s : State V) → work (add t s) ≡ work s + task_work t
    work-add t s = omega (arith, total-append task_work s.pool (t ∷ []))

    pub work-put :
        (c e : ℕ) (cell : Cell V) (slot : Slot V) (s : State V)
        → get_elem? s.cells c ≡ some cell
        → work (put c e slot s) + slot_work c cell.slot ≡ work s + slot_work c slot
    work-put c e cell slot s found = omega (
      arith,
      total_from_0-set cell_work s.cells c cell (record { executor = e; slot = slot }) found,
    )

    work-set_slot :
        (p e : ℕ) (r : Answer V) (slot : Slot V) (s : State V)
        → get_elem? s.cells p ≡ some (record { executor = e; slot = slot })
        → mu p ≡ some r
        → work (set_slot p e r slot s) ≡ work s
    unfolding set_slot
    work-set_slot p e r empty s found m =
        omega (arith, work-put p e (record { executor = e; slot = empty }) (ready r) s found)
    work-set_slot p e r (waits cb) s found m = omega (
      arith,
      work-put p e (record { executor = e; slot = waits cb }) spent s found,
      work-add (calls e cb r) (put p e spent s),
      ap (call_work cb) m,
    )
    work-set_slot p e r (ready x) s found m = refl
    work-set_slot p e r spent s found m = refl

    pub work-set_result :
        (p : ℕ) (r : Answer V) (s : State V) → mu p ≡ some r → work (set_result p r s) ≡ work s
    unfolding set_result
    work-set_result p r s m = elim (Option-cases (get_elem? s.cells p)) [
      | inl out ↦ ground (arith, out)
      | inr (cell, found) ↦
          ground (arith, found, work-set_slot p cell.executor r cell.slot s found m)
    ]

    work-callback_slot :
        (goal : Option (Answer V)) (c e : ℕ) (cb : Callback V) (slot : Slot V) (s : State V)
        → get_elem? s.cells c ≡ some (record { executor = e; slot = slot })
        → SlotMeans goal mu (length s.cells) c slot
        → work (callback_slot c e cb slot s) ≤ work s + call_work cb (mu c)
    unfolding callback_slot
    work-callback_slot goal c e cb empty s found m =
        omega (arith, work-put c e (record { executor = e; slot = empty }) (waits cb) s found)
    work-callback_slot goal c e cb (ready r) s found m = omega (
      arith,
      work-put c e (record { executor = e; slot = ready r }) spent s found,
      work-add (calls e cb r) (put c e spent s),
      ap (call_work cb) m,
    )
    work-callback_slot goal c e cb (waits x) s found m = omega arith
    work-callback_slot goal c e cb spent s found m = omega arith

    pub work-set_callback :
        (goal : Option (Answer V)) (hand : ℕ) (own read : ℕ → ℕ) (c : ℕ) (cb : Callback V)
        (s : State V)
        → Inv goal mu hand own read s
        → work (set_callback c cb s) ≤ work s + call_work cb (mu c)
    unfolding set_callback
    work-set_callback goal hand own read c cb s i = elim (Option-cases (get_elem? s.cells c)) [
      | inl out ↦ ground (arith, out)
      | inr (cell, found) ↦ ground (
        arith,
        found,
        work-callback_slot goal c cell.executor cb cell.slot s found (i.slots c cell found),
      )
    ]

    pub work-set_executor : (c e : ℕ) (s : State V) → work (set_executor c e s) ≡ work s
    unfolding set_executor
    work-set_executor c e s = elim (Option-cases (get_elem? s.cells c)) [
      | inl out ↦ ground (arith, out)
      | inr (cell, found) ↦ ground (arith, found, work-put c e cell cell.slot s found)
    ]

  module _ (goal x : Option (Answer V)) (mu : ℕ → Option (Answer V)) (n : ℕ) where
    task_work-extend :
        (t : Task V) → TaskMeans goal mu n t → task_work (extend n x mu) t ≡ task_work mu t
    task_work-extend (sets p r) m = refl
    task_work-extend (calls e cb r) m = refl
    task_work-extend (builds c steps k) (m, b, w) = ap (build_work steps) (extend-below n x mu c b)

    slot_work-extend :
        (c : ℕ) (slot : Slot V) → c < n → slot_work (extend n x mu) c slot ≡ slot_work mu c slot
    slot_work-extend c empty b = refl
    slot_work-extend c (ready r) b = refl
    slot_work-extend c (waits cb) b = ap (call_work cb) (extend-below n x mu c b)
    slot_work-extend c spent b = refl

  pub work-make_contract_via :
      (goal x : Option (Answer V)) (mu : ℕ → Option (Answer V)) (e hand : ℕ) (own read : ℕ → ℕ)
      (s : State V)
      → Inv goal mu hand own read s
      → work (extend (length s.cells) x mu) (make_contract_via e s) ≡ work mu s
  work-make_contract_via goal x mu e hand own read s i =
      let n = length s.cells in
      let mu' : ℕ → Option (Answer V) = extend n x mu in
      let cell : Cell V = record { executor = e; slot = empty } in
      let tasks : All (λ t. task_work mu' t ≡ task_work mu t) s.pool =
        All-map (TaskMeans goal mu n) (λ t. task_work mu' t ≡ task_work mu t)
          (task_work-extend goal x mu n) s.pool i.tasks in
      let cells : (c : ℕ) (y : Cell V) → c < 0 + n → cell_work mu' c y ≡ cell_work mu c y =
        λ c y b. slot_work-extend goal x mu n c y.slot (omega (arith, b)) in
      omega (
        arith,
        total-same (task_work mu') (task_work mu) s.pool tasks,
        total_from_0-append_last (cell_work mu') s.cells cell,
        total_from-same (cell_work mu') (cell_work mu) 0 s.cells cells,
      )
