-- ===== src/Futures/Chain/Hands.antt =====
-- Parts of the invariant pass between the pool, the contracts and the running task.
use magic_core.Prelude.{
  Bool-cases, inl, inr, arith, subst, sym, erase_idx, ℕ, ◌+◌, ◌≡◌, Option, some, [], ◌∷◌, ◌==◌,
  if◌then◌else◌, length, get_elem?, All,
}
use magic_core.Prelude.Totals.{
  total-append, total-set, total-erase_idx, length-set, get_elem?-set, All-append_last,
  All-erase_idx,
}
use magic_core.Futures.Chain.{Answer, Slot, Cell, Task, State, add, put}
use magic_core.Futures.Chain.Invariant.{
  slot_set, slot_read, task_owns, slot_owns, cell_owns, task_reads, task_carries, slot_carries,
  cell_carries, owners_of, readers_of, TaskMeans, SlotMeans, Inv,
}

module _ {V : Type 0} where
  module _ (goal : Option (Answer V)) (mu : ℕ → Option (Answer V)) where
    -- The parameters may be written in another way.
    pub same-Inv :
        (hand hand' : ℕ) (own own' read read' : ℕ → ℕ) (s : State V)
        → hand ≡ hand'
        → ((p : ℕ) → own p ≡ own' p)
        → ((c : ℕ) → read c ≡ read' c)
        → Inv goal mu hand own read s
        → Inv goal mu hand' own' read' s
    same-Inv hand hand' own own' read read' s h o r i = record {
      carried = omega (arith, i.carried, h);
      owned = λ p. omega (arith, i.owned p, o p);
      unowned = λ p out. omega (arith, i.unowned p out, o p);
      watched = λ c b. omega (arith, i.watched c b, r c);
      unwatched = λ c out. omega (arith, i.unwatched c out, r c);
      tasks = i.tasks;
      slots = i.slots;
      reports = i.reports;
      dead = i.dead;
      lost = i.lost;
      sane = i.sane;
    }

    -- A task goes to the pool.
    pub add-Inv :
        (t : Task V) (hand : ℕ) (own read : ℕ → ℕ) (s : State V)
        → TaskMeans goal mu (length s.cells) t
        → Inv goal mu
            (hand + task_carries t)
            (λ p. own p + task_owns p t)
            (λ c. read c + task_reads c t)
            s
        → Inv goal mu hand own read (add t s)
    add-Inv t hand own read s m i = record {
      carried = omega (arith, i.carried, total-append task_carries s.pool (t ∷ []));
      owned = λ p. omega (arith, i.owned p, total-append (task_owns p) s.pool (t ∷ []));
      unowned = λ p out. omega (arith, i.unowned p out, total-append (task_owns p) s.pool (t ∷ []));
      watched = λ c b. omega (arith, i.watched c b, total-append (task_reads c) s.pool (t ∷ []));
      unwatched =
          λ c out. omega (arith, i.unwatched c out, total-append (task_reads c) s.pool (t ∷ []));
      tasks = All-append_last (TaskMeans goal mu (length s.cells)) s.pool t i.tasks m;
      slots = i.slots;
      reports = i.reports;
      dead = i.dead;
      lost = i.lost;
      sane = i.sane;
    }

    -- A task is taken out of the pool.
    pub take-Inv :
        (j : ℕ) (t : Task V) (s : State V)
        → get_elem? s.pool j ≡ some t
        → Inv goal mu 0 (λ p. 0) (λ c. 0) s
        → Inv goal mu
            (task_carries t)
            (λ p. task_owns p t)
            (λ c. task_reads c t)
            (record s { pool = erase_idx s.pool j })
    take-Inv j t s h i = record {
      carried = omega (arith, i.carried, total-erase_idx task_carries s.pool j t h);
      owned = λ p. omega (arith, i.owned p, total-erase_idx (task_owns p) s.pool j t h);
      unowned = λ p out. omega (arith, i.unowned p out, total-erase_idx (task_owns p) s.pool j t h);
      watched = λ c b. omega (arith, i.watched c b, total-erase_idx (task_reads c) s.pool j t h);
      unwatched =
          λ c out. omega (arith, i.unwatched c out, total-erase_idx (task_reads c) s.pool j t h);
      tasks = All-erase_idx (TaskMeans goal mu (length s.cells)) s.pool j i.tasks;
      slots = i.slots;
      reports = i.reports;
      dead = i.dead;
      lost = i.lost;
      sane = i.sane;
    }

    -- A slot changes, and what it owned and carried goes from hand to hand with it.
    pub put-Inv :
        (c e : ℕ) (cell : Cell V) (slot : Slot V) (hand hand' : ℕ) (own own' read read' : ℕ → ℕ)
        (s : State V)
        → get_elem? s.cells c ≡ some cell
        → SlotMeans goal mu (length s.cells) c slot
        → hand + slot_carries cell.slot ≡ hand' + slot_carries slot
        → ((p : ℕ)
            → own p + slot_owns p cell.slot + (if p == c then slot_set cell.slot else 0)
              ≡ own' p + slot_owns p slot + (if p == c then slot_set slot else 0))
        → ((p : ℕ)
            → read p + (if p == c then slot_read cell.slot else 0)
              ≡ read' p + (if p == c then slot_read slot else 0))
        → Inv goal mu hand own read s
        → Inv goal mu hand' own' read' (put c e slot s)
    put-Inv c e cell slot hand hand' own own' read read' s found m h o r i =
        let new : Cell V = record { executor = e; slot = slot } in
        let len = length-set s.cells c new in
        let get = get_elem?-set s.cells c cell new found in
        let owns : (p : ℕ) → owners_of p (put c e slot s) + own' p ≡ owners_of p s + own p = λ p.
          let t = total-set (cell_owns p) s.cells c cell new found in
          ground (arith, t, get p, o p, found) in
        let reads : (p : ℕ) → readers_of p (put c e slot s) + read' p ≡ readers_of p s + read p =
          λ p. ground (arith, get p, r p, found) in
        let n = length s.cells in
        let means : (d : ℕ) (x : Cell V)
            → get_elem? (put c e slot s).cells d ≡ some x
            → SlotMeans goal mu n d x.slot =
          λ d x at_d. elim (Bool-cases (d == c)) [
            | inl same ↦
                let d_c : d ≡ c = ground (arith, same) in
                let x_new : x ≡ new = ground (arith, get d, at_d, same) in
                subst (λ y. SlotMeans goal mu n d y.slot) (sym x_new)
                  (subst (λ b. SlotMeans goal mu n b slot) (sym d_c) m)
            | inr other ↦ i.slots d x (ground (arith, get d, at_d, other))
          ] in
        record {
          carried = omega (arith, i.carried, h, total-set cell_carries s.cells c cell new found);
          owned = λ p. omega (arith, i.owned p, owns p);
          unowned = λ p out. omega (arith, i.unowned p (omega (arith, out, len)), owns p);
          watched = λ p b. omega (arith, i.watched p (omega (arith, b, len)), reads p);
          unwatched = λ p out. omega (arith, i.unwatched p (omega (arith, out, len)), reads p);
          tasks = subst (λ n. All (TaskMeans goal mu n) s.pool) (sym len) i.tasks;
          slots = λ d x at_d. subst (λ k. SlotMeans goal mu k d x.slot) (sym len) (means d x at_d);
          reports = i.reports;
          dead = λ p b. i.dead p (omega (arith, b, len));
          lost = i.lost;
          sane = i.sane;
        }
