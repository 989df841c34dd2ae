-- ===== src/Lockfree/TwoStacks/Fifo.antt =====
-- With one consumer the two stacks are a queue.
use magic_core.Prelude.{
  ℕ, zero, suc, ◌≡◌, refl, inl, inr, ◌⊎◌, subst, Bool, true, false, some, List, [], ◌∷◌, ◌++◌,
  reverse, arith,
}
use mathlib.Core.List.{append_assoc, append-nil, reverse_aux}
use magic_core.Lockfree.TwoStacks.{
  Place, outside, consuming, moving, popping, State, Event, puts, acts, init, put_value, pop,
  advance, step, run,
}

abbrev held : Place → List ℕ
held (moving rest) = rest
held _ = []

-- What is in the queue, the next value first.
abbrev pub contents : Place → State → List ℕ
contents p s = reverse (held p) ++ (s.reserve ++ reverse s.main)

-- The exchange in ConsumeAll finds an empty reserve.
abbrev empty_at : Place → List ℕ → Bool
empty_at consuming (x ∷ xs) = false
empty_at _ _ = true

record Ordered (p : Place) (s : State) : Type 0 where
  alone : s.consumers ≡ p ∷ []
  order : s.taken ++ contents p s ≡ s.put
  fresh : empty_at p s.reserve ≡ true

List-cases : (xs : List ℕ) → (xs ≡ []) ⊎ ((x : ℕ) × (rest : List ℕ) × (xs ≡ x ∷ rest))
List-cases [] = inl refl
List-cases (x ∷ xs) = inr (x, xs, refl)

reverse_shift : (xs ys : List ℕ) → reverse_aux xs ys ≡ reverse xs ++ ys
reverse_shift [] ys = refl
reverse_shift (x ∷ xs) ys = ground (
  arith,
  reverse_shift xs (x ∷ ys),
  reverse_shift xs (x ∷ []),
  append_assoc (reverse xs) (x ∷ []) ys,
)

put_contents : (p : Place) (s : State) (v : ℕ) → contents p (put_value v s) ≡ contents p s ++ v ∷ []
unfolding put_value
put_contents p s v =
    let r = reverse (held p) in
    ground (
      arith,
      reverse_shift s.main (v ∷ []),
      append_assoc s.reserve (reverse s.main) (v ∷ []),
      append_assoc r (s.reserve ++ reverse s.main) (v ∷ []),
    )

moved_contents :
    (v : ℕ) (rest reserve tail : List ℕ)
    → reverse rest ++ ((v ∷ reserve) ++ tail) ≡ reverse (v ∷ rest) ++ (reserve ++ tail)
moved_contents v rest reserve tail =
    ground
      (arith, reverse_shift rest (v ∷ []), append_assoc (reverse rest) (v ∷ []) (reserve ++ tail))

pop-Ordered :
    (reserve : List ℕ) (s : State)
    → s.reserve ≡ reserve
    → Ordered popping s
    → Ordered outside (pop 0 reserve s)
pop-Ordered [] s same o = record {
  alone = ground (arith, o.alone);
  order = ground (arith, o.order, same);
  fresh = refl;
}
pop-Ordered (v ∷ rest) s same o = record {
  alone = ground (arith, o.alone);
  order = ground (arith, o.order, same, append_assoc s.taken (v ∷ []) (rest ++ reverse s.main));
  fresh = refl;
}

advance-Ordered : (p : Place) (s : State) → Ordered p s → (q : Place) × Ordered q (advance 0 p s)
unfolding advance
advance-Ordered outside s o = elim (List-cases s.reserve) [
  | inl empty ↦ (
    consuming,
    record {
      alone = ground (arith, o.alone, empty);
      order = o.order;
      fresh = ground (arith, empty);
    },
  )
  | inr (v, rest, full) ↦
      (popping, record { alone = ground (arith, o.alone, full); order = o.order; fresh = refl })
]
advance-Ordered consuming s o = elim (List-cases s.reserve) [
  | inl empty ↦ (
    moving s.main,
    record {
      alone = ground (arith, o.alone);
      order = ground (arith, o.order, empty, append-nil (reverse s.main));
      fresh = refl;
    },
  )
  | inr (v, rest, full) ↦ absurd (ground (arith, o.fresh, full))
]
advance-Ordered (moving []) s o =
    (popping, record { alone = ground (arith, o.alone); order = o.order; fresh = refl })
advance-Ordered (moving (v ∷ rest)) s o = (
  moving rest,
  record {
    alone = ground (arith, o.alone);
    order = ground (arith, o.order, moved_contents v rest s.reserve (reverse s.main));
    fresh = refl;
  },
)
advance-Ordered popping s o = (outside, pop-Ordered s.reserve s refl o)

put-Ordered : (p : Place) (v : ℕ) (s : State) → Ordered p s → Ordered p (put_value v s)
unfolding put_value
put-Ordered p v s o = record {
  alone = o.alone;
  order = ground (arith, o.order, put_contents p s v, append_assoc s.taken (contents p s) (v ∷ []));
  fresh = o.fresh;
}

run-Ordered :
    (es : List Event) (p : Place) (s t : State)
    → run es s ≡ some t
    → Ordered p s
    → (q : Place) × Ordered q t
unfolding run step
run-Ordered [] p s t r o = (p, subst (Ordered p) (ground (arith, r)) o)
run-Ordered (puts v ∷ es) p s t r o = run-Ordered es p (put_value v s) t r (put-Ordered p v s o)
run-Ordered (acts zero ∷ es) p s t r o =
    let (q, moved) = advance-Ordered p s o in
    run-Ordered es q (advance 0 p s) t (ground (arith, r, o.alone)) moved
run-Ordered (acts (suc c) ∷ es) p s t r o = absurd (ground (arith, r, o.alone))

-- With one consumer, and any producers at any time between its actions: what was taken, then what the
-- consumer is moving, then the reserve, then the main stack from its bottom, are together all values
-- in the order in which they were put. So Take gives them in that order.
pub queue_fifo :
    (es : List Event) (s : State)
    → run es (init 1) ≡ some s
    → (p : Place) × (s.consumers ≡ p ∷ []) × (s.taken ++ contents p s ≡ s.put)
queue_fifo es s r =
    let start : Ordered outside (init 1) = record { alone = refl; order = refl; fresh = refl } in
    let (p, o) = run-Ordered es outside (init 1) s r start in (p, o.alone, o.order)
