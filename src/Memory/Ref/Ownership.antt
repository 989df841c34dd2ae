-- ===== src/Memory/Ref/Ownership.antt =====
-- Every operation on references keeps the count of an object equal to the number of its owners.
use magic_core.Prelude.{
  ℕ, zero, suc, ◌+◌, ◌^◌, ◌≤◌, ◌<◌, ◌≡◌, ◌≢◌, refl, ◌↔◌, inl, inr, true, false, Option, none, some,
  List, [], ◌∷◌, get_elem?, set, erase_idx, arith, Option-cases, Bool-cases, subst, ap, ◌∙◌, sym,
}
use magic_core.Prelude.Occurs.{occurs, occurs-erase_idx}
use magic_core.Memory.Ref.{
  Slot, gone, holds, State, Event, makes, shares, nulls, copies, moves, assigns, takes, resets,
  releases, adopts, dies, init, all_gone, add_ref, release_ref, add_if_valid, release_if_valid, put,
  make, swap_in, if_gone, if_there, step, run,
}
use magic_core.Memory.Ref.Invariant.{
  at, at_slot, owners, owners-set, Inv, add_if_valid-Inv, release_if_valid-Inv, put-Inv,
  put-release_if_valid,
}

abbrev pub Owned : State → Type 0
Owned s = Inv (λ o. 0) s

there_cases :
    (v : ℕ) (s t : State) (k : Option ℕ → Option State)
    → if_there v s k ≡ some t
    → (obj : Option ℕ) × (get_elem? s.refs v ≡ some (holds obj)) × (k obj ≡ some t)
there_cases v s t k e = elim (Option-cases (get_elem? s.refs v)) [
  | inl missing ↦ absurd (ground arith)
  | inr (gone, found) ↦ absurd (ground (arith, found))
  | inr (holds obj, found) ↦ (obj, found, ground (arith, found))
]

gone_cases :
    (v : ℕ) (s t : State) (k : State → State)
    → if_gone v s k ≡ some t
    → (get_elem? s.refs v ≡ some gone) × (k s ≡ t)
gone_cases v s t k e = elim (Option-cases (get_elem? s.refs v)) [
  | inl missing ↦ absurd (ground arith)
  | inr (gone, found) ↦ (found, ground (arith, found))
  | inr (holds obj, found) ↦ absurd (ground (arith, found))
]

pub at-le-owners :
    (o : ℕ) (xs : List Slot) (v : ℕ) (slot : Slot)
    → get_elem? xs v ≡ some slot
    → at_slot o slot ≤ owners o xs
at-le-owners o [] v slot h = absurd (ground arith)
at-le-owners o (x ∷ xs) zero slot h = ground arith
at-le-owners o (x ∷ xs) (suc v) slot h = omega (arith, at-le-owners o xs v slot h)

pub get_elem?-set :
    (xs : List Slot) (v w : ℕ) (a b : Slot)
    → get_elem? xs v ≡ some a
    → v ≢ w
    → get_elem? (set xs w b) v ≡ some a
get_elem?-set [] v w a b h n = absurd (ground arith)
get_elem?-set (x ∷ xs) zero zero a b h n = absurd (n refl)
get_elem?-set (x ∷ xs) zero (suc w) a b h n = h
get_elem?-set (x ∷ xs) (suc v) zero a b h n = h
get_elem?-set (x ∷ xs) (suc v) (suc w) a b h n = get_elem?-set xs v w a b h (λ e. n (ap suc e))

pub refs-add_if_valid : (obj : Option ℕ) (s : State) → (add_if_valid obj s).refs ≡ s.refs
unfolding add_if_valid add_ref
refs-add_if_valid none s = refl
refs-add_if_valid (some o) s = ground arith

-- A variable is constructed with what a count was added for.
pub share-Inv :
    (v : ℕ) (obj : Option ℕ) (s : State)
    → s.made + 1 < 2 ^ 64
    → get_elem? s.refs v ≡ some gone
    → ((o : ℕ) → at o obj ≤ s.count o)
    → Owned s
    → Owned (put v (holds obj) (add_if_valid obj s))
share-Inv v obj s small found here i =
    put-Inv (λ o. 0 + at o obj) (λ o. 0) v gone (holds obj) (add_if_valid obj s)
      (ap (λ r. get_elem? r v) (refs-add_if_valid obj s) ∙ found) (λ o. omega arith)
      (add_if_valid-Inv (λ o. 0) obj s small here i)

-- A variable gives its reference up for another one.
pub swap_in-Inv :
    (v : ℕ) (obj old : Option ℕ) (s : State)
    → s.made < 2 ^ 64
    → get_elem? s.refs v ≡ some (holds old)
    → Inv (λ o. 0 + at o obj) s
    → Owned (swap_in v obj old s)
unfolding swap_in
swap_in-Inv v obj old s small found i =
    release_if_valid-Inv (λ o. 0) old (put v (holds obj) s) small
      (put-Inv (λ o. 0 + at o obj) (λ o. 0 + at o old) v (holds old) (holds obj) s found
        (λ o. omega arith) i)

-- A variable gives its reference up.
pub leave-Inv :
    (v : ℕ) (obj : Option ℕ) (slot : Slot) (s : State)
    → s.made < 2 ^ 64
    → get_elem? s.refs v ≡ some (holds obj)
    → ((o : ℕ) → at_slot o slot ≡ 0)
    → Owned s
    → Owned (put v slot (release_if_valid obj s))
leave-Inv v obj slot s small found empty i = subst Owned (sym (put-release_if_valid v slot obj s)) (
    release_if_valid-Inv (λ o. 0) obj (put v slot s) small
      (put-Inv (λ o. 0) (λ o. 0 + at o obj) v (holds obj) slot s found (λ o. omega (arith, empty o))
        i))

-- What is held is counted.
pub held_counted :
    (w : ℕ) (obj : Option ℕ) (s : State)
    → get_elem? s.refs w ≡ some (holds obj)
    → Owned s
    → (o : ℕ) → at o obj ≤ s.count o
held_counted w obj s found i o =
    omega (arith, i.counted o, at-le-owners o s.refs w (holds obj) found)

pub made-add_if_valid : (obj : Option ℕ) (s : State) → (add_if_valid obj s).made ≤ s.made + 1
unfolding add_if_valid add_ref
made-add_if_valid none s = omega arith
made-add_if_valid (some o) s = ground arith

pub make-Inv :
    (v : ℕ) (s : State)
    → s.made + 1 < 2 ^ 64
    → get_elem? s.refs v ≡ some gone
    → Owned s
    → Owned (make v s)
unfolding make
make-Inv v s small found i = record {
  counted = λ o. ground (
    arith,
    i.counted o,
    i.unmade s.fresh,
    owners-set s.refs v gone (holds (some s.fresh)) found o,
  );
  few = λ o. ground (arith, i.few o, small);
  live = λ o. ground (arith, i.live o);
  unmade = λ o h. ground (arith, i.unmade o, h);
  sane = i.sane;
}

abbrev give_out : ℕ → Option ℕ → State → Option State
give_out v obj s = elim obj [
  | none ↦ some s
  | some o ↦ some (record (put v (holds none) s) { raw = o ∷ s.raw })
]

release-Inv :
    (v : ℕ) (obj : Option ℕ) (s t : State)
    → get_elem? s.refs v ≡ some (holds obj)
    → Owned s
    → give_out v obj s ≡ some t
    → Owned t
release-Inv v none s t found i e = subst Owned (ground (arith, e)) i
release-Inv v (some p) s t found i e =
    let given : Owned (record (put v (holds none) s) { raw = p ∷ s.raw }) = record {
      counted = λ o.
          ground (arith, i.counted o, owners-set s.refs v (holds (some p)) (holds none) found o);
      few = i.few;
      live = i.live;
      unmade = i.unmade;
      sane = i.sane;
    } in
    subst Owned (ground (arith, e)) given

adopt-Inv :
    (v k p : ℕ) (s : State)
    → get_elem? s.refs v ≡ some gone
    → get_elem? s.raw k ≡ some p
    → Owned s
    → Owned (put v (holds (some p)) (record s { raw = erase_idx s.raw k }))
adopt-Inv v k p s found given i = record {
  counted = λ o. ground (
    arith,
    i.counted o,
    owners-set s.refs v gone (holds (some p)) found o,
    occurs-erase_idx s.raw k p given o,
  );
  few = i.few;
  live = i.live;
  unmade = i.unmade;
  sane = i.sane;
}

pub move-Inv :
    (v w : ℕ) (obj : Option ℕ) (s : State)
    → get_elem? s.refs w ≡ some (holds obj)
    → get_elem? s.refs v ≡ some gone
    → Owned s
    → Owned (put v (holds obj) (put w (holds none) s))
move-Inv v w obj s found empty i =
    let apart : v ≢ w = λ same. ground (arith, found, empty, ap (get_elem? s.refs) same) in
    put-Inv (λ o. 0 + at o obj) (λ o. 0) v gone (holds obj) (put w (holds none) s)
      (get_elem?-set s.refs v w gone (holds none) empty apart) (λ o. omega arith)
      (put-Inv (λ o. 0) (λ o. 0 + at o obj) w (holds obj) (holds none) s found (λ o. omega arith) i)

made-step : (e : Event) (s t : State) → step e s ≡ some t → s.made ≤ t.made
unfolding step add_if_valid add_ref release_if_valid release_ref make swap_in
made-step (makes v) s t e = ground arith
made-step (shares v o) s t e = ground arith
made-step (nulls v) s t e = ground arith
made-step (copies v w) s t e = ground arith
made-step (moves v w) s t e = ground arith
made-step (assigns v w) s t e = ground arith
made-step (takes v w) s t e = ground arith
made-step (resets v) s t e = ground arith
made-step (releases v) s t e = ground arith
made-step (adopts v k) s t e = ground arith
made-step (dies v) s t e = ground arith

step-Inv : (e : Event) (s t : State) → s.made + 1 < 2 ^ 64 → Owned s → step e s ≡ some t → Owned t
unfolding step
step-Inv (makes v) s t small i e =
    let (found, result) = gone_cases v s t (make v) e in
    subst Owned result (make-Inv v s small found i)
step-Inv (shares v o) s t small i e = elim (Bool-cases (s.alive o)) [
  | inl there ↦
      let (found, result) =
        gone_cases v s t (λ t. put v (holds (some o)) (add_if_valid (some o) t))
          (ground (arith, there)) in
      subst Owned result
        (share-Inv v (some o) s small found (λ p. ground (arith, i.live o, there)) i)
  | inr dead ↦ absurd (ground (arith, dead))
]
step-Inv (nulls v) s t small i e =
    let (found, result) = gone_cases v s t (put v (holds none)) e in
    subst Owned result (put-Inv (λ o. 0) (λ o. 0) v gone (holds none) s found (λ o. refl) i)
step-Inv (copies v w) s t small i e =
    let (obj, found, rest) =
      there_cases w s t (λ obj. if_gone v s λ t. put v (holds obj) (add_if_valid obj t)) e in
    let (empty, result) = gone_cases v s t (λ t. put v (holds obj) (add_if_valid obj t)) rest in
    subst Owned result (share-Inv v obj s small empty (held_counted w obj s found i) i)
step-Inv (moves v w) s t small i e =
    let (obj, found, rest) =
      there_cases w s t (λ obj. if_gone v s λ t. put v (holds obj) (put w (holds none) t)) e in
    let (empty, result) = gone_cases v s t (λ t. put v (holds obj) (put w (holds none) t)) rest in
    subst Owned result (move-Inv v w obj s found empty i)
step-Inv (assigns v w) s t small i e =
    let (obj, found, rest) =
      there_cases w s t (λ obj. if_there v s λ old. some (swap_in v obj old (add_if_valid obj s)))
        e in
    let (old, there, result) =
      there_cases v s t (λ old. some (swap_in v obj old (add_if_valid obj s))) rest in
    subst Owned (ground (arith, result)) (
      swap_in-Inv v obj old (add_if_valid obj s) (omega (arith, made-add_if_valid obj s))
        (ap (λ r. get_elem? r v) (refs-add_if_valid obj s) ∙ there)
        (add_if_valid-Inv (λ o. 0) obj s small (held_counted w obj s found i) i))
step-Inv (takes v w) s t small i e =
    let (obj, found, rest) =
      there_cases w s t
        (λ obj. let t = put w (holds none) s in if_there v t λ old. some (swap_in v obj old t)) e in
    let (old, there, result) =
      there_cases v (put w (holds none) s) t
        (λ old. some (swap_in v obj old (put w (holds none) s))) rest in
    subst Owned (ground (arith, result)) (
      swap_in-Inv v obj old (put w (holds none) s) (omega arith) there (
        put-Inv (λ o. 0) (λ o. 0 + at o obj) w (holds obj) (holds none) s found (λ o. omega arith)
          i))
step-Inv (resets v) s t small i e =
    let (obj, found, result) =
      there_cases v s t (λ obj. some (put v (holds none) (release_if_valid obj s))) e in
    subst Owned (ground (arith, result))
      (leave-Inv v obj (holds none) s (omega arith) found (λ o. refl) i)
step-Inv (releases v) s t small i e =
    let (obj, found, result) = there_cases v s t (λ obj. give_out v obj s) e in
    release-Inv v obj s t found i result
step-Inv (adopts v k) s t small i e = elim (Option-cases (get_elem? s.raw k)) [
  | inl missing ↦ absurd (ground (arith, missing))
  | inr (o, given) ↦
      let (found, result) =
        gone_cases v s t (λ t. put v (holds (some o)) (record t { raw = erase_idx s.raw k }))
          (ground (arith, given)) in
      subst Owned result (adopt-Inv v k o s found given i)
]
step-Inv (dies v) s t small i e =
    let (obj, found, result) =
      there_cases v s t (λ obj. some (put v gone (release_if_valid obj s))) e in
    subst Owned (ground (arith, result)) (leave-Inv v obj gone s (omega arith) found (λ o. refl) i)

made-run : (es : List Event) (s t : State) → run es s ≡ some t → s.made ≤ t.made
unfolding run
made-run [] s t e = ground arith
made-run (x ∷ es) s t e = elim (Option-cases (step x s)) [
  | inl stuck ↦ absurd (ground arith)
  | inr (u, moved) ↦ omega (arith, made-step x s u moved, made-run es u t (ground arith))
]

run-Inv :
    (es : List Event) (s t : State) → t.made + 1 < 2 ^ 64 → Owned s → run es s ≡ some t → Owned t
unfolding run
run-Inv [] s t small i e = subst Owned (ground arith) i
run-Inv (x ∷ es) s t small i e = elim (Option-cases (step x s)) [
  | inl stuck ↦ absurd (ground arith)
  | inr (u, moved) ↦
      let rest : run es u ≡ some t = ground arith in
      run-Inv es u t small
        (step-Inv x s u (omega (arith, small, made-step x s u moved, made-run es u t rest)) i moved)
        rest
]

pub owners-all_gone : (n o : ℕ) → owners o (all_gone n) ≡ 0
owners-all_gone zero o = refl
owners-all_gone (suc n) o = omega (arith, owners-all_gone n o)

pub init-Inv : (variables : ℕ) → Owned (init variables)
init-Inv n = record {
  counted = λ o. omega (arith, owners-all_gone n o);
  few = λ o. omega arith;
  live = λ o. refl;
  unmade = λ o h. refl;
  sane = refl;
}

-- While fewer than 2 ^ 64 - 1 references are counted, whatever is done with variables of type Ref:
-- no deleted object is used, the count of each object is the number of variables that hold it and
-- of pointers that Release has given out, and an object is alive exactly while there is such an
-- owner.
pub ref_ownership :
    (variables : ℕ) (es : List Event) (t : State)
    → t.made + 1 < 2 ^ 64
    → run es (init variables) ≡ some t
    → (t.failed ≡ false)
      × ((o : ℕ)
          → (t.count o ≡ owners o t.refs + occurs o t.raw)
            × ((t.alive o ≡ true) ↔ (owners o t.refs + occurs o t.raw ≢ 0)))
ref_ownership variables es t small e =
    let i = run-Inv es (init variables) t small (init-Inv variables) e in
    (i.sane, λ o. (omega (arith, i.counted o), ground (arith, i.counted o, i.live o)))
