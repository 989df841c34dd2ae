-- ===== src/Memory/SharedPtr/Ownership.antt =====
-- Every operation on shared pointers keeps the counts of a control block equal to the number of its
-- owners.
use magic_core.Prelude.{
  ℕ, zero, suc, ◌+◌, ◌^◌, ◌≤◌, ◌<◌, ◌≡◌, ◌≢◌, refl, ◌↔◌, inl, inr, true, false, Option, none, some,
  List, [], ◌∷◌, get_elem?, set, arith, Option-cases, subst, ap, ◌∙◌, sym, ℕ_discrete,
}
use magic_core.Memory.Ref.{Slot, gone, holds}
use magic_core.Memory.Ref.Invariant.{at, owners, owners-set, Inv, add_if_valid-Inv}
use magic_core.Memory.Ref.Ownership.{
  Owned, init-Inv, held_counted, get_elem?-set, refs-add_if_valid, made-add_if_valid, move-Inv,
}
use magic_core.Memory.SharedPtr.{
  State, Event, makes, nulls, copies, assigns, moves, swaps, resets, dies, init, fits,
  increment_ref_count, decrement_ref_count, add_if_valid, release_if_valid, put, make, swap_in,
  if_gone, if_there, step, run,
}
use magic_core.Memory.SharedPtr.View.{
  view, view-add_if_valid, Paired-add_if_valid, Sound, share-Sound, swap_in-Sound, leave-Sound,
  put-Sound,
}

make-Sound :
    (v : ℕ) (s : State)
    → s.made + 1 < 2 ^ 31
    → get_elem? s.refs v ≡ some gone
    → Sound s
    → Sound (make v s)
unfolding make add_if_valid fits increment_ref_count
make-Sound v s small found x = record {
  owned = record {
    counted = λ o. ground (
      arith,
      i.counted o,
      i.unmade s.fresh,
      owners-set s.refs v gone (holds (some s.fresh)) found o,
    );
    few = λ o. ground (arith, i.few o, small);
    live = λ o. ground (arith, i.live o);
    unmade = λ o h. ground (arith, i.unmade o, h);
    sane = ground (arith, i.sane);
  };
  paired = λ o. ground (arith, x.paired o);
}
  where
    i : Owned (view s)
    i = x.owned

-- A write can be read back.
pub get_elem?-set_same :
    (xs : List Slot) (v : ℕ) (a b : Slot)
    → get_elem? xs v ≡ some a
    → get_elem? (set xs v b) v ≡ some b
get_elem?-set_same [] v a b h = absurd (ground arith)
get_elem?-set_same (x ∷ xs) zero a b h = refl
get_elem?-set_same (x ∷ xs) (suc v) a b h = get_elem?-set_same xs v a b h

-- Two variables, or one with itself, exchange what they hold.
swap-Sound :
    (v w : ℕ) (obj old : Option ℕ) (s : State)
    → get_elem? s.refs w ≡ some (holds obj)
    → get_elem? s.refs v ≡ some (holds old)
    → Sound s
    → Sound (put v (holds obj) (put w (holds old) s))
swap-Sound v w obj old s at_w at_v x = record {
  owned = record {
    counted = λ o. omega (
      arith,
      i.counted o,
      owners-set s.refs w (holds obj) (holds old) at_w o,
      owners-set (set s.refs w (holds old)) v (holds old) (holds obj) between o,
    );
    few = i.few;
    live = i.live;
    unmade = i.unmade;
    sane = i.sane;
  };
  paired = x.paired;
}
  where
    i : Owned (view s)
    i = x.owned

    between : get_elem? (set s.refs w (holds old)) v ≡ some (holds old)
    between = elim (ℕ_discrete v w) [
      | no apart ↦ get_elem?-set s.refs v w (holds old) (holds old) at_v apart
      | yes same ↦
          subst (λ k. get_elem? (set s.refs w (holds old)) k ≡ some (holds old)) (sym same)
            (get_elem?-set_same s.refs w (holds obj) (holds old) at_w)
    ]

there_cases :
    (v : ℕ) (s t : State) (k : Option ℕ → Option State)
    → if_there v s k ≡ some t
    → (obj : Option ℕ) × (get_elem? s.refs v ≡ some (holds obj)) × (k obj ≡ some t)
there_cases v s t k e = elim (Option-cases (get_elem? s.refs v)) [
  | inl missing ↦ absurd (ground arith)
  | inr (gone, found) ↦ absurd (ground (arith, found))
  | inr (holds obj, found) ↦ (obj, found, ground (arith, found))
]

gone_cases :
    (v : ℕ) (s t : State) (k : State → State)
    → if_gone v s k ≡ some t
    → (get_elem? s.refs v ≡ some gone) × (k s ≡ t)
gone_cases v s t k e = elim (Option-cases (get_elem? s.refs v)) [
  | inl missing ↦ absurd (ground arith)
  | inr (gone, found) ↦ (found, ground (arith, found))
  | inr (holds obj, found) ↦ absurd (ground (arith, found))
]

step-Sound : (e : Event) (s t : State) → s.made + 1 < 2 ^ 31 → Sound s → step e s ≡ some t → Sound t
unfolding step
step-Sound (makes v) s t small i e =
    let (found, result) = gone_cases v s t (make v) e in
    subst Sound result (make-Sound v s small found i)
step-Sound (nulls v) s t small i e =
    let (found, result) = gone_cases v s t (put v (holds none)) e in
    subst Sound result (put-Sound v gone (holds none) s found (λ o. refl) i)
step-Sound (copies v w) s t small i e =
    let (obj, found, rest) =
      there_cases w s t (λ obj. if_gone v s λ t. put v (holds obj) (add_if_valid obj t)) e in
    let (empty, result) = gone_cases v s t (λ t. put v (holds obj) (add_if_valid obj t)) rest in
    subst Sound result
      (share-Sound v obj s small empty (held_counted w obj (view s) found i.owned) i)
step-Sound (assigns v w) s t small i e =
    let (obj, found, rest) =
      there_cases w s t (λ obj. if_there v s λ old. some (swap_in v obj old (add_if_valid obj s)))
        e in
    let (old, there, result) =
      there_cases v s t (λ old. some (swap_in v obj old (add_if_valid obj s))) rest in
    let here = held_counted w obj (view s) found i.owned in
    let same_view = view-add_if_valid obj s small i.paired here i.owned in
    let refs_kept = ap (λ r. r.refs) same_view ∙ refs-add_if_valid obj (view s) in
    let few_made : (add_if_valid obj s).made ≤ s.made + 1 =
      omega (arith, made-add_if_valid obj (view s), ap (λ r. r.made) same_view) in
    subst Sound (ground (arith, result)) (
      swap_in-Sound v obj old (add_if_valid obj s) (omega (arith, few_made))
        (ap (λ r. get_elem? r v) refs_kept ∙ there)
        (subst (Inv (λ o. 0 + at o obj)) (sym same_view)
          (add_if_valid-Inv (λ o. 0) obj (view s) (omega arith) here i.owned))
        (Paired-add_if_valid obj s i.paired))
step-Sound (moves v w) s t small i e =
    let (obj, found, rest) =
      there_cases w s t (λ obj. if_gone v s λ t. put v (holds obj) (put w (holds none) t)) e in
    let (empty, result) = gone_cases v s t (λ t. put v (holds obj) (put w (holds none) t)) rest in
    subst Sound result
      (record { owned = move-Inv v w obj (view s) found empty i.owned; paired = i.paired })
step-Sound (swaps v w) s t small i e =
    let (obj, found, rest) =
      there_cases w s t (λ obj. if_there v s λ old. some (put v (holds obj) (put w (holds old) s)))
        e in
    let (old, there, result) =
      there_cases v s t (λ old. some (put v (holds obj) (put w (holds old) s))) rest in
    subst Sound (ground (arith, result)) (swap-Sound v w obj old s found there i)
step-Sound (resets v) s t small i e =
    let (obj, found, result) =
      there_cases v s t (λ obj. some (put v (holds none) (release_if_valid obj s))) e in
    subst Sound (ground (arith, result))
      (leave-Sound v obj (holds none) s (omega arith) found (λ o. refl) i)
step-Sound (dies v) s t small i e =
    let (obj, found, result) =
      there_cases v s t (λ obj. some (put v gone (release_if_valid obj s))) e in
    subst Sound (ground (arith, result))
      (leave-Sound v obj gone s (omega arith) found (λ o. refl) i)

made-step : (e : Event) (s t : State) → step e s ≡ some t → s.made ≤ t.made
unfolding step add_if_valid release_if_valid decrement_ref_count fits increment_ref_count make
    swap_in
made-step (makes v) s t e = ground arith
made-step (nulls v) s t e = ground arith
made-step (copies v w) s t e = ground arith
made-step (assigns v w) s t e = ground arith
made-step (moves v w) s t e = ground arith
made-step (swaps v w) s t e = ground arith
made-step (resets v) s t e = ground arith
made-step (dies v) s t e = ground arith

made-run : (es : List Event) (s t : State) → run es s ≡ some t → s.made ≤ t.made
unfolding run
made-run [] s t e = ground arith
made-run (x ∷ es) s t e = elim (Option-cases (step x s)) [
  | inl stuck ↦ absurd (ground arith)
  | inr (u, moved) ↦ omega (arith, made-step x s u moved, made-run es u t (ground arith))
]

run-Sound :
    (es : List Event) (s t : State) → t.made + 1 < 2 ^ 31 → Sound s → run es s ≡ some t → Sound t
unfolding run
run-Sound [] s t small i e = subst Sound (ground arith) i
run-Sound (x ∷ es) s t small i e = elim (Option-cases (step x s)) [
  | inl stuck ↦ absurd (ground arith)
  | inr (u, moved) ↦
      let rest : run es u ≡ some t = ground arith in
      run-Sound es u t small
        (step-Sound x s u (omega (arith, small, made-step x s u moved, made-run es u t rest)) i
          moved)
        rest
]

-- While fewer than 2 ^ 31 - 1 references are counted, whatever is done with variables of type
-- SharedPtr: no deleted block is used and no count overflows its int32_t, both counts of each control block are the number of
-- variables that point to it, and a block is alive exactly while there is such a variable.
pub shared_ownership :
    (variables : ℕ) (es : List Event) (t : State)
    → t.made + 1 < 2 ^ 31
    → run es (init variables) ≡ some t
    → (t.failed ≡ false)
      × ((b : ℕ)
          → (t.strong b ≡ owners b t.refs)
            × (t.transient b ≡ owners b t.refs)
            × ((t.alive b ≡ true) ↔ (owners b t.refs ≢ 0)))
shared_ownership variables es t small e = (
  i.sane,
  λ b. (
    omega (arith, i.counted b),
    omega (arith, i.counted b, x.paired b),
    ground (arith, i.counted b, i.live b),
  ),
)
  where
    x : Sound t
    x =
        run-Sound es (init variables) t small
          (record { owned = init-Inv variables; paired = λ b. refl }) e

    i : Owned (view t)
    i = x.owned
