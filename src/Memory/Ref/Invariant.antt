-- ===== src/Memory/Ref/Invariant.antt =====
-- The count of an object is the number of its owners: the invariant, and the parts of an operation
-- that keep it.
use magic_core.Prelude.{
  ℕ, zero, suc, ◌+◌, ◌-◌, ◌%◌, ◌^◌, ◌≤◌, ◌<◌, ◌≡◌, refl, true, false, not, Option, none, some, List,
  [], ◌∷◌, ◌==◌, get_elem?, set, if◌then◌else◌, arith,
}
use magic_core.Prelude.Occurs.{occurs}
use magic_core.Memory.Ref.{
  word, Slot, gone, holds, State, write, add_if_valid, release_if_valid, put,
}

-- 1 for a pointer to the object.
abbrev pub at : ℕ → Option ℕ → ℕ
at o none = 0
at o (some p) = if o == p then 1 else 0

abbrev pub at_slot : ℕ → Slot → ℕ
at_slot o gone = 0
at_slot o (holds obj) = at o obj

abbrev pub owners : ℕ → List Slot → ℕ
owners o [] = 0
owners o (slot ∷ slots) = at_slot o slot + owners o slots

pub owners-set :
    (xs : List Slot) (v : ℕ) (old new : Slot)
    → get_elem? xs v ≡ some old
    → (o : ℕ) → owners o (set xs v new) + at_slot o old ≡ owners o xs + at_slot o new
owners-set [] v old new h o = absurd (ground arith)
owners-set (x ∷ xs) zero old new h o = ground arith
owners-set (x ∷ xs) (suc v) old new h o = omega (arith, owners-set xs v old new h o)

-- `extra` references of an object are held by a parameter or a temporary.
pub record Inv (extra : ℕ → ℕ) (s : State) : Type 0 where
  pub counted : (o : ℕ) → s.count o ≡ owners o s.refs + occurs o s.raw + extra o
  pub few : (o : ℕ) → s.count o ≤ s.made
  pub live : (o : ℕ) → s.alive o ≡ not (s.count o == 0)
  pub unmade : (o : ℕ) → s.fresh ≤ o → s.count o ≡ 0
  pub sane : s.failed ≡ false

pub add_if_valid-Inv :
    (extra : ℕ → ℕ) (obj : Option ℕ) (s : State)
    → s.made + 1 < 2 ^ 64
    → ((o : ℕ) → at o obj ≤ s.count o)
    → Inv extra s
    → Inv (λ o. extra o + at o obj) (add_if_valid obj s)
unfolding add_if_valid
add_if_valid-Inv extra none s small here v = record {
  counted = λ o. omega (arith, v.counted o);
  few = v.few;
  live = v.live;
  unmade = v.unmade;
  sane = v.sane;
}
add_if_valid-Inv extra (some p) s small here v =
    let there : s.alive p ≡ true = ground (arith, v.live p, here p) in
    let counted_up : Inv (λ o. extra o + at o (some p))
        (record s { count = write p ((s.count p + 1) % word) s.count; made = s.made + 1 }) =
      record {
        counted = λ o. ground (arith, v.counted o, v.few p, small);
        few = λ o. ground (arith, v.few o, v.few p, small);
        live = λ o. ground (arith, v.live o, v.few p, small, there);
        unmade = λ o h. ground (arith, v.unmade o, v.unmade p, here p);
        sane = v.sane;
      } in
    ground (arith, there, counted_up)

pub release_if_valid-Inv :
    (extra : ℕ → ℕ) (obj : Option ℕ) (s : State)
    → s.made < 2 ^ 64
    → Inv (λ o. extra o + at o obj) s
    → Inv extra (release_if_valid obj s)
unfolding release_if_valid
release_if_valid-Inv extra none s small v = record {
  counted = λ o. omega (arith, v.counted o);
  few = v.few;
  live = v.live;
  unmade = v.unmade;
  sane = v.sane;
}
release_if_valid-Inv extra (some p) s small v =
    let there : s.alive p ≡ true = ground (arith, v.live p, v.counted p) in
    let counted_down : Inv extra (record s {
      count = write p ((s.count p + word - 1) % word) s.count;
      alive = if s.count p == 1 then write p false s.alive else s.alive;
    }) =
      record {
        counted = λ o. ground (arith, v.counted o, v.counted p, v.few p, small);
        few = λ o. ground (arith, v.few o, v.few p, v.counted p, small);
        live = λ o. ground (arith, v.live o, v.few p, v.counted p, small, there);
        unmade = λ o h. ground (arith, v.unmade o, v.unmade p, v.counted p);
        sane = v.sane;
      } in
    ground (arith, there, counted_down)

-- A variable gives up what it holds, and takes over what was held elsewhere.
pub put-Inv :
    (extra extra' : ℕ → ℕ) (v : ℕ) (old new : Slot) (s : State)
    → get_elem? s.refs v ≡ some old
    → ((o : ℕ) → extra o + at_slot o old ≡ extra' o + at_slot o new)
    → Inv extra s
    → Inv extra' (put v new s)
put-Inv extra extra' v old new s found same i = record {
  counted = λ o. omega (arith, i.counted o, owners-set s.refs v old new found o, same o);
  few = i.few;
  live = i.live;
  unmade = i.unmade;
  sane = i.sane;
}

pub put-release_if_valid :
    (v : ℕ) (slot : Slot) (obj : Option ℕ) (s : State)
    → put v slot (release_if_valid obj s) ≡ release_if_valid obj (put v slot s)
unfolding release_if_valid
put-release_if_valid v slot none s = refl
put-release_if_valid v slot (some o) s = ground arith

put-add_if_valid :
    (v : ℕ) (slot : Slot) (obj : Option ℕ) (s : State)
    → put v slot (add_if_valid obj s) ≡ add_if_valid obj (put v slot s)
unfolding add_if_valid
put-add_if_valid v slot none s = refl
put-add_if_valid v slot (some o) s = ground arith
