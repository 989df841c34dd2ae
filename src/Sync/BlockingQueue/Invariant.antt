-- ===== src/Sync/BlockingQueue/Invariant.antt =====
-- Where the values are, and which consumers sleep.
use magic_core.Prelude.{
  ℕ, ◌+◌, ◌≤◌, ◌<◌, ◌≡◌, refl, inl, inr, ◌⊎◌, subst, true, false, Bool-cases, Option, none, some,
  List, [], ◌∷◌, ◌++◌, length, length-append, get_elem?, set, ltb, arith,
}
use mathlib.Core.List.{append_assoc, append-nil}
use magic_core.Prelude.Totals.{total, total-set}
use magic_core.Sync.BlockingQueue.{
  Place, outside, sleeping, woken, got, State, go, sleeps, notified_all, wake, notify_one, put,
  take_or_wait, close, shutdown,
}

abbrev pub awakes : Place → ℕ
awakes woken = 1
awakes _ = 0

abbrev pub sleepers : State → ℕ
sleepers s = total sleeps s.consumers

abbrev pub awake : State → ℕ
awake s = total awakes s.consumers

-- All values, those that were taken first.
abbrev pub all_values : State → List ℕ
all_values s = s.taken ++ (s.buffer ++ (s.dropped ++ s.disposed))

pub record Inv (s : State) : Type 0 where
  pub order : all_values s ≡ s.accepted
  pub opened : s.closed ≡ false → (s.dropped ≡ []) × (s.disposed ≡ [])
  pub shut : s.closed ≡ true → (s.buffer ≡ []) × (sleepers s ≡ 0)
  pub wake_up : 0 < sleepers s → length s.buffer ≤ awake s

sleeps_moved :
    (c : ℕ) (p q : Place) (s : State)
    → get_elem? s.consumers c ≡ some p
    → total sleeps (set s.consumers c q) + sleeps p ≡ sleepers s + sleeps q
sleeps_moved c p q s at_c = total-set sleeps s.consumers c p q at_c

awakes_moved :
    (c : ℕ) (p q : Place) (s : State)
    → get_elem? s.consumers c ≡ some p
    → total awakes (set s.consumers c q) + awakes p ≡ awake s + awakes q
awakes_moved c p q s at_c = total-set awakes s.consumers c p q at_c

woken_all :
    (ps : List Place)
    → (total sleeps (notified_all ps) ≡ 0)
      × (total awakes (notified_all ps) ≡ total awakes ps + total sleeps ps)
woken_all [] = (refl, refl)
woken_all (sleeping ∷ ps) = let (a, b) = woken_all ps in (ground (arith, a), omega (arith, b))
woken_all (outside ∷ ps) = let (a, b) = woken_all ps in (ground (arith, a), omega (arith, b))
woken_all (woken ∷ ps) = let (a, b) = woken_all ps in (ground (arith, a), omega (arith, b))
woken_all (got v ∷ ps) = let (a, b) = woken_all ps in (ground (arith, a), omega (arith, b))

-- A consumer that does not sleep goes to sleep on an empty queue, or leaves with a value or nothing.
pub take-Inv :
    (c : ℕ) (p : Place) (buffer : List ℕ) (s : State)
    → get_elem? s.consumers c ≡ some p
    → sleeps p ≡ 0
    → s.buffer ≡ buffer
    → Inv s
    → Inv (take_or_wait c buffer s)
unfolding take_or_wait
take-Inv c p [] s at_c up empty i = elim (Bool-cases s.closed) [
  | inl shut ↦
      let m : Inv (go c (got none) s) = record {
        order = i.order;
        opened = i.opened;
        shut = λ h. ground (arith, i.shut h, up, sleeps_moved c p (got none) s at_c);
        wake_up = λ h. ground (arith, empty);
      } in
      ground (arith, shut, m)
  | inr open_yet ↦
      let m : Inv (go c sleeping s) = record {
        order = i.order;
        opened = i.opened;
        shut = λ h. absurd (ground (arith, h, open_yet));
        wake_up = λ h. ground (arith, empty);
      } in
      ground (arith, open_yet, m)
]
take-Inv c p (v ∷ rest) s at_c up full i = record {
  order =
      ground
        (arith, i.order, full, append_assoc s.taken (v ∷ []) (rest ++ (s.dropped ++ s.disposed)));
  opened = i.opened;
  shut = λ h. absurd (ground (arith, i.shut h, full));
  wake_up = λ h. ground (
    arith,
    h,
    i.wake_up,
    full,
    up,
    sleeps_moved c p (got (some v)) s at_c,
    awakes_moved c p (got (some v)) s at_c,
  );
}

notified-Inv :
    (c : ℕ) (s : State)
    → get_elem? s.consumers c ≡ some sleeping
    → (all_values s ≡ s.accepted)
    → (s.closed ≡ false)
    → (s.dropped ≡ []) × (s.disposed ≡ [])
    → length s.buffer ≤ awake s + 1
    → Inv (go c woken s)
notified-Inv c s at_c order open_yet none_gone few = record {
  order = order;
  opened = λ h. none_gone;
  shut = λ h. absurd (ground (arith, h, open_yet));
  wake_up = λ h. ground (arith, few, awakes_moved c sleeping woken s at_c);
}

pub wake-Inv :
    (c : ℕ) (s : State) → get_elem? s.consumers c ≡ some sleeping → Inv s → Inv (go c woken s)
wake-Inv c s at_c i = record {
  order = i.order;
  opened = i.opened;
  shut = λ h. ground (arith, i.shut h, sleeps_moved c sleeping woken s at_c);
  wake_up = λ h. ground (
    arith,
    h,
    i.wake_up,
    sleeps_moved c sleeping woken s at_c,
    awakes_moved c sleeping woken s at_c,
  );
}

Place-cases :
    (p : Option Place)
    → (p ≡ some sleeping) ⊎ ((p ≡ none) ⊎ ((q : Place) × (p ≡ some q) × (sleeps q ≡ 0)))
Place-cases none = inr (inl refl)
Place-cases (some sleeping) = inl refl
Place-cases (some outside) = inr (inr (outside, refl, refl))
Place-cases (some woken) = inr (inr (woken, refl, refl))
Place-cases (some (got v)) = inr (inr (got v, refl, refl))

-- What a wake-up is possible for.
pub wake_sleeping :
    (c : ℕ) (p : Option Place) (s t : State)
    → wake c p s ≡ some t
    → (p ≡ some sleeping) × (go c woken s ≡ t)
wake_sleeping c none s t e = absurd (ground (arith, e))
wake_sleeping c (some sleeping) s t e = (refl, ground (arith, e))
wake_sleeping c (some outside) s t e = absurd (ground (arith, e))
wake_sleeping c (some woken) s t e = absurd (ground (arith, e))
wake_sleeping c (some (got v)) s t e = absurd (ground (arith, e))

filled_values :
    (v : ℕ) (s : State)
    → Inv s
    → s.closed ≡ false
    → all_values (record s { buffer = s.buffer ++ v ∷ []; accepted = s.accepted ++ v ∷ [] })
      ≡ s.accepted ++ v ∷ []
filled_values v s i open_yet =
    let (no_drop, no_dispose) = i.opened open_yet in
    ground (
      arith,
      i.order,
      no_drop,
      no_dispose,
      append-nil s.buffer,
      append-nil (s.buffer ++ v ∷ []),
      append_assoc s.taken s.buffer (v ∷ []),
    )

pub put-Inv : (v c : ℕ) (s t : State) → put v c s ≡ some t → Inv s → Inv t
unfolding put notify_one
put-Inv v c s t e i = elim (Bool-cases s.closed) [
  | inl shut ↦ subst Inv (ground (arith, e, shut)) i
  | inr open_yet ↦
      let u = record s { buffer = s.buffer ++ v ∷ []; accepted = s.accepted ++ v ∷ [] } in
      let order = filled_values v s i open_yet in
      elim (Bool-cases (ltb 0 (sleepers s))) [
        | inl some_sleep ↦
            let (at_c, same) =
              wake_sleeping c (get_elem? s.consumers c) u t
                (ground (arith, e, open_yet, some_sleep)) in
            subst Inv same (
              notified-Inv c u at_c order open_yet (i.opened open_yet)
                (ground (arith, i.wake_up, some_sleep, length-append s.buffer (v ∷ []))))
        | inr none_sleep ↦
            let m : Inv u = record {
              order = order;
              opened = i.opened;
              shut = λ h. absurd (ground (arith, h, open_yet));
              wake_up = λ h. absurd (ground (arith, h, none_sleep));
            } in
            subst Inv (ground (arith, e, open_yet, none_sleep)) m
      ]
]

pub close-Inv : (s : State) → Inv s → Inv (close s)
unfolding close
close-Inv s i =
    let (none_sleep, all_awake) = woken_all s.consumers in
    record {
      order = ground (arith, i.order, append_assoc s.buffer s.dropped s.disposed);
      opened = λ h. absurd (ground (arith, h));
      shut = λ h. (refl, none_sleep);
      wake_up = λ h. omega arith;
    }

pub shutdown-Inv : (s : State) → Inv s → Inv (shutdown s)
unfolding shutdown
shutdown-Inv s i =
    let (none_sleep, all_awake) = woken_all s.consumers in
    record {
      order = elim (Bool-cases s.closed) [
        | inl shut ↦ ground (arith, i.order, i.shut shut, append-nil s.disposed)
        | inr open_yet ↦ ground (arith, i.order, i.opened open_yet, append-nil s.buffer)
      ];
      opened = λ h. absurd (ground (arith, h));
      shut = λ h. (refl, none_sleep);
      wake_up = λ h. omega arith;
    }
