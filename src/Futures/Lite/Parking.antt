-- ===== src/Futures/Lite/Parking.antt =====
-- The window between the look at the result and the parking.
use magic_core.Prelude.{ℕ, ◌≡◌, refl, sym, subst, false, some, List, [], ◌∷◌, arith}
use magic_core.Futures.Lite.{
  Getter, starts, checked, parked, suspended, resumed, returned, finished, State, Event, gets, sets,
  init, get, set_value, step, run,
}

-- 1 for a fiber that is on its way to sleep.
abbrev pub asleep : Getter → ℕ
asleep checked = 1
asleep parked = 1
asleep suspended = 1
asleep _ = 0

record Lost (value : ℕ) (s : State) : Type 0 where
  over : s.setter ≡ finished
  stays : asleep s.getter ≡ 1
  sane : s.failed ≡ false
  there : s.result ≡ some value

get-Lost : (value : ℕ) (g : Getter) (s : State) → s.getter ≡ g → Lost value s → Lost value (get g s)
unfolding get
get-Lost value starts s at_g l = absurd (ground (arith, l.stays, at_g))
get-Lost value checked s at_g l = record {
  over = l.over;
  stays = refl;
  sane = l.sane;
  there = l.there;
}
get-Lost value parked s at_g l = record {
  over = l.over;
  stays = refl;
  sane = l.sane;
  there = l.there;
}
get-Lost value suspended s at_g l = l
get-Lost value resumed s at_g l = absurd (ground (arith, l.stays, at_g))
get-Lost value (returned v) s at_g l = absurd (ground (arith, l.stays, at_g))

run-Lost : (value : ℕ) (es : List Event) (s : State) → Lost value s → Lost value (run es s)
unfolding run step set_value
run-Lost value [] s l = l
run-Lost value (gets ∷ es) s l =
    run-Lost value es (get s.getter s) (get-Lost value s.getter s refl l)
run-Lost value (sets ∷ es) s l =
    let same : set_value s.setter s ≡ s = ground (arith, l.over) in
    run-Lost value es (set_value s.setter s) (subst (Lost value) (sym same) l)

-- When Get has found no result, and Set then sets it and looks for a fiber before Get has stored its
-- own: whatever the two do from then on, Get never returns, although the value is there and no check
-- has failed.
pub get_sleeps :
    (value : ℕ) (es : List Event)
    → (asleep (run (gets ∷ sets ∷ sets ∷ es) (init value)).getter ≡ 1)
      × ((run (gets ∷ sets ∷ sets ∷ es) (init value)).failed ≡ false)
      × ((run (gets ∷ sets ∷ sets ∷ es) (init value)).result ≡ some value)
unfolding run step get set_value
get_sleeps value es =
    let s : State = record {
      result = some value;
      fiber = false;
      getter = checked;
      setter = finished;
      failed = false;
    } in
    let l = run-Lost value es s (record { over = refl; stays = refl; sane = refl; there = refl }) in
    (l.stays, l.sane, l.there)
