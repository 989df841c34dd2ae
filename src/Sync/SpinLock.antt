-- ===== src/Sync/SpinLock.antt =====
-- src/magic/concurrency/spinlock.h: one event is the next access of a thread to `locked_`. A thread
-- calls Unlock only behind its Lock.
pub mod Exclusion
mod Examples
use magic_core.Prelude.{
  ℕ, zero, suc, Option, none, some, List, [], ◌∷◌, ◌==◌, get_elem?, set, if◌then◌else◌,
}

-- Where a thread stands.
pub data Place : Type 0 where
  outside : Place
  exchanging : Place  -- Lock, in front of the exchange
  spinning : Place  -- Lock, in the inner loop
  inside : Place

pub record State : Type 0 where
  pub locked : ℕ
  pub threads : List Place

abbrev pub all_outside : ℕ → List Place
all_outside zero = []
all_outside (suc n) = outside ∷ all_outside n

abbrev pub init : ℕ → State
init threads = record { locked = 0; threads = all_outside threads }

abbrev pub go : ℕ → Place → State → State
go t p s = record s { threads = set s.threads t p }

-- The exchange in Lock
unfoldable pub exchange : ℕ → State → State
exchange t s = record (go t (if s.locked == 1 then spinning else inside) s) { locked = 1 }

-- A load of the inner loop
unfoldable pub spin : ℕ → State → State
spin t s = if s.locked == 1 then s else go t exchanging s

unfoldable pub unlock : ℕ → State → State
unlock t s = record (go t outside s) { locked = 0 }

-- The next action of a thread: it calls Lock, goes on in it, or calls Unlock.
unfoldable pub advance : ℕ → Place → State → State
unfolding exchange spin unlock
advance t outside s = go t exchanging s
advance t exchanging s = exchange t s
advance t spinning s = spin t s
advance t inside s = unlock t s

pub run : List ℕ → State → Option State
unfolding advance
run [] s = some s
run (t ∷ ts) s = elim (get_elem? s.threads t) [ none ↦ none | some p ↦ run ts (advance t p s) ]
