-- ===== src/Lockfree/TwoStacks.antt =====
-- src/magic/concurrency/lockfree/queue.h: LockFreeQueue, by what its two stacks hold. IsEmpty, Push,
-- TryPop, and the exchange in ConsumeAll are atomic actions; ConsumeAll then calls its handler for
-- one value after the other.
pub mod Balance
mod Examples
pub mod Fifo
pub mod TakeAll
use magic_core.Prelude.{
  ℕ, zero, suc, ◌+◌, Bool, true, false, ◌&&◌, Option, none, some, List, [], ◌∷◌, ◌++◌, get_elem?,
  set, if◌then◌else◌,
}

-- Where a consumer stands in Take.
pub data Place : Type 0 where
  outside : Place
  consuming : Place  -- reserve_ was empty: in front of the exchange
  moving : List ℕ → Place  -- with the values that are not pushed to reserve_
  popping : Place

pub record State : Type 0 where
  pub main : List ℕ
  pub reserve : List ℕ
  pub consumers : List Place
  pub put : List ℕ  -- all values that were put, and those that were taken, in order
  pub taken : List ℕ

pub data Event : Type 0 where
  puts : ℕ → Event
  acts : (consumer : ℕ) → Event

abbrev pub all_outside : ℕ → List Place
all_outside zero = []
all_outside (suc n) = outside ∷ all_outside n

abbrev pub init : ℕ → State
init consumers = record {
  main = [];
  reserve = [];
  consumers = all_outside consumers;
  put = [];
  taken = [];
}

abbrev pub go : ℕ → Place → State → State
go c p s = record s { consumers = set s.consumers c p }

abbrev is_nil : List ℕ → Bool
is_nil [] = true
is_nil (x ∷ xs) = false

pub is_empty : State → Bool
is_empty s = is_nil s.main && is_nil s.reserve

-- Put
unfoldable pub put_value : ℕ → State → State
put_value v s = record s { main = v ∷ s.main; put = s.put ++ v ∷ [] }

abbrev pub pop : ℕ → List ℕ → State → State
pop c [] s = go c outside s
pop c (v ∷ rest) s = record (go c outside s) { reserve = rest; taken = s.taken ++ v ∷ [] }

-- The next action of Take
unfoldable pub advance : ℕ → Place → State → State
advance c outside s = go c (if is_nil s.reserve then consuming else popping) s
advance c consuming s = record (go c (moving s.main) s) { main = [] }
advance c (moving []) s = go c popping s
advance c (moving (v ∷ rest)) s = record (go c (moving rest) s) { reserve = v ∷ s.reserve }
advance c popping s = pop c s.reserve s

unfoldable pub step : Event → State → Option State
unfolding put_value advance
step (puts v) s = some (put_value v s)
step (acts c) s = elim (get_elem? s.consumers c) [ none ↦ none | some p ↦ some (advance c p s) ]

pub run : List Event → State → Option State
unfolding step
run [] s = some s
run (e ∷ es) s = elim (step e s) [ none ↦ none | some t ↦ run es t ]
