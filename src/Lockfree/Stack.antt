-- ===== src/Lockfree/Stack.antt =====
-- src/magic/concurrency/lockfree/stack.h: LockFreeStack. Nodes have numbers; the links of the nodes
-- are the list behind the head, each with its stamp. A compare-exchange that fails in the loops of
-- Push, AcquireRef and ConsumeAll changes nothing, so that one event is one that succeeds; the one in
-- TryPop may fail at any time.
pub mod Invariant
pub mod Moves
pub mod Safety
mod Examples
use magic_core.Prelude.{
  ℕ, zero, suc, ◌+◌, ◌-◌, ◌%◌, ◌^◌, Bool, true, false, Option, none, some, List, [], ◌∷◌, ◌==◌,
  ◌&&◌, get_elem?, set, if◌then◌else◌,
}

-- A StampedPtr to a node
pub record Link : Type 0 where
  pub node : ℕ
  pub stamp : ℕ

-- Where a thread stands.
pub data Place : Type 0 where
  idle : Place
  holding : Link → Place  -- TryPop, behind AcquireRef
  missed : (node : ℕ) → Place  -- its compare-exchange has failed
  unlinked : Link → Place  -- its compare-exchange has taken the node
  consuming : List Link → Place  -- ConsumeAll, with the nodes that it has not passed

pub record State : Type 0 where
  pub head : List Link
  pub global : ℕ → ℕ  -- int32_t, by its 32 bits
  pub alive : ℕ → Bool  -- the node is not deleted
  pub fresh : ℕ  -- the next node
  pub places : List Place
  pub consumed : List ℕ  -- nodes whose value was moved out, the last one first
  pub acquired : ℕ  -- references taken so far, which bounds every stamp
  pub failed : Bool  -- a deleted node was used

-- Push, or the next action of a thread. An idle thread calls TryPop if `first`, or else ConsumeAll;
-- the compare-exchange of TryPop succeeds if `first`, or else fails.
pub data Event : Type 0 where
  pushes : Event
  acts : (t : ℕ) (first : Bool) → Event

abbrev pub all_idle : ℕ → List Place
all_idle zero = []
all_idle (suc n) = idle ∷ all_idle n

abbrev pub init : ℕ → State
init threads = record {
  head = [];
  global = λ n. 0;
  alive = λ n. false;
  fresh = 0;
  places = all_idle threads;
  consumed = [];
  acquired = 0;
  failed = false;
}

abbrev pub write {ℓ} : {A : Type ℓ} → ℕ → A → (ℕ → A) → ℕ → A
write n x f m = if m == n then x else f m

abbrev pub put : ℕ → Place → State → State
put t p s = record s { places = set s.places t p }

-- Access to a node
abbrev pub touch : ℕ → State → State
touch n s = record s { failed = if s.alive n then s.failed else true }

-- IncrementGlobal, where `val` is taken modulo 2 ^ 32: the node is deleted at zero.
pub increment_global : ℕ → ℕ → State → State
increment_global n val s =
    let total = (s.global n + val) % 2 ^ 32 in
    record (touch n s) {
      global = write n total s.global;
      alive = if total == 0 then write n false s.alive else s.alive;
    }

-- Push: a new node goes on top.
pub push : State → State
push s = record s {
  head = record { node = s.fresh; stamp = 0 } ∷ s.head;
  global = write s.fresh 0 s.global;
  alive = write s.fresh true s.alive;
  fresh = suc s.fresh;
}

-- AcquireRef: the head has 16 bits for the stamp, the result has 64. On an empty stack it counts in
-- the stamp of the null pointer, which nobody reads, and TryPop ends.
pub acquire_ref : ℕ → List Link → State → Option State
acquire_ref t [] s = none
acquire_ref t (link ∷ links) s =
    let held : Link = record link { stamp = link.stamp + 1 } in
    let packed : Link = record link { stamp = (link.stamp + 1) % 2 ^ 16 } in
    some (record (put t (holding held) s) { head = packed ∷ links; acquired = suc s.acquired })

-- TryPop: head->next is read, and the head is compared with the link that this thread has.
pub swap : ℕ → Link → List Link → State → Option State
swap t link [] s = none
swap t link (top ∷ links) s =
    if (top.node == link.node) && (top.stamp == link.stamp % 2 ^ 16)
    then some (record (touch link.node (put t (unlinked link) s)) { head = links })
    else none

-- `current->value`, and IncrementGlobal
pub consume : ℕ → ℕ → State → State
unfolding increment_global
consume n val s = increment_global n val (record s { consumed = n ∷ s.consumed })

-- One round of the second loop of ConsumeAll, or its end
pub walk : ℕ → List Link → State → State
unfolding consume
walk t [] s = put t idle s
walk t (link ∷ links) s = put t (consuming links) (consume link.node link.stamp s)

-- The compare-exchange of ConsumeAll
pub take : ℕ → State → State
take t s = record (put t (consuming s.head) s) { head = [] }

pub advance : ℕ → Bool → Place → State → Option State
unfolding acquire_ref swap increment_global consume walk take
advance t true idle s = acquire_ref t s.head s
advance t false idle s = some (take t s)
advance t true (holding link) s = swap t link s.head s
advance t false (holding link) s = some (touch link.node (put t (missed link.node) s))
advance t _ (missed n) s = some (put t idle (increment_global n (2 ^ 32 - 1) s))
advance t _ (unlinked link) s =
    some (put t idle (consume link.node ((link.stamp + (2 ^ 32 - 1)) % 2 ^ 32) s))
advance t _ (consuming links) s = some (walk t links s)

pub step : Event → State → Option State
unfolding push advance
step pushes s = some (push s)
step (acts t first) s = elim (get_elem? s.places t) [ none ↦ none | some p ↦ advance t first p s ]

pub run : List Event → State → Option State
run [] s = some s
run (e ∷ es) s = elim (step e s) [ none ↦ none | some t ↦ run es t ]
