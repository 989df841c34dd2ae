-- ===== src/Memory/SharedPtr/Atomic.antt =====
-- AtomicSharedPtr of src/magic/common/shared_ptr.h: a cell with a control block and a stamp, which
-- counts the calls of Load. One event is one call; the stamp has 16 bits.
use magic_core.Prelude.{
  ℕ, ◌+◌, ◌-◌, ◌%◌, ◌^◌, ◌≡◌, true, false, Option, none, some, get_elem?, arith,
}
use magic_core.Memory.Ref.{gone, holds}
use magic_core.Memory.SharedPtr.Ownership.{get_elem?-set_same}
use magic_core.Memory.SharedPtr.{
  State, fits, increment_ref_count, decrement_ref_count, add_if_valid, release_if_valid, put,
  if_gone, step, resets,
}

-- ptr_
pub record Cell : Type 0 where
  pub ptr : Option ℕ
  pub stamp : ℕ

abbrev pub init_cell : Cell
init_cell = record { ptr = none; stamp = 0 }

-- AcquireRef, where no other thread acts between the load and the exchange
unfoldable pub acquire_ref : Cell → Cell
acquire_ref c = elim c.ptr [ none ↦ c | some b ↦ record c { stamp = (c.stamp + 1) % 2 ^ 16 } ]

-- Load, into a new variable
unfoldable pub load : ℕ → Cell × State → Option (Cell × State)
unfolding acquire_ref
load v (c, s) = elim (if_gone v s (put v (holds c.ptr))) [
  | none ↦ none
  | some t ↦ some (acquire_ref c, t)
]

-- What Store does to the block that was in the cell.
unfoldable pub drop_old : Cell → State → State
unfolding decrement_ref_count
drop_old c s = elim c.ptr [ none ↦ s | some b ↦ decrement_ref_count c.stamp b s ]

-- `value.cb_ptr_->IncrementRefCount()`
unfoldable pub add_stored : Option ℕ → State → State
unfolding add_if_valid
add_stored none s = record s { failed = true }
add_stored (some b) s = add_if_valid (some b) s

-- Store: the parameter holds `obj`, which is exchanged into the cell and counted; then the old block
-- is given up, and the parameter is destroyed.
unfoldable pub store_value : Option ℕ → Cell → State → State
unfolding release_if_valid drop_old add_stored
store_value obj c s = release_if_valid obj (drop_old c (add_stored obj s))

-- Store of a copy of a variable
unfoldable pub store : ℕ → Cell × State → Option (Cell × State)
unfolding store_value add_if_valid
store w (c, s) = elim (get_elem? s.refs w) [
  | none ↦ none
  | some slot ↦ elim slot [
    | gone ↦ none
    | holds obj ↦ some (record { ptr = obj; stamp = 0 }, store_value obj c (add_if_valid obj s))
  ]
]

-- Load does not count its result in the block: when the cell holds the only reference to a block, a
-- variable that loads it and is reset deletes the block, while the cell still points to it.
pub load_deletes :
    (v b : ℕ) (c : Cell) (s : State)
    → c.ptr ≡ some b
    → get_elem? s.refs v ≡ some gone
    → s.alive b ≡ true
    → (s.transient b ≡ 1) × (s.strong b ≡ 1)
    → (d : Cell) × (t u : State) × (load v (c, s) ≡ some (d, t))
      × (step (resets v) t ≡ some u)
      × (d.ptr ≡ some b)
      × (u.alive b ≡ false)
unfolding load acquire_ref step release_if_valid decrement_ref_count increment_ref_count fits
load_deletes v b c s here empty there (one, one') =
    let put_back = get_elem?-set_same s.refs v gone (holds (some b)) empty in
    let t : State = put v (holds (some b)) s in
    let u : State = put v (holds none) (decrement_ref_count 1 b t) in
    let zero : (s.strong b + (2 ^ 32 - 1)) % 2 ^ 32 ≡ 0 = omega (arith, one') in
    let zero' : (s.transient b + (2 ^ 32 - 1)) % 2 ^ 32 ≡ 0 = omega (arith, one) in
    (
      record c { stamp = (c.stamp + 1) % 2 ^ 16 },
      t,
      u,
      ground (arith, here, empty),
      ground (arith, put_back),
      here,
      ground (arith, there, zero, zero'),
    )
