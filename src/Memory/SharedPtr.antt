-- ===== src/Memory/SharedPtr.antt =====
-- src/magic/common/shared_ptr.h: pointers with a control block, and an atomic cell for them. Control
-- blocks and variables of type SharedPtr have numbers. One event is one operation on a variable.
pub mod View
pub mod Ownership
pub mod Atomic
mod Examples
use magic_core.Prelude.{
  ℕ, suc, ◌+◌, ◌-◌, ◌%◌, ◌^◌, Bool, true, false, ◌&&◌, Option, none, some, List, [], ◌∷◌, ◌==◌, ltb,
  leb, get_elem?, set, if◌then◌else◌,
}
use magic_core.Memory.Ref.{Slot, gone, holds, all_gone, write}

-- The values of an int32_t, as their remainders: those from half on are the negative ones.
abbrev pub word : ℕ
word = 2 ^ 32

abbrev pub half : ℕ
half = 2 ^ 31

-- The sum of two of them is one of them: the addition does not overflow.
pub fits : ℕ → ℕ → Bool
fits m n =
    if ltb m half
    then if ltb n half then ltb (m + n) half else true
    else if ltb n half
    then true
    else leb (word + half) (m + n)

pub record State : Type 0 where
  pub refs : List Slot  -- the pointers to control blocks
  pub transient : ℕ → ℕ  -- the two counts of each block
  pub strong : ℕ → ℕ
  pub alive : ℕ → Bool  -- the block, and with it its object, is not deleted
  pub fresh : ℕ  -- the next block
  pub made : ℕ  -- references counted so far, which bounds every count
  pub failed : Bool  -- a deleted block or the null pointer was used, or a count has overflowed

pub data Event : Type 0 where
  makes : (v : ℕ) → Event  -- SharedPtr(T*), MakeShared
  nulls : (v : ℕ) → Event  -- SharedPtr(nullptr)
  copies : (v w : ℕ) → Event  -- SharedPtr(const SharedPtr&)
  assigns : (v w : ℕ) → Event  -- operator=(const SharedPtr&)
  moves : (v w : ℕ) → Event  -- SharedPtr(SharedPtr&&)
  swaps : (v w : ℕ) → Event  -- operator=(SharedPtr&&)
  resets : (v : ℕ) → Event  -- Reset
  dies : (v : ℕ) → Event  -- ~SharedPtr

abbrev pub init : ℕ → State
init variables = record {
  refs = all_gone variables;
  transient = λ b. 0;
  strong = λ b. 0;
  alive = λ b. false;
  fresh = 0;
  made = 0;
  failed = false;
}

-- IncrementRefCount({transient, strong}), with the test of IsZero.
pub increment_ref_count : ℕ → ℕ → ℕ → State → State
unfolding fits
increment_ref_count transient strong b s =
    if s.alive b && fits (s.transient b) transient && fits (s.strong b) strong
    then record s {
      transient = write b ((s.transient b + transient) % word) s.transient;
      strong = write b ((s.strong b + strong) % word) s.strong;
      alive =
          if (s.transient b + transient) % word == 0 && (s.strong b + strong) % word == 0
          then write b false s.alive
          else s.alive;
    }
    else record s { failed = true }

-- DecrementRefCount({count, count})
pub decrement_ref_count : ℕ → ℕ → State → State
unfolding increment_ref_count
decrement_ref_count count b s = increment_ref_count (word - count) (word - count) b s

-- `if (cb_ptr_) cb_ptr_->IncrementRefCount();`
pub add_if_valid : Option ℕ → State → State
unfolding increment_ref_count
add_if_valid none s = s
add_if_valid (some b) s = increment_ref_count 1 1 b (record s { made = s.made + 1 })

-- Reset, but for the write to the pointer.
pub release_if_valid : Option ℕ → State → State
unfolding decrement_ref_count
release_if_valid none s = s
release_if_valid (some b) s = decrement_ref_count 1 b s

abbrev pub put : ℕ → Slot → State → State
put v slot s = record s { refs = set s.refs v slot }

-- A new block with its counts at zero, and its first reference.
pub make : ℕ → State → State
unfolding add_if_valid
make v s = put v (holds (some s.fresh)) (
    add_if_valid (some s.fresh) (record s {
      transient = write s.fresh 0 s.transient;
      strong = write s.fresh 0 s.strong;
      alive = write s.fresh true s.alive;
      fresh = s.fresh + 1;
    }))

-- operator= with a copy: Swap, and the destructor of the copy.
pub swap_in : ℕ → Option ℕ → Option ℕ → State → State
unfolding release_if_valid
swap_in v obj old s = release_if_valid old (put v (holds obj) s)

-- A variable to construct, or one that is there.
abbrev pub if_gone : ℕ → State → (State → State) → Option State
if_gone v s k = elim (get_elem? s.refs v) [
  | none ↦ none
  | some slot ↦ elim slot [ gone ↦ some (k s) | holds obj ↦ none ]
]

abbrev pub if_there : ℕ → State → (Option ℕ → Option State) → Option State
if_there v s k = elim (get_elem? s.refs v) [
  | none ↦ none
  | some slot ↦ elim slot [ gone ↦ none | holds obj ↦ k obj ]
]

-- `none`: the variables are not as the operation needs them.
pub step : Event → State → Option State
unfolding add_if_valid release_if_valid make swap_in
step (makes v) s = if_gone v s (make v)
step (nulls v) s = if_gone v s (put v (holds none))
step (copies v w) s = if_there w s λ obj. if_gone v s λ t. put v (holds obj) (add_if_valid obj t)
step (assigns v w) s =
    if_there w s λ obj. if_there v s λ old. some (swap_in v obj old (add_if_valid obj s))
step (moves v w) s = if_there w s λ obj. if_gone v s λ t. put v (holds obj) (put w (holds none) t)
step (swaps v w) s =
    if_there w s λ obj. if_there v s λ old. some (put v (holds obj) (put w (holds old) s))
step (resets v) s = if_there v s λ obj. some (put v (holds none) (release_if_valid obj s))
step (dies v) s = if_there v s λ obj. some (put v gone (release_if_valid obj s))

pub run : List Event → State → Option State
run [] s = some s
run (e ∷ es) s = elim (step e s) [ none ↦ none | some t ↦ run es t ]
