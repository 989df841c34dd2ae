-- ===== src/Memory/Ref.antt =====
-- src/magic/common/refer/ref.h and ref_counted.h: intrusive reference counts. Objects and variables
-- of type Ref have numbers. One event is one operation on such a variable.
pub mod Invariant
pub mod Ownership
mod Examples
use magic_core.Prelude.{
  ℕ, zero, suc, ◌+◌, ◌-◌, ◌%◌, ◌^◌, Bool, true, false, Option, none, some, List, [], ◌∷◌, ◌==◌,
  get_elem?, set, erase_idx, if◌then◌else◌,
}

abbrev pub word : ℕ
word = 2 ^ 64

-- A variable, and the pointer that it holds.
pub data Slot : Type 0 where
  gone : Slot  -- not constructed, or destroyed
  holds : (obj : Option ℕ) → Slot

pub record State : Type 0 where
  pub refs : List Slot
  pub count : ℕ → ℕ  -- ref_count_ of each object
  pub alive : ℕ → Bool  -- the object is not deleted
  pub fresh : ℕ  -- the next object
  pub raw : List ℕ  -- pointers that Release has given out and nobody has adopted yet
  pub made : ℕ  -- references counted so far, which bounds every count
  pub failed : Bool  -- a deleted object was used

pub data Event : Type 0 where
  makes : (v : ℕ) → Event  -- New
  shares : (v obj : ℕ) → Event  -- Ref(U*) with the address of an object, as in RefFromThis
  nulls : (v : ℕ) → Event  -- Ref(), Ref(nullptr)
  copies : (v w : ℕ) → Event  -- Ref(const Ref&)
  moves : (v w : ℕ) → Event  -- Ref(Ref&&)
  assigns : (v w : ℕ) → Event  -- operator= with a copy
  takes : (v w : ℕ) → Event  -- operator= with a moved Ref
  resets : (v : ℕ) → Event  -- Reset
  releases : (v : ℕ) → Event  -- Release
  adopts : (v k : ℕ) → Event  -- Adopt
  dies : (v : ℕ) → Event  -- ~Ref

abbrev pub all_gone : ℕ → List Slot
all_gone zero = []
all_gone (suc n) = gone ∷ all_gone n

abbrev pub init : ℕ → State
init variables = record {
  refs = all_gone variables;
  count = λ o. 0;
  alive = λ o. false;
  fresh = 0;
  raw = [];
  made = 0;
  failed = false;
}

abbrev pub write {ℓ} : {A : Type ℓ} → ℕ → A → (ℕ → A) → ℕ → A
write o x f p = if p == o then x else f p

-- AddRef of RefCounted
unfoldable pub add_ref : ℕ → State → State
add_ref o s =
    if s.alive o
    then record s { count = write o ((s.count o + 1) % word) s.count; made = s.made + 1 }
    else record s { failed = true }

-- ReleaseRef of RefCounted, and DestroySelf
unfoldable pub release_ref : ℕ → State → State
release_ref o s =
    if s.alive o
    then record s {
      count = write o ((s.count o + word - 1) % word) s.count;
      alive = if s.count o == 1 then write o false s.alive else s.alive;
    }
    else record s { failed = true }

-- `if (IsValid()) AddRef();` and `if (IsValid()) ReleaseRef();`
unfoldable pub add_if_valid : Option ℕ → State → State
unfolding add_ref
add_if_valid none s = s
add_if_valid (some o) s = add_ref o s

unfoldable pub release_if_valid : Option ℕ → State → State
unfolding release_ref
release_if_valid none s = s
release_if_valid (some o) s = release_ref o s

-- obj_ = obj
abbrev pub put : ℕ → Slot → State → State
put v slot s = record s { refs = set s.refs v slot }

-- New: the object starts with the one reference that its Ref adopts.
unfoldable pub make : ℕ → State → State
make v s = record s {
  refs = set s.refs v (holds (some s.fresh));
  count = write s.fresh 1 s.count;
  alive = write s.fresh true s.alive;
  fresh = s.fresh + 1;
  made = s.made + 1;
}

-- operator=: the parameter holds `obj`; SwapWith, then its destructor.
unfoldable pub swap_in : ℕ → Option ℕ → Option ℕ → State → State
unfolding release_if_valid
swap_in v obj old s = release_if_valid old (put v (holds obj) s)

-- A variable to construct, or one that is there.
abbrev pub if_gone : ℕ → State → (State → State) → Option State
if_gone v s k = elim (get_elem? s.refs v) [
  | none ↦ none
  | some slot ↦ elim slot [ gone ↦ some (k s) | holds obj ↦ none ]
]

abbrev pub if_there : ℕ → State → (Option ℕ → Option State) → Option State
if_there v s k = elim (get_elem? s.refs v) [
  | none ↦ none
  | some slot ↦ elim slot [ gone ↦ none | holds obj ↦ k obj ]
]

-- `none`: the variables are not as the operation needs them.
pub step : Event → State → Option State
unfolding add_if_valid release_if_valid make swap_in
step (makes v) s = if_gone v s (make v)
step (shares v o) s =
    if s.alive o then if_gone v s (λ t. put v (holds (some o)) (add_if_valid (some o) t)) else none
step (nulls v) s = if_gone v s (put v (holds none))
step (copies v w) s = if_there w s λ obj. if_gone v s λ t. put v (holds obj) (add_if_valid obj t)
step (moves v w) s = if_there w s λ obj. if_gone v s λ t. put v (holds obj) (put w (holds none) t)
step (assigns v w) s =
    if_there w s λ obj. if_there v s λ old. some (swap_in v obj old (add_if_valid obj s))
step (takes v w) s =
    if_there w s
      λ obj. let t = put w (holds none) s in if_there v t λ old. some (swap_in v obj old t)
step (resets v) s = if_there v s λ obj. some (put v (holds none) (release_if_valid obj s))
step (releases v) s = if_there v s λ obj. elim obj [
  | none ↦ some s
  | some o ↦ some (record (put v (holds none) s) { raw = o ∷ s.raw })
]
step (adopts v k) s = elim (get_elem? s.raw k) [
  | none ↦ none
  | some o ↦ if_gone v s λ t. put v (holds (some o)) (record t { raw = erase_idx s.raw k })
]
step (dies v) s = if_there v s λ obj. some (put v gone (release_if_valid obj s))

pub run : List Event → State → Option State
run [] s = some s
run (e ∷ es) s = elim (step e s) [ none ↦ none | some t ↦ run es t ]
