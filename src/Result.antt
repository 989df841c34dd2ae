-- ===== src/Result.antt =====
-- src/magic/common/result.h and result/: a value or an error. An exception is known by the number
-- of its object.
pub mod Soundness
pub mod Invoke
mod Examples
use magic_core.Prelude.{ℕ, Bool, true, false, not, ◌||◌, Option, none, some, ◌==◌, if◌then◌else◌}

-- std::error_code
pub record Code : Type 0 where
  pub value : ℕ
  pub category : ℕ

-- Error: the alternatives of its std::variant.
pub data Error : Type 0 where
  monostate : Error
  exception : (pointer : ℕ) → Error
  code : (error : Code) → Error

-- What a C++ expression throws.
pub data Thrown : Type 0 where
  object : (pointer : ℕ) → Thrown
  system_error : (error : Code) → Thrown

pub data Outcome (A : Type 0) : Type 0 where
  returned : A → Outcome A
  thrown : Thrown → Outcome A
  undefined : Outcome A  -- reads storage that holds no object

abbrev pub has_exception : Error → Bool
has_exception (exception p) = true
has_exception _ = false

abbrev pub has_error_code : Error → Bool
has_error_code (code c) = true
has_error_code _ = false

abbrev pub has_error : Error → Bool
has_error e = has_error_code e || has_exception e

-- ErrorCode; `none`: its assertion fails.
abbrev pub error_code : Error → Option Code
error_code (code c) = some c
error_code _ = none

-- ThrowIfError, and what follows it where nothing is thrown.
abbrev pub throw_if_error : {A : Type 0} → Error → Outcome A → Outcome A
throw_if_error (exception p) next = thrown (object p)
throw_if_error (code c) next = thrown (system_error c)
throw_if_error monostate next = next

-- Result<T>. The storage holds an object or raw memory.
pub record Result (A : Type 0) : Type 0 where
  pub storage : Option A
  pub error : Error

module _ {A : Type 0} where
  -- Result::Ok, Result(T&&)
  abbrev pub ok : A → Result A
  ok value = record { storage = some value; error = monostate }

  -- Result::Fail; `none`: the assertion of the constructor fails.
  abbrev pub fail : Error → Option (Result A)
  fail e = if has_error e then some (record { storage = none; error = e }) else none

  -- IsOk and HasValue
  abbrev pub is_ok : Result A → Bool
  is_ok r = not (has_error r.error)

  abbrev pub match_error_code : ℕ → Result A → Option Bool
  match_error_code expected r = elim (error_code r.error) [
    | none ↦ none
    | some c ↦ some (c.value == expected)
  ]

  -- ValueUnsafe, operator* and operator->
  abbrev pub value_unsafe : Result A → Outcome A
  value_unsafe r = elim r.storage [ none ↦ undefined | some value ↦ returned value ]

  -- ValueOrThrow, Unwrap and the conversion to T
  pub value_or_throw : Result A → Outcome A
  value_or_throw r = throw_if_error r.error (value_unsafe r)

  -- ~Result, and the first action of both assignments
  pub destroy_value_if_exists : Result A → Result A
  destroy_value_if_exists r = if is_ok r then record r { storage = none } else r

  -- MoveImpl and CopyImpl, into storage that holds no object.
  pub copy_impl : Result A → Result A → Result A
  copy_impl that r =
      if is_ok that
      then record { storage = that.storage; error = that.error }
      else record r { error = that.error }

  -- The constructors from a Result start from raw storage.
  pub copy_construct : Result A → Result A
  unfolding copy_impl
  copy_construct that = copy_impl that (record { storage = none; error = monostate })

  -- operator= from another object
  pub assign : Result A → Result A → Result A
  unfolding destroy_value_if_exists copy_impl
  assign that r = copy_impl that (destroy_value_if_exists r)

  -- operator= of an object to itself: the source is destroyed first.
  pub assign_self : Result A → Result A
  unfolding destroy_value_if_exists copy_impl
  assign_self r = let r' = destroy_value_if_exists r in copy_impl r' r'

-- Result<void>
abbrev pub Status : Type 0
Status = Error

abbrev pub status_is_ok : Status → Bool
status_is_ok s = not (has_error s)

-- make_result::Fail(std::error_code); `none`: its assertion fails.
pub fail_code : {A : Type 0} → Code → Option (Result A)
fail_code c = if c.value == 0 then none else fail (code c)

-- ToStatus
pub to_status : Code → Status
to_status c = if c.value == 0 then monostate else code c

module _ {A B : Type 0} where
  -- PropagateError, converted to another Result
  pub propagate_error : Result A → Option (Result B)
  propagate_error r = fail r.error

-- JustStatus
pub just_status : {A : Type 0} → Result A → Option Status
just_status r =
    if is_ok r then some monostate else (if has_error r.error then some r.error else none)

-- std::current_exception() of what a catch (...) has caught: a system_error is an object as well.
module _ (pointer_of : Code → ℕ) where
  current_exception : Thrown → Error
  current_exception (object p) = exception p
  current_exception (system_error c) = exception (pointer_of c)

  -- make_result::Invoke: a call of `f` that may throw.
  pub invoke : {A : Type 0} → Outcome A → Option (Result A)
  unfolding current_exception
  invoke (returned value) = some (ok value)
  invoke (thrown t) = fail (current_exception t)
  invoke undefined = none
