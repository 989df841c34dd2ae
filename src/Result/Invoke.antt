-- ===== src/Result/Invoke.antt =====
-- Turning calls into results and back.
use magic_core.Prelude.{◌≡◌, ◌≢◌, refl, true, false, Option, none, some, ◌⊎◌, inl, inr, ℕ}
use magic_core.Result.{
  Code, Error, object, system_error, Outcome, returned, thrown, undefined, Result, ok, is_ok,
  value_or_throw, invoke, propagate_error, just_status, Status, status_is_ok, monostate, exception,
  code,
}
use magic_core.Result.Soundness.{IsSound}

module _ (pointer_of : Code → ℕ) where
  -- What a catch (...) that rethrows the current exception makes of a call.
  abbrev pub rethrown : {A : Type 0} → Outcome A → Outcome A
  rethrown (returned value) = returned value
  rethrown (thrown (object p)) = thrown (object p)
  rethrown (thrown (system_error c)) = thrown (object (pointer_of c))
  rethrown undefined = undefined

  -- Invoking a call catches whatever it throws, and unwrapping the result throws it again: for a
  -- call with a defined outcome the result is sound, and the round trip returns the same value or
  -- throws the same object.
  pub invoke-value_or_throw :
      {A : Type 0} (call : Outcome A)
      → call ≢ undefined
      → (r : Result A) × (invoke pointer_of call ≡ some r)
        × IsSound r
        × (value_or_throw r ≡ rethrown call)
  unfolding invoke value_or_throw
  invoke-value_or_throw (returned value) h = (ok value, refl, refl, refl)
  invoke-value_or_throw (thrown (object p)) h =
      (record { storage = none; error = exception p }, refl, refl, refl)
  invoke-value_or_throw (thrown (system_error c)) h =
      (record { storage = none; error = exception (pointer_of c) }, refl, refl, refl)
  invoke-value_or_throw undefined h = absurd (h refl)

abbrev pub Propagated : {A B : Type 0} → Result A → Option (Result B) → Type 0
Propagated {B} r p =
    ((is_ok r ≡ true) × (p ≡ none))
    ⊎ ((is_ok r ≡ false)
        × ((made : Result B) × (p ≡ some made) × IsSound made × (made.error ≡ r.error)))

abbrev pub Summarised : {A : Type 0} → Result A → Option Status → Type 0
Summarised r j = (s : Status) × (j ≡ some s) × (status_is_ok s ≡ is_ok r) × (s ≡ r.error)

propagate_parts :
    {A B : Type 0} (storage : Option A) (e : Error)
    → let r : Result A = record { storage = storage; error = e } in
      Propagated {B = B} r (propagate_error r) × Summarised r (just_status r)
unfolding propagate_error just_status
propagate_parts storage monostate = (inl (refl, refl), (monostate, refl, refl, refl))
propagate_parts storage (exception p) = (
  inr (refl, (record { storage = none; error = exception p }, refl, refl, refl)),
  (exception p, refl, refl, refl),
)
propagate_parts storage (code c) = (
  inr (refl, (record { storage = none; error = code c }, refl, refl, refl)),
  (code c, refl, refl, refl),
)

-- Propagating the error of a result works exactly when the result is not ok, and gives a sound
-- result with the same error; JustStatus always works, keeps the error, and is ok exactly when the
-- result is.
pub propagate_lem :
    {A B : Type 0} (r : Result A)
    → Propagated {B = B} r (propagate_error r) × Summarised r (just_status r)
propagate_lem r = propagate_parts r.storage r.error
