-- ===== src/Result/Soundness.antt =====
-- The class invariant of Result: the storage holds an object exactly when there is no error.
use magic_core.Prelude.{◌≡◌, refl, Bool, true, false, Option, none, some, arith, ◌⊎◌, inl, inr}
use magic_core.Result.{
  Error, Thrown, returned, thrown, undefined, Result, ok, fail, is_ok, value_or_throw,
  copy_construct, assign, assign_self, monostate, exception, code, object, system_error,
}

abbrev pub holds : {A : Type 0} → Option A → Bool
holds none = false
holds (some a) = true

abbrev pub IsSound : {A : Type 0} → Result A → Type 0
IsSound r = holds r.storage ≡ is_ok r

module _ {A : Type 0} where
  -- A result that is made from a value or from an error, and a copy of a sound result, are sound; the
  -- copy, and the target of an assignment from another object, equal their source. An assignment of
  -- a result with a value to itself is the exception: it leaves one whose ValueOrThrow reads raw
  -- storage, although IsOk holds.
  pub result_IsSound :
      (value : A) (e : Error) (that r made : Result A)
      → IsSound that
      → IsSound r
      → fail e ≡ some made
      → IsSound (ok value)
        × IsSound made
        × (copy_construct that ≡ that)
        × (assign that r ≡ that)
        × (is_ok that ≡ true
            → (is_ok (assign_self that) ≡ true) × (value_or_throw (assign_self that) ≡ undefined))
  unfolding copy_construct assign assign_self value_or_throw
  result_IsSound value e that r made s t m =
      (refl, ground arith, ground arith, ground arith, λ o. ground arith)

  value_or_throw_parts :
      (storage : Option A) (e : Error)
      → let r : Result A = record { storage = storage; error = e } in
        IsSound r
        → ((is_ok r ≡ true) × ((v : A) × (storage ≡ some v) × (value_or_throw r ≡ returned v)))
          ⊎ ((is_ok r ≡ false) × ((t : Thrown) × (value_or_throw r ≡ thrown t)))
  unfolding value_or_throw
  value_or_throw_parts (some v) monostate s = inl (refl, (v, refl, refl))
  value_or_throw_parts none (exception p) s = inr (refl, (object p, refl))
  value_or_throw_parts none (code c) s = inr (refl, (system_error c, refl))
  value_or_throw_parts none monostate s = absurd (cc s)
  value_or_throw_parts (some v) (exception p) s = absurd (cc s)
  value_or_throw_parts (some v) (code c) s = absurd (cc s)

  -- ValueOrThrow of a sound result never reads raw storage: it returns a value exactly when IsOk
  -- holds, and throws otherwise.
  pub value_or_throw_lem :
      (r : Result A)
      → IsSound r
      → ((is_ok r ≡ true) × ((v : A) × (r.storage ≡ some v) × (value_or_throw r ≡ returned v)))
        ⊎ ((is_ok r ≡ false) × ((t : Thrown) × (value_or_throw r ≡ thrown t)))
  value_or_throw_lem r s = value_or_throw_parts r.storage r.error s

  -- Assigning a sound result to itself destroys its value: what is left claims to hold a value and
  -- reads raw storage.
  pub assign_self_breaks :
      (r : Result A)
      → IsSound r
      → is_ok r ≡ true
      → (is_ok (assign_self r) ≡ true) × (value_or_throw (assign_self r) ≡ undefined)
  unfolding assign_self value_or_throw
  assign_self_breaks r s o = ground arith
