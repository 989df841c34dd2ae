-- ===== src/Result/Examples.antt =====
-- Results at work.
use magic_core.Prelude.{true, ℕ, ◌≡◌, refl, none}
use magic_core.Result.{
  is_ok, value_or_throw, assign_self, undefined, Code, monostate, code, Result, ok, copy_construct,
  assign, to_status,
}
use magic_core.Result.Soundness.{IsSound, result_IsSound}

abbrev timed_out : Code
timed_out = record { value = 110; category = 1 }

abbrev failed : Result ℕ
failed = record { storage = none; error = code timed_out }

abbrev five : Result ℕ
five = ok 5

result_IsSound_example :
    IsSound {A = ℕ} (ok 3)
    × IsSound failed
    × (copy_construct failed ≡ failed)
    × (assign failed (ok 8) ≡ failed)
    × (is_ok failed ≡ true
        → (is_ok (assign_self failed) ≡ true) × (value_or_throw (assign_self failed) ≡ undefined))
result_IsSound_example = result_IsSound 3 (code timed_out) failed (ok 8) failed refl refl refl

zero_is_no_error : to_status (record { value = 0; category = 3 }) ≡ monostate
unfolding to_status
zero_is_no_error = refl
