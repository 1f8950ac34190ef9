-- ===== src/Auth/Lockout/Runs.antt =====
-- Failures one after another.
use aytrackerv.Prelude.{
  ℕ, ◌+◌, ◌-◌, ◌*◌, ◌^◌, ◌≡◌, ap, ◌∙◌, List, [], ◌∷◌, arith, ltb, length, min, if◌then◌else◌,
}
use aytrackerv.Domain.Time.{Instant}
use aytrackerv.Auth.Lockout.{
  LockoutPolicy, LockoutState, seconds_until_unlock, register_failure, register_success,
}

-- The state after failures at the given instants, the first one first.
abbrev pub fail_all : LockoutPolicy → List Instant → LockoutState → LockoutState
fail_all policy [] state = state
fail_all policy (at ∷ times) state = fail_all policy times (register_failure state at policy)

failed_once :
    (policy : LockoutPolicy) (at : Instant) (state : LockoutState)
    → (register_failure state at policy).failed_attempts ≡ state.failed_attempts + 1
unfolding register_failure
failed_once policy at state = ground arith

failed_all :
    (policy : LockoutPolicy) (times : List Instant) (state : LockoutState)
    → (fail_all policy times state).failed_attempts ≡ state.failed_attempts + length times
failed_all policy [] state = omega arith
failed_all policy (at ∷ times) state =
    omega (
      arith,
      failed_once policy at state,
      failed_all policy times (register_failure state at policy),
    )

-- The lock that a number of failures calls for.
abbrev pub lock_seconds : LockoutPolicy → ℕ → ℕ
lock_seconds policy failures =
    if ltb failures policy.threshold
    then 0
    else min (policy.base_lock_seconds * 2 ^ (failures - policy.threshold)) policy.max_lock_seconds

failure_locks :
    (policy : LockoutPolicy) (now : Instant) (state : LockoutState)
    → seconds_until_unlock (register_failure state now policy) now
      ≡ lock_seconds policy (state.failed_attempts + 1)
unfolding seconds_until_unlock register_failure
failure_locks policy now state = ground arith

-- Since the last success, only the number of failures counts, and not when they came: once the last
-- of them has failed, the identity stays locked for no time below the threshold, and from the
-- threshold on for the base time, doubled with each further failure, up to the longest lock.
pub register_failure_run :
    (policy : LockoutPolicy) (times : List Instant) (now : Instant)
    → seconds_until_unlock
        (register_failure (fail_all policy times register_success) now policy)
        now
      ≡ lock_seconds policy (length times + 1)
register_failure_run policy times now =
    let failures = (fail_all policy times register_success).failed_attempts in
    let count : failures ≡ length times = omega (arith, failed_all policy times register_success) in
    failure_locks policy now (fail_all policy times register_success)
    ∙ ap (λ n. lock_seconds policy (n + 1)) count
