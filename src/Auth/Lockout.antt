-- ===== src/Auth/Lockout.antt =====
-- packages/auth/src/lockout.ts. The seconds of a policy are whole numbers.
pub mod Runs
use aytrackerv.Prelude.{
  ℕ, ◌+◌, ◌-◌, ◌*◌, ◌/◌, ◌^◌, Bool, true, false, Option, none, some, ltb, min, if◌then◌else◌,
}
use aytrackerv.Domain.Time.{Instant}

pub record LockoutPolicy : Type 0 where
  pub threshold : ℕ
  pub base_lock_seconds : ℕ
  pub max_lock_seconds : ℕ

abbrev pub default_pin_lockout : LockoutPolicy
default_pin_lockout = record { threshold = 5; base_lock_seconds = 60; max_lock_seconds = 900 }

abbrev pub default_password_lockout : LockoutPolicy
default_password_lockout = record {
  threshold = 10;
  base_lock_seconds = 60;
  max_lock_seconds = 3600;
}

pub record LockoutState : Type 0 where
  pub failed_attempts : ℕ
  pub locked_until : Option Instant

abbrev pub is_after : Instant → Option Instant → Bool
is_after now none = false
is_after now (some until) = ltb now until

unfoldable pub is_locked_out : LockoutState → Instant → Bool
is_locked_out state now = is_after now state.locked_until

-- The seconds to an instant that is later, rounded up.
abbrev pub seconds_until : Instant → Option Instant → ℕ
seconds_until now none = 0
seconds_until now (some until) = (until - now + 999) / 1000

unfoldable pub seconds_until_unlock : LockoutState → Instant → ℕ
unfolding is_locked_out
seconds_until_unlock state now =
    if is_locked_out state now then seconds_until now state.locked_until else 0

unfoldable pub register_failure : LockoutState → Instant → LockoutPolicy → LockoutState
register_failure state now policy =
    let failed_attempts = state.failed_attempts + 1 in
    if ltb failed_attempts policy.threshold
    then record { failed_attempts = failed_attempts; locked_until = none }
    else let seconds =
        min (policy.base_lock_seconds * 2 ^ (failed_attempts - policy.threshold))
          policy.max_lock_seconds in
      record { failed_attempts = failed_attempts; locked_until = some (now + seconds * 1000) }

abbrev pub register_success : LockoutState
register_success = record { failed_attempts = 0; locked_until = none }
