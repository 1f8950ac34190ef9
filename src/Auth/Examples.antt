-- ===== src/Auth/Examples.antt =====
-- Runs of the rules of access, and their theorems at concrete inputs.
use aytrackerv.Auth.Lockout.{
  default_pin_lockout, seconds_until_unlock, register_failure, register_success,
}
use aytrackerv.Auth.Lockout.Runs.{fail_all, lock_seconds, register_failure_run}
use aytrackerv.Prelude.{◌≡◌, false, none, some, [], ◌∷◌}
use aytrackerv.Auth.Authorization.{ActorContext, worker}
use aytrackerv.Auth.Session.{SessionRecord}

abbrev ana : ActorContext
ana = record {
  actor_type = worker;
  organization_id = 1;
  user_id = none;
  worker_id = some 7;
  driver_id = none;
  permissions = "shift.start" ∷ [];
  session_id = 3;
  is_platform_admin = false;
}

abbrev signed_in : SessionRecord
signed_in = record {
  id = 3;
  actor_type = worker;
  organization_id = some 1;
  user_id = none;
  worker_id = some 7;
  driver_id = none;
  permissions = [];
  expires_at = 900;
  revoked_at = none;
}

register_failure_run_example :
    seconds_until_unlock
      (register_failure
        (fail_all default_pin_lockout (1_000 ∷ 2_000 ∷ 3_000 ∷ 4_000 ∷ 5_000 ∷ []) register_success)
        9_000
        default_pin_lockout)
      9_000
    ≡ lock_seconds default_pin_lockout 6
register_failure_run_example =
    register_failure_run default_pin_lockout (1_000 ∷ 2_000 ∷ 3_000 ∷ 4_000 ∷ 5_000 ∷ []) 9_000
