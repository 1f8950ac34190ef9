-- ===== src/Shifts/PositionSession/Plans.antt =====
-- Which position changes are planned, and what the plan closes and opens.
use aytrackerv.Prelude.{ℕ, ◌≤◌, ◌≡◌, ◌≢◌, ◌↔◌, refl, true, Option, none, some, arith}
use aytrackerv.Domain.Errors.{ok, is_ok}
use aytrackerv.Domain.Time.{Instant, seconds_between}
use aytrackerv.Shifts.PositionSession.Defs.{
  PositionSessionState, PositionChangeSource, PositionChangePlan, Closing, plan_position_change,
  plan_session_close,
}

-- The session, if there is one, is open, at another position, and did not start later.
abbrev pub CanMove : Option PositionSessionState → ℕ → Instant → Type 0
CanMove none target at = Unit
CanMove (some s) target at = (s.ended_at ≡ none) × (s.position_id ≢ target) × (s.started_at ≤ at)

-- A position change is planned exactly if there is no current session, or it is open, stands at
-- another position and did not start after the change.
plan_position_change_iff :
    (current : Option PositionSessionState) (target : ℕ) (at : Instant)
    (source : PositionChangeSource)
    → (is_ok (plan_position_change current target at source) ≡ true) ↔ CanMove current target at
unfolding plan_position_change
plan_position_change_iff none target at source = ((λ h. tt), (λ h. refl))
plan_position_change_iff (some s) target at source = ((λ h. ground arith), (λ h. ground arith))

-- What the end of the shift would close.
abbrev pub ClosesLike : Option PositionSessionState → Instant → Option Closing → Type 0
ClosesLike none at closing = closing ≡ none
ClosesLike (some s) at closing =
    (c : Closing) × (closing ≡ some c) × (plan_session_close s at ≡ ok c)

-- A plan opens the target position at the very instant at which it closes the current session, and
-- what it closes, with its duration, is what `planSessionClose` would close at that instant.
plan_position_change_plan :
    (current : Option PositionSessionState) (target : ℕ) (at : Instant)
    (source : PositionChangeSource) (p : PositionChangePlan)
    → plan_position_change current target at source ≡ ok p
    → (p.opening ≡ record { position_id = target; started_at = at; source = source })
      × ClosesLike current at p.closing
unfolding plan_position_change plan_session_close
plan_position_change_plan none target at source p h = ground arith
plan_position_change_plan (some s) target at source p h =
    let closing : Closing = record {
      session_id = s.id;
      ended_at = at;
      duration_seconds = seconds_between s.started_at at;
    } in
    (ground arith, (closing, ground arith, ground arith))
