-- ===== src/Drivers/Trip/Defs.antt =====
-- modules/drivers/src/domain/trip.ts. Identifiers are only compared, so they are numbers.
use aytrackerv.Prelude.{
  ℕ, ◌+◌, ◌-◌, Bool, not, ◌||◌, Option, none, some, List, [], ◌∷◌, foldl, min, max, ltb, eqb, any,
}
use aytrackerv.Domain.Errors.{
  Result, ok, ◌>>◌, throw_if, conflict_error, precondition_failed_error, validation_error,
}
use aytrackerv.Domain.Time.{Instant, end_or, round_seconds, seconds_between}

pub data TripStatus : Type 0 where
  planned active paused completed cancelled : TripStatus

pub TripStatus-discrete : Discrete TripStatus
TripStatus-discrete = hlevel

pub record TripState : Type 0 where
  pub id : ℕ
  pub driver_id : ℕ
  pub vehicle_id : ℕ
  pub status : TripStatus
  pub started_at : Option Instant
  pub ended_at : Option Instant
  pub paused_seconds : ℕ

allowed_transitions : TripStatus → List TripStatus
allowed_transitions planned = active ∷ cancelled ∷ []
allowed_transitions active = paused ∷ completed ∷ cancelled ∷ []
allowed_transitions paused = active ∷ completed ∷ cancelled ∷ []
allowed_transitions completed = []
allowed_transitions cancelled = []

unfoldable pub can_transition : TripStatus → TripStatus → Bool
unfolding allowed_transitions TripStatus-discrete
can_transition from to = any (eqb TripStatus-discrete to) (allowed_transitions from)

unfoldable pub assert_transition : TripStatus → TripStatus → Result (Unit {0})
unfolding can_transition
assert_transition from to =
    throw_if (not (can_transition from to)) (precondition_failed_error "trip.invalid_transition")

unfoldable pub is_trip_open : TripStatus → Bool
unfolding TripStatus-discrete
is_trip_open status = eqb TripStatus-discrete status active || eqb TripStatus-discrete status paused

pub record PauseInterval : Type 0 where
  pub started_at : Instant
  pub ended_at : Option Instant

pub record TripTotals : Type 0 where
  pub elapsed_seconds : ℕ
  pub paused_seconds : ℕ
  pub duration_seconds : ℕ
  pub untracked_seconds : ℕ

-- The part of a pause that lies in the trip; one still open ends with the trip.
unfoldable pub add_pause : Instant → Instant → ℕ → PauseInterval → ℕ
add_pause started_at ended_at total pause =
    let end = end_or pause.ended_at ended_at in
    let clamped_start = max pause.started_at started_at in
    let clamped_end = min end ended_at in total + seconds_between clamped_start clamped_end

unfoldable pub compute_trip_totals : Instant → Instant → List PauseInterval → ℕ → Result TripTotals
compute_trip_totals started_at ended_at pauses gap_seconds =
    throw_if (ltb ended_at started_at) (validation_error "trip.end_before_start")
    >> let paused_seconds = foldl (add_pause started_at ended_at) 0 pauses in
      let elapsed_seconds = round_seconds (ended_at - started_at) in
      ok (record {
        elapsed_seconds = elapsed_seconds;
        paused_seconds = paused_seconds;
        duration_seconds = elapsed_seconds - paused_seconds;
        untracked_seconds = min gap_seconds (elapsed_seconds - paused_seconds);
      })

unfoldable pub assert_no_open_trip : Option TripState → Result (Unit {0})
unfolding is_trip_open
assert_no_open_trip none = ok tt
assert_no_open_trip (some existing) =
    throw_if (is_trip_open existing.status) (conflict_error "trip.already_active")
