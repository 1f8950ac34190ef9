-- ===== src/Tracking/Session.antt =====
-- modules/tracking/src/domain/session.ts. Identifiers are only compared, so they are numbers.
use aytrackerv.Prelude.{
  ℕ, ◌≤◌, ◌≡◌, ◌↔◌, Bool, false, ◌&&◌, String, Option, none, some, arith, ltb, leb, if◌then◌else◌,
  is_some, not,
}
use aytrackerv.Domain.Errors.{Result, ok, err, throw_if, conflict_error, precondition_failed_error}
use aytrackerv.Domain.Numbers.{JsNumber, is_finite, num_le, number}
use aytrackerv.Domain.Time.{Instant}

pub data TrackingContext : Type 0 where
  work driver_trip : TrackingContext

pub record TrackingSessionState : Type 0 where
  pub id : ℕ
  pub organization_id : ℕ
  pub context : TrackingContext
  pub worker_id : Option ℕ
  pub driver_id : Option ℕ
  pub shift_id : Option ℕ
  pub trip_id : Option ℕ
  pub vehicle_id : Option ℕ
  pub started_at : Instant
  pub ended_at : Option Instant
  pub distance_meters : JsNumber
  pub untracked_seconds : ℕ
  pub tracking_state : String
  pub last_point_at : Option Instant

unfoldable pub is_open : TrackingSessionState → Bool
is_open session = not (is_some session.ended_at)

abbrev pub already_open_code : TrackingContext → String
already_open_code work = "tracking.work_session_already_open"
already_open_code driver_trip = "tracking.trip_session_already_open"

unfoldable pub assert_no_open_session : Option TrackingSessionState → Result (Unit {0})
assert_no_open_session none = ok tt
assert_no_open_session (some existing) = err (conflict_error (already_open_code existing.context))

unfoldable pub assert_session_open : Option TrackingSessionState → Result TrackingSessionState
assert_session_open none = err (precondition_failed_error "tracking.no_open_session")
assert_session_open (some session) =
    if is_some session.ended_at
    then err (precondition_failed_error "tracking.session_closed")
    else ok session

unfoldable pub assert_close_after_start : TrackingSessionState → Instant → Result (Unit {0})
assert_close_after_start session at =
    throw_if (ltb at session.started_at) (precondition_failed_error "tracking.end_before_start")

-- The trip of `tripForTimestamp`, and `TripWindow` of admission.ts.
pub record TripWindow : Type 0 where
  pub id : ℕ
  pub started_at : Option Instant
  pub ended_at : Option Instant

-- `trip.endedAt !== null && at >= trip.endedAt.getTime()`
abbrev pub has_ended : Option Instant → Instant → Bool
has_ended none at = false
has_ended (some ended_at) at = leb ended_at at

abbrev pub trip_since : Option Instant → TripWindow → Instant → Option ℕ
trip_since none trip at = none
trip_since (some started_at) trip at =
    if ltb at started_at then none else if has_ended trip.ended_at at then none else some trip.id

unfoldable pub trip_for_timestamp : Instant → Option TripWindow → Option ℕ
trip_for_timestamp at none = none
trip_for_timestamp at (some trip) = trip_since trip.started_at trip at

pub data DevicePermission : Type 0 where
  granted denied prompt unknown : DevicePermission

pub record DeviceTelemetry : Type 0 where
  pub battery_level : Option JsNumber
  pub is_charging : Option Bool
  pub permission : Option DevicePermission

abbrev pub normal_level : Option JsNumber → Option JsNumber
normal_level none = none
normal_level (some level) =
    if is_finite level && num_le (number 0) level && num_le level (number 1)
    then some level
    else none

-- A missing input has no field.
unfoldable pub normalize_telemetry : Option DeviceTelemetry → DeviceTelemetry
normalize_telemetry none = record { battery_level = none; is_charging = none; permission = none }
normalize_telemetry (some input) = record input { battery_level = normal_level input.battery_level }

-- The trip runs at the instant: it has begun, and it has not ended.
abbrev pub IsRunningAt : Instant → TripWindow → Type 0
IsRunningAt at trip =
    ((start : Instant) × (trip.started_at ≡ some start) × (start ≤ at))
    × (has_ended trip.ended_at at ≡ false)

-- A fix belongs to a trip exactly if it is the trip's, by its identifier, and was taken at or after
-- the start and before the end.
trip_for_timestamp_iff :
    (at : Instant) (trip : TripWindow) (i : ℕ)
    → (trip_for_timestamp at (some trip) ≡ some i) ↔ ((trip.id ≡ i) × IsRunningAt at trip)
unfolding trip_for_timestamp
trip_for_timestamp_iff at trip i = ((λ h. ground arith), (λ h. ground arith))
