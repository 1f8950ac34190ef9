-- ===== src/Tracking/Admission.antt =====
-- modules/tracking/src/domain/admission.ts
pub mod Window
use aytrackerv.Prelude.{
  ℕ, ◌+◌, ◌-◌, ◌*◌, Bool, true, false, not, ◌&&◌, ◌||◌, String, Option, none, some, List, [], ◌∷◌,
  ltb, if◌then◌else◌, length,
}
use aytrackerv.Domain.Errors.{Result, ok, err, ◌>>=◌, ◌>>◌, throw_if, validation_error}
use aytrackerv.Domain.Numbers.{JsNumber, is_finite, num_le, num_lt, number, minus}
use aytrackerv.Domain.Time.{Instant}
use aytrackerv.Tracking.Session.{
  TrackingSessionState, TripWindow, assert_session_open, trip_for_timestamp,
}

abbrev pub max_location_batch_size : ℕ
max_location_batch_size = 500

abbrev pub clock_skew_tolerance_seconds : ℕ
clock_skew_tolerance_seconds = 120

pub record RawLocationPoint : Type 0 where
  pub timestamp : Instant
  pub latitude : JsNumber
  pub longitude : JsNumber
  pub accuracy_meters : Option JsNumber
  pub speed_mps : Option JsNumber
  pub heading : Option JsNumber
  pub altitude : Option JsNumber
  pub source : Option String

-- A point with the instant that it is stored under, and the fields that are added to it.
pub record AdmittedLocationPoint : Type 0 where
  pub point : RawLocationPoint
  pub timestamp : Instant
  pub is_backfilled : Bool
  pub trip_id : Option ℕ

pub record AdmissionResult : Type 0 where
  pub accepted : List AdmittedLocationPoint
  pub rejected : ℕ
  pub clamped : ℕ

unfoldable pub is_valid_coordinate : JsNumber → JsNumber → Bool
is_valid_coordinate latitude longitude =
    is_finite latitude
    && is_finite longitude
    && num_le (minus 90) latitude
    && num_le latitude (number 90)
    && num_le (minus 180) longitude
    && num_le longitude (number 180)

-- `accuracyMeters !== undefined && accuracyMeters !== null && accuracyMeters < 0`
unfoldable pub has_bad_accuracy : Option JsNumber → Bool
has_bad_accuracy none = false
has_bad_accuracy (some meters) = num_lt meters (number 0)

-- What all points of a batch are held against.
pub record AdmissionWindow : Type 0 where
  pub window_start : Instant
  pub window_end : Instant
  pub trip : Option TripWindow
  pub backfill_threshold_seconds : ℕ

-- `at < windowStart - tolerance || at > windowEnd + tolerance`
unfoldable pub is_out_of_window : AdmissionWindow → Instant → Bool
is_out_of_window w at =
    let tolerance = clock_skew_tolerance_seconds * 1000 in
    ltb (at + tolerance) w.window_start || ltb (w.window_end + tolerance) at

-- `at < windowStart` or, failing that, `at > windowEnd`
unfoldable pub is_clamped : AdmissionWindow → Instant → Bool
is_clamped w at = ltb at w.window_start || ltb w.window_end at

abbrev pub clamp_to_window : AdmissionWindow → Instant → Instant
clamp_to_window w at =
    if ltb at w.window_start
    then w.window_start
    else if ltb w.window_end at
    then w.window_end
    else at

unfoldable pub admitted : AdmissionWindow → RawLocationPoint → AdmittedLocationPoint
admitted w point =
    let timestamp = clamp_to_window w point.timestamp in
    record {
      point = point;
      timestamp = timestamp;
      is_backfilled = ltb (w.backfill_threshold_seconds * 1000) (w.window_end - timestamp);
      trip_id = trip_for_timestamp timestamp w.trip;
    }

-- The loop of `admitPoints`.
unfoldable pub admit_each : AdmissionWindow → List RawLocationPoint → AdmissionResult
admit_each w [] = record { accepted = []; rejected = 0; clamped = 0 }
admit_each w (point ∷ points) =
    let rest = admit_each w points in
    if not (is_valid_coordinate point.latitude point.longitude)
    then record rest { rejected = rest.rejected + 1 }
    else if has_bad_accuracy point.accuracy_meters
    then record rest { rejected = rest.rejected + 1 }
    else if is_out_of_window w point.timestamp
    then record rest { rejected = rest.rejected + 1 }
    else record {
      accepted = admitted w point ∷ rest.accepted;
      rejected = rest.rejected;
      clamped = rest.clamped + (if is_clamped w point.timestamp then 1 else 0);
    }

-- `admitPoints`. An empty batch runs through the loop, which returns the same for it.
unfoldable pub admit_points :
    Option TrackingSessionState
    → List RawLocationPoint
    → Option TripWindow
    → Instant
    → ℕ
    → Result AdmissionResult
unfolding assert_session_open
admit_points session points trip now backfill_threshold_seconds =
    assert_session_open session >>= λ found.
    throw_if (ltb max_location_batch_size (length points))
      (validation_error "tracking.batch_too_large")
    >> ok (
        admit_each
          (record {
            window_start = found.started_at;
            window_end = now;
            trip = trip;
            backfill_threshold_seconds = backfill_threshold_seconds;
          })
          points)
