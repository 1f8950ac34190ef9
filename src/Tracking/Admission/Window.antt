-- ===== src/Tracking/Admission/Window.antt =====
-- What of a batch is stored, and when.
use aytrackerv.Prelude.{
  ℕ, ◌+◌, ◌*◌, ◌≤◌, ◌≡◌, refl, Bool, true, not, ◌&&◌, Option, none, some, List, [], ◌∷◌, arith,
  false, map, filter, length, leb, ltb, min, ◌==◌, if◌then◌else◌,
}
use aytrackerv.Domain.Errors.{ok}
use aytrackerv.Domain.Numbers.{
  JsNumber, is_finite, num_le, minus, number, positive, negative, nan, infinity, minus_infinity,
  units_of_one,
}
use aytrackerv.Domain.Time.{Instant}
use aytrackerv.Tracking.Session.{
  TrackingSessionState, TripWindow, assert_session_open, trip_for_timestamp,
}
use aytrackerv.Tracking.Admission.{
  RawLocationPoint, AdmittedLocationPoint, AdmissionResult, AdmissionWindow, is_valid_coordinate,
  has_bad_accuracy, is_out_of_window, is_clamped, admitted, admit_each, admit_points,
}

-- A number of at most a bound on either side of 0.
abbrev pub is_within : ℕ → JsNumber → Bool
is_within bound (positive n) = leb n (bound * units_of_one)
is_within bound (negative n) = leb n (bound * units_of_one)
is_within bound nan = false
is_within bound infinity = false
is_within bound minus_infinity = false

-- Below 0, which NaN is not.
abbrev pub is_below_zero : JsNumber → Bool
is_below_zero (positive n) = false
is_below_zero (negative n) = ltb 0 n
is_below_zero nan = false
is_below_zero infinity = false
is_below_zero minus_infinity = true

abbrev pub is_inaccurate : Option JsNumber → Bool
is_inaccurate none = false
is_inaccurate (some meters) = is_below_zero meters

module _ (start now : Instant) where
  -- A latitude within 90 of 0 and a longitude within 180, an accuracy that is missing or not below
  -- 0, and an instant from two minutes before the start of the session to two minutes after now.
  abbrev pub is_admissible : RawLocationPoint → Bool
  is_admissible point =
      is_within 90 point.latitude
      && is_within 180 point.longitude
      && not (is_inaccurate point.accuracy_meters)
      && leb start (point.timestamp + 120_000)
      && leb point.timestamp (now + 120_000)

  -- The instant that a point is stored under.
  abbrev pub stored_at : Instant → Instant
  stored_at at = if ltb at start then start else min at now

  -- Stored more than a number of seconds after it was taken.
  abbrev pub stored_point : Option TripWindow → ℕ → RawLocationPoint → AdmittedLocationPoint
  stored_point trip threshold point = record {
    point = point;
    timestamp = stored_at point.timestamp;
    is_backfilled = ltb (stored_at point.timestamp + threshold * 1000) now;
    trip_id = trip_for_timestamp (stored_at point.timestamp) trip;
  }

  -- The result that the rules call for.
  abbrev pub expected_admission : Option TripWindow → ℕ → List RawLocationPoint → AdmissionResult
  expected_admission trip threshold points =
      let kept = filter is_admissible points in
      record {
        accepted = map (stored_point trip threshold) kept;
        rejected = length (filter (λ p. not (is_admissible p)) points);
        clamped = length (filter (λ p. not (stored_at p.timestamp == p.timestamp)) kept);
      }

same_within :
    (bound : ℕ) (x : JsNumber)
    → (is_finite x && num_le (minus bound) x && num_le x (number bound)) ≡ is_within bound x
same_within bound (positive n) = ground arith
same_within bound (negative n) = ground arith
same_within bound nan = refl
same_within bound infinity = refl
same_within bound minus_infinity = refl

same_accuracy : (accuracy : Option JsNumber) → has_bad_accuracy accuracy ≡ is_inaccurate accuracy
unfolding has_bad_accuracy
same_accuracy none = refl
same_accuracy (some (positive n)) = ground arith
same_accuracy (some (negative n)) = ground arith
same_accuracy (some nan) = refl
same_accuracy (some infinity) = refl
same_accuracy (some minus_infinity) = refl

same_coordinate :
    (latitude longitude : JsNumber)
    → is_valid_coordinate latitude longitude ≡ (is_within 90 latitude && is_within 180 longitude)
unfolding is_valid_coordinate
same_coordinate latitude longitude =
    ground (arith, same_within 90 latitude, same_within 180 longitude)

module _ (w : AdmissionWindow) where
  same_window :
      (at : Instant)
      → is_out_of_window w at
        ≡ not (leb w.window_start (at + 120_000) && leb at (w.window_end + 120_000))
  unfolding is_out_of_window
  same_window at = ground arith

  same_point :
      (point : RawLocationPoint)
      → admitted w point
        ≡ stored_point w.window_start w.window_end w.trip w.backfill_threshold_seconds point
  unfolding admitted
  same_point point = ground arith

  same_clamped :
      (at : Instant) → is_clamped w at ≡ not (stored_at w.window_start w.window_end at == at)
  unfolding is_clamped
  same_clamped at = ground arith

  admit_each-expected :
      (points : List RawLocationPoint)
      → admit_each w points
        ≡ expected_admission w.window_start w.window_end w.trip w.backfill_threshold_seconds points
  unfolding admit_each
  admit_each-expected [] = refl
  admit_each-expected (p ∷ points) = ground (
    arith,
    admit_each-expected points,
    same_coordinate p.latitude p.longitude,
    same_accuracy p.accuracy_meters,
    same_window p.timestamp,
    same_point p,
    same_clamped p.timestamp,
  )

-- With an open session and at most 500 points, exactly those points are accepted, in their order,
-- that have a latitude within 90 of 0, a longitude within 180, no accuracy below 0, and an instant
-- from two minutes before the start of the session to two minutes after now. One from before the
-- start is stored under the start, and one from after now under now; it is marked as backfilled if
-- that lies more than the threshold before now, and with the trip of that instant. Every other
-- point is counted as rejected, and the accepted ones that were moved as clamped.
pub admit_points-expected :
    (session : TrackingSessionState) (trip : Option TripWindow) (now : Instant) (threshold : ℕ)
    → (points : List RawLocationPoint) → session.ended_at ≡ none
    → length points ≤ 500
    → admit_points (some session) points trip now threshold
      ≡ ok (expected_admission session.started_at now trip threshold points)
unfolding admit_points assert_session_open
admit_points-expected session trip now threshold points o b =
    let w : AdmissionWindow = record {
      window_start = session.started_at;
      window_end = now;
      trip = trip;
      backfill_threshold_seconds = threshold;
    } in
    ground (arith, admit_each-expected w points)
