-- ===== src/Tracking/Examples.antt =====
-- Runs of the rules of tracking, and their theorems at concrete inputs.
use aytrackerv.Prelude.{
  ℕ, ◌+◌, ◌-◌, ◌≡◌, ◌↔◌, refl, true, false, none, some, List, [], ◌∷◌, ◌++◌, arith, All, length,
  take,
}
use aytrackerv.Prelude.Sort.{sort}
use aytrackerv.Domain.Errors.{ok}
use aytrackerv.Domain.Numbers.{JsNumber, number, positive, nan, minus}
use aytrackerv.Domain.Time.{Instant, round_seconds}
use aytrackerv.Drivers.Trip.{TripStatus}
use aytrackerv.Tracking.Session.{TrackingSessionState, work, TripWindow, trip_for_timestamp}
use aytrackerv.Tracking.Admission.{RawLocationPoint, admit_points}
use aytrackerv.Tracking.Admission.Window.{expected_admission, admit_points-expected}
use aytrackerv.Tracking.State.{
  TrackingState, reporting_recovered, TrackingObservation, PausedInterval, default_thresholds,
  is_poor, derive_tracking_state, event_for_transition, find_tracking_gaps, overlaps_pause,
  gaps_from,
}
use aytrackerv.Tracking.State.Derivation.{is_untroubled, IsFresh, derive_tracking_state-active}
use aytrackerv.Tracking.State.Gaps.{IsGap, IsOutside, rules_of, find_tracking_gaps-IsGap}
use aytrackerv.Tracking.Sampling.{SamplingPolicy, SamplingInput, decide_sampling, decide_since}
use aytrackerv.Tracking.Sampling as Sampling
use aytrackerv.Tracking.Sampling.Decisions.{decide, after_wait, decide_sampling_sends}
use aytrackerv.Tracking.Sampling.Batches.{IsSpaced, IsDealtWith, admit_points-IsSpaced}
use aytrackerv.Tracking.Queue.{
  QueuedPoint, gps, QueueCall, enqueued, removed, cleared, enqueue, max_queued_points,
}
use aytrackerv.Tracking.Queue.Runs.{enqueue_keeps_newest}

abbrev session : TrackingSessionState
session = record {
  id = 1;
  organization_id = 1;
  context = work;
  worker_id = some 4;
  driver_id = none;
  shift_id = some 9;
  trip_id = none;
  vehicle_id = none;
  started_at = 1_000_000;
  ended_at = none;
  distance_meters = number 0;
  untracked_seconds = 0;
  tracking_state = "ACTIVE";
  last_point_at = none;
}

abbrev trip : TripWindow
trip = record { id = 5; started_at = some 1_100_000; ended_at = some 1_300_000 }

trip_is_over : trip_for_timestamp 1_300_000 (some trip) ≡ none
unfolding trip_for_timestamp
trip_is_over = refl

abbrev fix : Instant → RawLocationPoint
fix at = record {
  timestamp = at;
  latitude = number 44;
  longitude = minus 26;
  accuracy_meters = some (number 12);
  speed_mps = none;
  heading = none;
  altitude = none;
  source = some "GPS";
}

-- A fix of the trip, one without a latitude, one a minute early and one an hour early.
abbrev fixes : List RawLocationPoint
fixes =
    fix 1_200_000 ∷ record (fix 1_200_000) { latitude = nan } ∷ fix 1_060_000 ∷ fix 5_000_000 ∷ []

admit_points-expected_example :
    admit_points (some session) fixes (some trip) 1_400_000 60
    ≡ ok (expected_admission session.started_at 1_400_000 (some trip) 60 fixes)
admit_points-expected_example =
    admit_points-expected session (some trip) 1_400_000 60 fixes refl (omega arith)

abbrev seen : TrackingObservation
seen = record {
  trip_status = TripStatus.active;
  last_point_at = some 1_000_000;
  last_point_accuracy_meters = some (number 12);
  device_reported = none;
  now = 1_060_000;
  thresholds = default_thresholds;
}

recovery :
    event_for_transition TrackingState.interrupted TrackingState.active ≡ some reporting_recovered
unfolding event_for_transition
recovery = refl

abbrev reports : List Instant
reports = 1_500_000 ∷ 1_100_000 ∷ 1_150_000 ∷ []

abbrev pauses : List PausedInterval
pauses = record { start = 900_000; end = some 950_000 } ∷ []

one_gap :
    find_tracking_gaps reports 1_000_000 none 1_600_000 pauses default_thresholds
    ≡ record { started_at = 1_150_000; ended_at = some 1_500_000; seconds = 350; is_open = false }
      ∷ []
unfolding find_tracking_gaps sort gaps_from overlaps_pause round_seconds
one_gap = refl

find_tracking_gaps-IsGap_example :
    All
      (λ gap.
        IsGap (rules_of 1_000_000 1_600_000 none pauses default_thresholds) 1_600_000 gap
        × All (IsOutside 1_600_000 gap) reports)
      (find_tracking_gaps reports 1_000_000 none 1_600_000 pauses default_thresholds)
find_tracking_gaps-IsGap_example =
    find_tracking_gaps-IsGap 1_000_000 1_600_000 none pauses default_thresholds reports

abbrev policy : SamplingPolicy
policy = record {
  min_interval_seconds = 15;
  max_interval_seconds = 60;
  min_distance_meters = positive 50;
  stationary_speed_mps = number 2;
  stationary_interval_seconds = 120;
  low_battery_threshold = number 0;
  low_battery_interval_seconds = 180;
}

-- Points on a line, a unit apart.
abbrev distance : ℕ → ℕ → JsNumber
distance a b = positive ((a - b) + (b - a))

abbrev moving : SamplingInput ℕ
moving = record {
  last_sent_at = some 1_000_000;
  last_sent_point = some 3;
  current = 60;
  current_speed_mps = none;
  battery_level = none;
  now = 1_015_000;
  policy = policy;
}

decide_sampling_sends_example :
    (decide distance
      (after_wait distance (after_wait distance (record moving { now = 1_001_000 })))).should_send
    ≡ true
decide_sampling_sends_example = decide_sampling_sends distance (record moving { now = 1_001_000 })

abbrev burst : List Instant
burst = 1_010_000 ∷ 1_001_000 ∷ 1_002_000 ∷ []

admit_points-IsSpaced_example :
    let admission = Sampling.admit_points (λ at. at) 5 (some 990_000) burst in
    IsSpaced (λ at. at) 5 (some 990_000) admission.accepted
    × All (IsDealtWith (λ at. at) 5 (some 990_000) admission.accepted) burst
    × (length admission.accepted + admission.dropped ≡ length burst)
admit_points-IsSpaced_example = admit_points-IsSpaced (λ at. at) 5 (some 990_000) burst

abbrev queued : ℕ → QueuedPoint
queued n = record {
  point = record {
    timestamp = 1_000_000 + n;
    latitude = number 44;
    longitude = minus 26;
    accuracy_meters = none;
    speed_mps = none;
    heading = none;
    altitude = none;
    source = gps;
  };
  session_id = 1;
  seq = n;
}

enqueue_keeps_newest_example :
    (take (enqueue (queued 2 ∷ []) (queued 1 ∷ [])).dropped ((queued 1 ∷ []) ++ (queued 2 ∷ []))
        ++ (enqueue (queued 2 ∷ []) (queued 1 ∷ [])).points
      ≡ (queued 1 ∷ []) ++ (queued 2 ∷ []))
    × ((enqueue (queued 2 ∷ []) (queued 1 ∷ [])).dropped
        ≡ length (queued 1 ∷ []) + length (queued 2 ∷ []) - max_queued_points)
enqueue_keeps_newest_example = enqueue_keeps_newest (queued 2 ∷ []) (queued 1 ∷ [])

abbrev calls : List QueueCall
calls = enqueued (queued 1 ∷ queued 2 ∷ []) ∷ removed (1 ∷ []) ∷ cleared 7 ∷ []

derive_tracking_state-active_example : (derive_tracking_state seen ≡ TrackingState.active) ↔ (
    (TripStatus.active ≡ TripStatus.active)
    × (is_untroubled none ≡ true)
    × IsFresh seen (some 1_000_000)
    × (is_poor (some (number 12)) (number 100) ≡ false))
derive_tracking_state-active_example = derive_tracking_state-active seen
