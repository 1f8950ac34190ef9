-- ===== src/Tracking/State.antt =====
-- packages/tracking/src/tracking-state.ts
pub mod Derivation
pub mod Gaps
use aytrackerv.Prelude.{
  ℕ, ◌+◌, ◌-◌, ◌*◌, Bool, true, false, not, ◌&&◌, ◌||◌, String, Option, none, some, List, [], ◌∷◌,
  ◌++◌, ltb, leb, any, sum_by, is_some, if◌then◌else◌,
}
use aytrackerv.Prelude.Sort.{sort, le_by}
use aytrackerv.Domain.Numbers.{JsNumber, num_lt, number}
use aytrackerv.Domain.Time.{Instant, end_or, round_seconds}
use aytrackerv.Drivers.Trip.{TripStatus}

pub data TrackingState : Type 0 where
  active degraded paused interrupted offline stopped : TrackingState

pub data TrackingEventType : Type 0 where
  tracking_started tracking_stopped tracking_paused tracking_resumed : TrackingEventType
  signal_degraded location_unavailable permission_disabled : TrackingEventType
  device_offline app_not_reporting reporting_recovered : TrackingEventType
  geofence_enter geofence_exit speed_exceeded : TrackingEventType

pub record TrackingThresholds : Type 0 where
  pub degraded_after_seconds : ℕ
  pub stale_after_seconds : ℕ
  pub degraded_accuracy_meters : JsNumber

abbrev pub default_thresholds : TrackingThresholds
default_thresholds = record {
  degraded_after_seconds = 90;
  stale_after_seconds = 180;
  degraded_accuracy_meters = number 100;
}

pub data DeviceReport : Type 0 where
  online offline permission_denied : DeviceReport

-- `thresholds` as it is once the default has taken the place of a missing one.
pub record TrackingObservation : Type 0 where
  pub trip_status : TripStatus
  pub last_point_at : Option Instant
  pub last_point_accuracy_meters : Option JsNumber
  pub device_reported : Option DeviceReport
  pub now : Instant
  pub thresholds : TrackingThresholds

abbrev pub is_poor : Option JsNumber → JsNumber → Bool
is_poor none limit = false
is_poor (some meters) limit = num_lt limit meters

-- `(now - last) / 1000 >= seconds`
abbrev pub is_silent_for : ℕ → Instant → Instant → Bool
is_silent_for seconds last now = leb (last + seconds * 1000) now

-- From the last point on, for a device that reports no trouble.
unfoldable pub by_silence : TrackingObservation → Option Instant → TrackingState
by_silence o none = interrupted
by_silence o (some last) =
    if is_silent_for o.thresholds.stale_after_seconds last o.now
    then interrupted
    else if is_silent_for o.thresholds.degraded_after_seconds last o.now
        || is_poor o.last_point_accuracy_meters o.thresholds.degraded_accuracy_meters
    then degraded
    else active

abbrev pub by_report : TrackingObservation → Option DeviceReport → TrackingState
by_report o (some permission_denied) = interrupted
by_report o (some DeviceReport.offline) = TrackingState.offline
by_report o (some online) = by_silence o o.last_point_at
by_report o none = by_silence o o.last_point_at

abbrev pub by_trip : TrackingObservation → TripStatus → TrackingState
by_trip o TripStatus.paused = TrackingState.paused
by_trip o TripStatus.active = by_report o o.device_reported
by_trip o TripStatus.planned = stopped
by_trip o TripStatus.completed = stopped
by_trip o TripStatus.cancelled = stopped

unfoldable pub derive_tracking_state : TrackingObservation → TrackingState
derive_tracking_state o = by_trip o o.trip_status

abbrev pub event_into_active : TrackingState → Option TrackingEventType
event_into_active TrackingState.active = none
event_into_active stopped = some tracking_started
event_into_active TrackingState.paused = some tracking_resumed
event_into_active degraded = some reporting_recovered
event_into_active interrupted = some reporting_recovered
event_into_active TrackingState.offline = some reporting_recovered

-- From the state before to the state after; none where they are the same.
unfoldable pub event_for_transition : TrackingState → TrackingState → Option TrackingEventType
event_for_transition from TrackingState.active = event_into_active from
event_for_transition degraded degraded = none
event_for_transition _ degraded = some signal_degraded
event_for_transition TrackingState.paused TrackingState.paused = none
event_for_transition _ TrackingState.paused = some tracking_paused
event_for_transition interrupted interrupted = none
event_for_transition _ interrupted = some app_not_reporting
event_for_transition TrackingState.offline TrackingState.offline = none
event_for_transition _ TrackingState.offline = some device_offline
event_for_transition stopped stopped = none
event_for_transition _ stopped = some tracking_stopped

pub record TrackingGap : Type 0 where
  pub started_at : Instant
  pub ended_at : Option Instant
  pub seconds : ℕ
  pub is_open : Bool

pub record PausedInterval : Type 0 where
  pub start : Instant
  pub end : Option Instant

-- `(pause.end ?? Infinity) > start`
abbrev pub ends_behind : Instant → Option Instant → Bool
ends_behind start none = true
ends_behind start (some end) = ltb start end

unfoldable pub overlaps_pause : Instant → Instant → List PausedInterval → Bool
overlaps_pause start end pauses =
    any (λ pause. ltb pause.start end && ends_behind start pause.end) pauses

-- What the loop holds against each pair of neighbours: the threshold in milliseconds, whether the
-- trip runs on, and the pauses.
pub record GapRules : Type 0 where
  pub threshold : ℕ
  pub runs_on : Bool
  pub pauses : List PausedInterval

abbrev pub is_last {ℓ} : {A : Type ℓ} → List A → Bool
is_last [] = true
is_last (_ ∷ _) = false

abbrev pub gap_between : GapRules → Instant → Instant → List Instant → TrackingGap
gap_between rules previous current rest =
    let is_open = is_last rest && rules.runs_on in
    record {
      started_at = previous;
      ended_at = if is_open then none else some current;
      seconds = round_seconds (current - previous);
      is_open = is_open;
    }

-- The loop of `findTrackingGaps`, from a boundary on: `span < threshold` without the difference.
unfoldable pub gaps_from : GapRules → Instant → List Instant → List TrackingGap
gaps_from rules previous [] = []
gaps_from rules previous (current ∷ rest) =
    let later = gaps_from rules current rest in
    if ltb current (previous + rules.threshold)
    then later
    else if overlaps_pause previous current rules.pauses
    then later
    else gap_between rules previous current rest ∷ later

unfoldable pub find_tracking_gaps :
    List Instant
    → Instant
    → Option Instant
    → Instant
    → List PausedInterval
    → TrackingThresholds
    → List TrackingGap
find_tracking_gaps point_timestamps trip_started_at trip_ended_at now paused_intervals thresholds =
    gaps_from
      (record {
        threshold = thresholds.stale_after_seconds * 1000;
        runs_on = not (is_some trip_ended_at);
        pauses = paused_intervals;
      })
      trip_started_at (sort (le_by (λ at. at)) point_timestamps ++ (end_or trip_ended_at now ∷ []))

unfoldable pub total_gap_seconds : List TrackingGap → ℕ
total_gap_seconds gaps = sum_by (λ gap. gap.seconds) gaps
