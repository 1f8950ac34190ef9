-- ===== src/Tracking/Sampling.antt =====
-- packages/tracking/src/sampling.ts. The distance between two points, `haversineMeters` of geo.ts, is
-- floating-point trigonometry: a parameter.
pub mod Decisions
pub mod Batches
use aytrackerv.Prelude.{
  ℕ, ◌+◌, ◌-◌, ◌*◌, ◌/◌, Bool, true, false, not, Option, none, some, List, [], ◌∷◌, leb, length,
  if◌then◌else◌,
}
use aytrackerv.Prelude.Sort.{sort, le_by}
use aytrackerv.Domain.Numbers.{JsNumber, num_lt, num_le}
use aytrackerv.Domain.Time.{Instant}

-- The policy in force: the default takes the place of a missing one before.
pub record SamplingPolicy : Type 0 where
  pub min_interval_seconds : ℕ
  pub max_interval_seconds : ℕ
  pub min_distance_meters : JsNumber
  pub stationary_speed_mps : JsNumber
  pub stationary_interval_seconds : ℕ
  pub low_battery_threshold : JsNumber
  pub low_battery_interval_seconds : ℕ

pub record SamplingInput (GeoPoint : Type 0) : Type 0 where
  pub last_sent_at : Option Instant
  pub last_sent_point : Option GeoPoint
  pub current : GeoPoint
  pub current_speed_mps : Option JsNumber
  pub battery_level : Option JsNumber
  pub now : Instant
  pub policy : SamplingPolicy

pub data SamplingReason : Type 0 where
  first_point distance_threshold interval_elapsed : SamplingReason
  below_min_interval no_significant_change : SamplingReason

pub record SamplingDecision : Type 0 where
  pub should_send : Bool
  pub reason : SamplingReason
  pub next_check_seconds : ℕ

-- `batteryLevel !== null && batteryLevel <= lowBatteryThreshold`
abbrev pub is_low_battery : Option JsNumber → JsNumber → Bool
is_low_battery none threshold = false
is_low_battery (some level) threshold = num_le level threshold

-- `currentSpeedMps !== null && currentSpeedMps < stationarySpeedMps`
abbrev pub is_stationary : Option JsNumber → JsNumber → Bool
is_stationary none limit = false
is_stationary (some speed) limit = num_lt speed limit

unfoldable pub target_interval_seconds : Option JsNumber → Option JsNumber → SamplingPolicy → ℕ
target_interval_seconds current_speed_mps battery_level policy =
    if is_low_battery battery_level policy.low_battery_threshold
    then policy.low_battery_interval_seconds
    else if is_stationary current_speed_mps policy.stationary_speed_mps
    then policy.stationary_interval_seconds
    else policy.max_interval_seconds

-- `Math.ceil(seconds - (now - last) / 1000)` of a wait that is not over.
unfoldable pub seconds_left : ℕ → Instant → Instant → ℕ
seconds_left seconds last now = (last + seconds * 1000 - now + 999) / 1000

-- `(now - last) / 1000 >= seconds`
abbrev pub has_elapsed : ℕ → Instant → Instant → Bool
has_elapsed seconds last now = leb (last + seconds * 1000) now

module _ {GeoPoint : Type 0} (haversine_meters : GeoPoint → GeoPoint → JsNumber) where
  -- From the point on that was sent last.
  unfoldable pub decide_since : SamplingInput GeoPoint → Instant → GeoPoint → SamplingDecision
  decide_since input last point =
      let policy = input.policy in
      let interval = target_interval_seconds input.current_speed_mps input.battery_level policy in
      if not (has_elapsed policy.min_interval_seconds last input.now)
      then record {
        should_send = false;
        reason = below_min_interval;
        next_check_seconds = seconds_left policy.min_interval_seconds last input.now;
      }
      else if num_le policy.min_distance_meters (haversine_meters point input.current)
      then record {
        should_send = true;
        reason = distance_threshold;
        next_check_seconds = policy.min_interval_seconds;
      }
      else if has_elapsed interval last input.now
      then record {
        should_send = true;
        reason = interval_elapsed;
        next_check_seconds = policy.min_interval_seconds;
      }
      else record {
        should_send = false;
        reason = no_significant_change;
        next_check_seconds = seconds_left interval last input.now;
      }

  first_decision : SamplingPolicy → SamplingDecision
  first_decision policy = record {
    should_send = true;
    reason = first_point;
    next_check_seconds = policy.min_interval_seconds;
  }

  decide_after : SamplingInput GeoPoint → Option Instant → Option GeoPoint → SamplingDecision
  unfolding first_decision
  decide_after input (some last) (some point) = decide_since input last point
  decide_after input none _ = first_decision input.policy
  decide_after input (some _) none = first_decision input.policy

  unfoldable pub decide_sampling : SamplingInput GeoPoint → SamplingDecision
  unfolding decide_after
  decide_sampling input = decide_after input input.last_sent_at input.last_sent_point

pub record Admission {ℓ} (A : Type ℓ) : Type ℓ where
  pub accepted : List A
  pub dropped : ℕ

-- `cursor === null || (timestamp - cursor) / 1000 >= minIntervalSeconds`
abbrev pub is_due : ℕ → Option Instant → Instant → Bool
is_due seconds none at = true
is_due seconds (some cursor) at = has_elapsed seconds cursor at

module _ {ℓ} {A : Type ℓ} (timestamp : A → Instant) (min_interval_seconds : ℕ) where
  -- The loop of `admitPoints`, with its cursor.
  unfoldable pub accept_due : Option Instant → List A → List A
  accept_due cursor [] = []
  accept_due cursor (point ∷ points) =
      let taken = accept_due (some (timestamp point)) points in
      let skipped = accept_due cursor points in
      if is_due min_interval_seconds cursor (timestamp point) then point ∷ taken else skipped

  unfoldable pub admit_points : Option Instant → List A → Admission A
  admit_points last_accepted_at points =
      let ordered = sort (le_by timestamp) points in
      let accepted = accept_due last_accepted_at ordered in
      record { accepted = accepted; dropped = length ordered - length accepted }
