-- ===== src/Tracking/Sampling/Decisions.antt =====
-- When a device sends, and that it does.
use aytrackerv.Prelude.{ℕ, ◌+◌, ◌*◌, ◌≤◌, ◌<◌, ◌≡◌, refl, true, Option, none, some, arith}
use aytrackerv.Domain.Numbers.{JsNumber}
use aytrackerv.Domain.Time.{Instant}
use aytrackerv.Tracking.Sampling.{
  SamplingInput, SamplingDecision, decide_sampling, decide_since, target_interval_seconds,
  seconds_left,
}

seconds_left_enough :
    (seconds last now : ℕ)
    → now < last + seconds * 1000
    → (0 < seconds_left seconds last now)
      × (last + seconds * 1000 ≤ now + seconds_left seconds last now * 1000)
unfolding seconds_left
seconds_left_enough seconds last now h = (omega arith, omega arith)

module _ {GeoPoint : Type 0} (haversine_meters : GeoPoint → GeoPoint → JsNumber) where
  abbrev pub decide : SamplingInput GeoPoint → SamplingDecision
  decide = decide_sampling haversine_meters

  -- The same observation, once the device has waited as long as the decision suggests.
  abbrev pub after_wait : SamplingInput GeoPoint → SamplingInput GeoPoint
  after_wait input = record input { now = input.now + (decide input).next_check_seconds * 1000 }

  -- The device sends, or it waits for the target interval alone.
  module _ (input : SamplingInput GeoPoint) (last : Instant) (point : GeoPoint) where
    abbrev interval : ℕ
    interval = target_interval_seconds input.current_speed_mps input.battery_level input.policy

    abbrev at : Instant → SamplingDecision
    at now = decide_since haversine_meters (record input { now = now }) last point

    first_wait :
        (now : Instant)
        → last + input.policy.min_interval_seconds * 1000 ≤ now + (at now).next_check_seconds * 1000
    unfolding decide_since
    first_wait now = ground (arith, seconds_left_enough input.policy.min_interval_seconds last now)

    second_wait :
        (now : Instant)
        → last + input.policy.min_interval_seconds * 1000 ≤ now
        → (at (now + (at now).next_check_seconds * 1000)).should_send ≡ true
    unfolding decide_since
    second_wait now h = ground (arith, seconds_left_enough interval last now)

  two_waits :
      (input : SamplingInput GeoPoint) (last : Option Instant) (point : Option GeoPoint)
      → input.last_sent_at ≡ last
      → input.last_sent_point ≡ point
      → (decide (after_wait (after_wait input))).should_send ≡ true
  unfolding decide_sampling
  two_waits input (some last) (some point) h k = ground (
    arith,
    first_wait input last point input.now,
    second_wait input last point
        (input.now + (decide_since haversine_meters input last point).next_check_seconds * 1000),
  )
  two_waits input none point h k = rw h
  two_waits input (some last) none h k = rw (h, k)

  -- A device that waits twice, each time as long as the decision suggests, sends its point, also if
  -- nothing else changes.
  pub decide_sampling_sends :
      (input : SamplingInput GeoPoint) → (decide (after_wait (after_wait input))).should_send ≡ true
  decide_sampling_sends input = two_waits input input.last_sent_at input.last_sent_point refl refl
