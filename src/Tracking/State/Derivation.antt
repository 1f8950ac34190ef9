-- ===== src/Tracking/State/Derivation.antt =====
-- When a stream is active, and how its state worsens while nothing arrives.
use aytrackerv.Prelude.{
  ℕ, ◌+◌, ◌*◌, ◌≤◌, ◌<◌, ◌≡◌, ◌↔◌, Bool, true, false, Option, none, some, arith,
}
use aytrackerv.Domain.Time.{Instant}
use aytrackerv.Drivers.Trip.{TripStatus}
use aytrackerv.Tracking.State.{
  TrackingState, active, degraded, interrupted, stopped, DeviceReport, online, permission_denied,
  TrackingObservation, derive_tracking_state, by_silence, is_poor,
}

-- The later, the worse; the states that do not depend on silence have no severity.
abbrev pub severity : TrackingState → ℕ
severity active = 0
severity degraded = 1
severity interrupted = 2
severity TrackingState.paused = 0
severity TrackingState.offline = 0
severity stopped = 0

by_silence-severity :
    (o : TrackingObservation) (later : Instant) (last : Option Instant)
    → o.now ≤ later
    → severity (by_silence o last) ≤ severity (by_silence (record o { now = later }) last)
unfolding by_silence
by_silence-severity o later none h = ground arith
by_silence-severity o later (some last) h = ground arith

-- While nothing new is observed, the state of a stream only worsens with time.
derive_tracking_state-severity :
    (o : TrackingObservation) (later : Instant)
    → o.now ≤ later
    → severity (derive_tracking_state o)
      ≤ severity (derive_tracking_state (record o { now = later }))
unfolding derive_tracking_state
derive_tracking_state-severity o later h =
    ground (arith, by_silence-severity o later o.last_point_at h)

-- The device says nothing of itself, or that it is online.
abbrev pub is_untroubled : Option DeviceReport → Bool
is_untroubled none = true
is_untroubled (some online) = true
is_untroubled (some DeviceReport.offline) = false
is_untroubled (some permission_denied) = false

-- The last point is younger than either threshold.
abbrev pub IsFresh : TrackingObservation → Option Instant → Type 0
IsFresh o none = ⊥
IsFresh o (some last) =
    (o.now < last + o.thresholds.stale_after_seconds * 1000)
    × (o.now < last + o.thresholds.degraded_after_seconds * 1000)

by_silence-active :
    (o : TrackingObservation) (last : Option Instant)
    → (by_silence o last ≡ active) ↔ (
        IsFresh o last
        × (is_poor o.last_point_accuracy_meters o.thresholds.degraded_accuracy_meters ≡ false))
unfolding by_silence
by_silence-active o none = ((λ h. cc), (λ h. absurd h.0))
by_silence-active o (some last) = ((λ h. ground arith), (λ h. ground arith))

-- A stream is active exactly if its trip is, its device reports no trouble, and its last point is
-- younger than both thresholds and not known to be too inaccurate.
pub derive_tracking_state-active :
    (o : TrackingObservation)
    → (derive_tracking_state o ≡ active) ↔ (
        (o.trip_status ≡ TripStatus.active)
        × (is_untroubled o.device_reported ≡ true)
        × IsFresh o o.last_point_at
        × (is_poor o.last_point_accuracy_meters o.thresholds.degraded_accuracy_meters ≡ false))
unfolding derive_tracking_state
derive_tracking_state-active o = (
  (λ h. ground (arith, by_silence-active o o.last_point_at)),
  (λ h. ground (arith, by_silence-active o o.last_point_at)),
)
