-- ===== src/Tracking/Collector/Fixes.antt =====
-- What a collector keeps while fixes come and uploads are answered, in any order.
use aytrackerv.Prelude.{
  ◌<◌, ◌≡◌, ◌⊎◌, inl, inr, Bool, Bool-cases, List, [], ◌∷◌, arith, if◌then◌else◌, ltb,
}
use aytrackerv.Domain.Numbers.{JsNumber}
use aytrackerv.Tracking.State.{TrackingState}
use aytrackerv.Tracking.Queue.{QueuedPoint}
use aytrackerv.Tracking.Collector.{
  Collector, GeoPointLike, GeolocationPosition, Answer, on_fix, on_error, on_visibility_change,
  should_send, keep_fix, seen_fix, begin_flush, answer,
}
use aytrackerv.Tracking.Collector.Points.{Has}
use aytrackerv.Tracking.Collector.Safety.{
  IsSound, IsKept, IsSafe, IsSafe-then, begin_flush-IsSafe, answer-IsSafe, keep_fix-IsSafe,
}

seen_fix-IsSafe :
    (is_visible : Bool) (position : GeolocationPosition) (c : Collector)
    → IsSound c
    → IsSafe c (seen_fix is_visible position c)
seen_fix-IsSafe is_visible position c s = record {
  sound = record { ascends = s.ascends; below = s.below; older = s.older; covers = s.covers };
  counts = omega arith;
  keeps = λ p e k. k;
}

-- What happens to a collector: a fix, on a page that is visible or not; an error of the location,
-- which is a refused permission or not; the page is hidden or shown; the page comes online or goes
-- away, which starts a flush; or an upload is answered.
pub data Event : Type 0 where
  fixed : (is_visible : Bool) → GeolocationPosition → Event
  failed : (is_denied : Bool) → Event
  turned : (is_hidden : Bool) → Event
  flushed : Event
  answered : Answer → Event

module _ (haversine_meters : GeoPointLike → GeoPointLike → JsNumber) where
  unfoldable pub after_event : Event → Collector → Collector
  after_event (fixed is_visible position) c = on_fix haversine_meters is_visible position c
  after_event (failed is_denied) c = on_error is_denied c
  after_event (turned is_hidden) c = on_visibility_change is_hidden c
  after_event flushed c = begin_flush c
  after_event (answered a) c = answer a c

  unfoldable pub after_events : List Event → Collector → Collector
  unfolding after_event
  after_events [] c = c
  after_events (e ∷ events) c = after_events events (after_event e c)

  on_fix-IsSafe :
      (is_visible : Bool) (position : GeolocationPosition) (c : Collector)
      → IsSound c
      → IsSafe c (on_fix haversine_meters is_visible position c)
  unfolding on_fix
  on_fix-IsSafe is_visible position c s =
      let seen = seen_fix is_visible position c in
      let first = seen_fix-IsSafe is_visible position c s in
      elim (Bool-cases (should_send haversine_meters c position)) [
        | inl e ↦
            let kept = keep_fix seen position in
            let second = keep_fix-IsSafe seen position first.sound in
            rw e (
              IsSafe-then c kept (begin_flush kept) (IsSafe-then c seen kept first second)
                (begin_flush-IsSafe kept second.sound))
        | inr e ↦ rw e first
      ]

  after_event-IsSafe : (e : Event) (c : Collector) → IsSound c → IsSafe c (after_event e c)
  unfolding after_event on_error on_visibility_change
  after_event-IsSafe (fixed is_visible position) c s = on_fix-IsSafe is_visible position c s
  after_event-IsSafe (failed is_denied) c s = record {
    sound = record { ascends = s.ascends; below = s.below; older = s.older; covers = s.covers };
    counts = omega arith;
    keeps = λ p e k. k;
  }
  after_event-IsSafe (turned is_hidden) c s =
      let shown = record c {
        current = record c.current {
          state = if is_hidden then TrackingState.degraded else TrackingState.active;
        };
      } in
      let safe =
        begin_flush-IsSafe shown
          (record { ascends = s.ascends; below = s.below; older = s.older; covers = s.covers }) in
      record { sound = safe.sound; counts = safe.counts; keeps = safe.keeps }
  after_event-IsSafe flushed c s = begin_flush-IsSafe c s
  after_event-IsSafe (answered a) c s = answer-IsSafe a c s

  after_events-IsSafe :
      (events : List Event) (c : Collector) → IsSound c → IsSafe c (after_events events c)
  unfolding after_events
  after_events-IsSafe [] c s = record { sound = s; counts = omega arith; keeps = λ p e k. k }
  after_events-IsSafe (e ∷ events) c s =
      let first = after_event-IsSafe e c s in
      IsSafe-then c (after_event e c) (after_events events (after_event e c)) first
        (after_events-IsSafe events (after_event e c) first.sound)

  -- Whatever fixes, errors and answers come, in any order and however late, answers that were lost
  -- and uploads that were refused among them: a collector whose queue ascends by sequence numbers up
  -- to the last given, and which holds its batch in flight, stays so; and a point that is queued is
  -- afterwards still queued or was received by the server, unless the count of dropped points has
  -- grown.
  pub after_events-keeps :
      (events : List Event) (c : Collector) (p : QueuedPoint)
      → IsSound c
      → Has p c.queue
      → IsSound (after_events events c)
        × ((c.current.dropped_points < (after_events events c).current.dropped_points)
            ⊎ IsKept p (after_events events c))
  after_events-keeps events c p s m =
      let safe = after_events-IsSafe events c s in
      let before = c.current.dropped_points in
      let after = (after_events events c).current.dropped_points in
      (
        safe.sound,
        elim (Bool-cases (ltb before after)) [
          | inl more ↦ inl (ground arith)
          | inr not_more ↦
              let counts = safe.counts in
              let same : after ≡ before = ground arith in inr (safe.keeps p same (inl m))
        ],
      )
