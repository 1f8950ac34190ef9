-- ===== src/Tracking/CollectorExamples.antt =====
-- A collector with two points in its queue.
use aytrackerv.Prelude.{
  ℕ, zero, suc, ◌<◌, subst, inl, inr, ◌≡◌, ◌⊎◌, refl, true, false, none, some, List, [], ◌∷◌, arith,
}
use aytrackerv.Domain.Numbers.{JsNumber, positive}
use aytrackerv.Tracking.State.{TrackingState}
use aytrackerv.Tracking.Queue.{RawPoint, gps}
use aytrackerv.Tracking.Collector.{
  Collector, GeoPointLike, GeolocationPosition, Permission, Answer, accepted, lost, refused, stop,
  batch_of,
}
use aytrackerv.Tracking.Collector.Points.{is_of}
use aytrackerv.Tracking.Collector.Flushes.{stop_refused}
use aytrackerv.Tracking.Collector.Safety.{IsSound, IsKept}
use aytrackerv.Tracking.Collector.Fixes.{
  Event, fixed, answered, flushed, after_events, after_events-keeps,
}

abbrev point_at : ℕ → RawPoint
point_at at = record {
  timestamp = at;
  latitude = positive 0;
  longitude = positive 0;
  accuracy_meters = none;
  speed_mps = none;
  heading = none;
  altitude = none;
  source = gps;
}

abbrev collector : Collector
collector = record {
  options = record { session_id = 3; min_interval_seconds = 15; min_distance_meters = positive 0 };
  is_watching = true;
  queue =
      record { point = point_at 1_000; session_id = 3; seq = 5 }
      ∷ record { point = point_at 20_000; session_id = 3; seq = 6 }
      ∷ [];
  seq = 6;
  in_flight = none;
  last_sent_at = some 20_000;
  last_sent_point = some (record { latitude = positive 0; longitude = positive 0 });
  current = record {
    state = TrackingState.active;
    last_fix_at = some 20_000;
    last_accuracy_meters = none;
    queued_points = 2;
    permission = Permission.granted;
    dropped_points = 0;
  };
  uplink = record { attempts = 0; received = [] };
}

-- A server that refuses the first upload.
abbrev refuses_first : ℕ → List RawPoint → Answer
refuses_first zero _ = refused
refuses_first (suc _) _ = accepted

-- A server whose first answer is lost.
abbrev loses_first : ℕ → List RawPoint → Answer
loses_first zero _ = lost
loses_first (suc _) _ = accepted

abbrev no_distance : GeoPointLike → GeoPointLike → JsNumber
no_distance _ _ = positive 0

abbrev fix : GeolocationPosition
fix = record {
  timestamp = 60_000;
  latitude = positive 1;
  longitude = positive 2;
  accuracy = positive 3;
  speed = none;
  heading = none;
  altitude = none;
}

stop_refused_example :
    (after : Collector) × (stop refuses_first collector ≡ some after)
    × (after.queue ≡ [])
    × (after.uplink.received ≡ [])
stop_refused_example = stop_refused refuses_first collector refl (refl, (refl, tt)) refl

-- The batch of the first point is in flight while a fix comes, its answer is lost, and a later flush
-- sends the three points.
abbrev uploading : Collector
uploading = record collector {
  in_flight = some (record { point = point_at 1_000; session_id = 3; seq = 5 } ∷ []);
}

abbrev events : List Event
events = fixed true fix ∷ answered lost ∷ flushed ∷ answered accepted ∷ []

uploading-IsSound : IsSound uploading
uploading-IsSound = record {
  ascends = omega arith;
  below = omega arith;
  older = omega arith;
  covers = λ q m h. elim m [
    | inl e ↦ inl e
    | inr rest ↦ elim rest [
      | inl e ↦
          let z : false ≡ true = subst (λ r. is_of (batch_of uploading.in_flight) r ≡ true) e h in
          cc
      | inr more ↦ absurd more
    ]
  ];
}

after_events-keeps_example :
    IsSound (after_events no_distance events uploading)
    × ((0 < (after_events no_distance events uploading).current.dropped_points)
        ⊎ IsKept
            (record { point = point_at 1_000; session_id = 3; seq = 5 })
            (after_events no_distance events uploading))
after_events-keeps_example =
    after_events-keeps no_distance events uploading
      (record { point = point_at 1_000; session_id = 3; seq = 5 }) uploading-IsSound (inl refl)
