-- ===== src/Drivers/Examples.antt =====
-- Runs of the trip rules, and their theorems at concrete inputs.
use aytrackerv.Prelude.{
  sum_by, min, ◌+◌, ◌-◌, ◌*◌, ◌≤◌, ◌≡◌, refl, true, none, some, List, [], ◌∷◌, arith, length, any,
  false,
}
use aytrackerv.Domain.Errors.{ok}
use aytrackerv.Domain.Time.{round_seconds, seconds_between}
use aytrackerv.Drivers.Trip.{
  PauseInterval, TripTotals, add_pause, paused, completed, can_transition, compute_trip_totals,
}
use aytrackerv.Drivers.Trip.Totals.{paused_ms, compute_trip_totals_bounds}
use aytrackerv.Drivers.Trip.Pauses.{
  PauseEvent, tracking_paused, tracking_resumed, list_pauses, pauses_from, covers, paused_at,
  list_pauses-paused_at,
}
use aytrackerv.Shifts.Driving.{VehicleStatus}
use aytrackerv.Drivers.Store.{DriverStore, current_vehicle_id, find_open_for_driver}
use aytrackerv.Drivers.Commands.{start_trip, end_trip}
use aytrackerv.Drivers.Commands.HandBack.{
  start_request, end_request, open_rows, start_trip-end_trip,
}

finish_from_pause : can_transition paused completed ≡ true
unfolding can_transition
finish_from_pause = refl

-- A pause of 1.5 seconds, and one that was open when the trip ended.
abbrev pauses : List PauseInterval
pauses =
    record { started_at = 2_000; ended_at = some 3_500 }
    ∷ record { started_at = 9_000; ended_at = none }
    ∷ []

totals_of_pauses :
    compute_trip_totals 1_000 11_000 pauses 20
    ≡ ok (record {
      elapsed_seconds = 10;
      paused_seconds = 4;
      duration_seconds = 6;
      untracked_seconds = 6;
    })
unfolding compute_trip_totals round_seconds add_pause seconds_between
totals_of_pauses = refl

compute_trip_totals_bounds_example :
    (d : TripTotals) × (compute_trip_totals 1_000 11_000 pauses 20 ≡ ok d)
    × (d.elapsed_seconds ≡ round_seconds (11_000 - 1_000))
    × (d.paused_seconds * 1000 ≤ sum_by (paused_ms 1_000 11_000) pauses + 500 * length pauses)
    × (sum_by (paused_ms 1_000 11_000) pauses ≤ d.paused_seconds * 1000 + 500 * length pauses)
    × (sum_by (paused_ms 1_000 11_000) pauses ≤ 11_000 - 1_000)
    × (d.duration_seconds + min d.paused_seconds d.elapsed_seconds ≡ d.elapsed_seconds)
    × (d.untracked_seconds ≡ min 20 d.duration_seconds)
compute_trip_totals_bounds_example =
    compute_trip_totals_bounds 1_000 11_000 pauses 20 (omega arith)
      (omega arith, omega arith, (omega arith, omega arith, tt))

abbrev pause_events : List PauseEvent
pause_events =
    record { event_type = tracking_paused; occurred_at = 3_000 }
    ∷ record { event_type = tracking_paused; occurred_at = 4_000 }
    ∷ record { event_type = tracking_resumed; occurred_at = 5_500 }
    ∷ record { event_type = tracking_paused; occurred_at = 9_000 }
    ∷ []

pauses_of_events :
    list_pauses pause_events
    ≡ record { started_at = 3_000; ended_at = some 5_500 }
      ∷ record { started_at = 9_000; ended_at = none }
      ∷ []
unfolding list_pauses pauses_from
pauses_of_events = refl

list_pauses-paused_at_example :
    any (covers 5_000) (list_pauses pause_events) ≡ paused_at 5_000 false pause_events
list_pauses-paused_at_example =
    list_pauses-paused_at pause_events 5_000
      (omega arith, (omega arith, (omega arith, (omega arith, tt))))

-- A van that nobody holds, another that a manager gave to driver 8, and no trip.
abbrev depot : DriverStore
depot = record {
  trips = [];
  assignments =
      record { id = 1; driver_id = 8; vehicle_id = 31; ended_at = none; is_automatic = false } ∷ [];
  vehicles =
      record {
        id = 30;
        status = VehicleStatus.active;
        is_deleted = false;
        odometer_current = 5_000;
      }
      ∷ [];
  point_timestamps = λ _. 4_000 ∷ [];
  pause_events = λ _. pause_events;
}

start_trip-end_trip_example :
    (s1 : DriverStore) × (totals : TripTotals) × (s2 : DriverStore) × (start_trip 50 2
        (start_request depot 7 30 50 2 (some 5_000) (some 5_200) 2_000 12_000)
        depot
      ≡ (ok 50, s1))
    × (current_vehicle_id 7 s1.assignments ≡ some 30)
    × (end_trip (end_request depot 7 30 50 2 (some 5_000) (some 5_200) 2_000 12_000) s1
        ≡ ok (totals, s2))
    × (open_rows s2.assignments ≡ open_rows depot.assignments)
    × (find_open_for_driver 7 s2.trips ≡ none)
start_trip-end_trip_example =
    start_trip-end_trip depot 7 30 50 2 (some 5_000) (some 5_200) 2_000 12_000
      (record {
        vehicle = record {
          id = 30;
          status = VehicleStatus.active;
          is_deleted = false;
          odometer_current = 5_000;
        };
        found = refl;
        in_use = refl;
        unheld = refl;
        idle = refl;
        parked = refl;
        unused = refl;
      })
      (omega arith) refl
