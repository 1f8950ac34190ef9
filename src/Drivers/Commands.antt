-- ===== src/Drivers/Commands.antt =====
-- modules/drivers/src/application/trip-commands.ts. A transaction that throws leaves the store as
-- it was; the identifiers that the database gives to new rows are arguments. Events are not
-- modelled.
pub mod HandBack
use aytrackerv.Prelude.{
  ℕ, Bool, true, false, not, ◌&&◌, Option, none, some, List, [], ◌∷◌, map, ltb, leb, any, filter,
  find?, is_some, ◌==◌, if◌then◌else◌,
}
use aytrackerv.Domain.Errors.{
  Result, ok, err, ◌>>◌, ◌>>=◌, throw_if, not_found_error, conflict_error,
  precondition_failed_error, forbidden_error,
}
use aytrackerv.Domain.Time.{Instant}
use aytrackerv.Drivers.Trip.{
  TripState, TripStatus, active, completed, TripTotals, assert_no_open_trip, assert_transition,
  compute_trip_totals, is_trip_open,
}
use aytrackerv.Drivers.Trip.Pauses.{PauseEvent, list_pauses}
use aytrackerv.Shifts.Driving.{
  Assignment, VehicleStatus, is_active_vehicle, is_open_for_vehicle, is_open_for_driver,
}
use aytrackerv.Shifts.Store.{refused_by}
use aytrackerv.Tracking.State.{default_thresholds, find_tracking_gaps, total_gap_seconds}
use aytrackerv.Drivers.Store.{
  DriverStore, DriverTrip, create, find_open_for_driver, current_vehicle_id, claim_for_trip,
  release_automatic, record_odometer, is_backward, close_trip,
}

pub record StartRequest : Type 0 where
  pub driver_id : ℕ
  pub requested_vehicle_id : Option ℕ
  pub start_odometer : Option ℕ
  pub at : Instant

-- The claim of a requested vehicle, which commits on its own.
abbrev pub claimed : ℕ → Result (List Assignment) → DriverStore → Result ℕ × DriverStore
claimed vehicle_id (err thrown) store = (err thrown, store)
claimed vehicle_id (ok rows) store = (ok vehicle_id, record store { assignments = rows })

-- The vehicle of a trip that starts: the assigned one, else the one that is asked for.
unfoldable pub take_vehicle : ℕ → ℕ → Option ℕ → Option ℕ → DriverStore → Result ℕ × DriverStore
unfolding claim_for_trip
take_vehicle fresh driver_id (some assigned) requested store = (ok assigned, store)
take_vehicle fresh driver_id none none store =
    (err (precondition_failed_error "trip.no_vehicle_assigned"), store)
take_vehicle fresh driver_id none (some vehicle_id) store =
    claimed vehicle_id
      (assert_no_open_trip (find_open_for_driver driver_id store.trips)
        >> claim_for_trip fresh driver_id vehicle_id store.vehicles store.assignments)
      store

abbrev pub new_trip : ℕ → ℕ → StartRequest → DriverTrip
new_trip fresh vehicle_id request = record {
  trip = record {
    id = fresh;
    driver_id = request.driver_id;
    vehicle_id = vehicle_id;
    status = active;
    started_at = some request.at;
    ended_at = none;
    paused_seconds = 0;
  };
  start_odometer = request.start_odometer;
}

abbrev pub created : ℕ → Result (List DriverTrip) → DriverStore → Result ℕ × DriverStore
created fresh (err thrown) store = (err thrown, store)
created fresh (ok rows) store = (ok fresh, record store { trips = rows })

-- The transaction of `startTrip`, of the vehicle and the store that the claim leaves.
unfoldable pub open_trip : ℕ → StartRequest → Result ℕ × DriverStore → Result ℕ × DriverStore
unfolding create
open_trip fresh request (err thrown, store) = (err thrown, store)
open_trip fresh request (ok vehicle_id, store) =
    created fresh
      (assert_no_open_trip (find_open_for_driver request.driver_id store.trips)
        >> create (new_trip fresh vehicle_id request) store.trips)
      store

-- `startTrip`. A claim stays when the transaction behind it throws.
unfoldable pub start_trip : ℕ → ℕ → StartRequest → DriverStore → Result ℕ × DriverStore
unfolding take_vehicle open_trip
start_trip fresh_trip fresh_assignment request store = open_trip fresh_trip request (
    take_vehicle fresh_assignment request.driver_id
      (current_vehicle_id request.driver_id store.assignments) request.requested_vehicle_id store)

-- `requireOwnTrip`
unfoldable pub require_own_trip : ℕ → ℕ → List DriverTrip → Result DriverTrip
require_own_trip driver_id trip_id rows = elim (find? (λ row. row.trip.id == trip_id) rows) [
  | none ↦ err (not_found_error "trip.not_found")
  | some row ↦
      throw_if (not (row.trip.driver_id == driver_id)) (not_found_error "trip.not_found") >> ok row
]

pub record EndRequest : Type 0 where
  pub driver_id : ℕ
  pub trip_id : ℕ
  pub end_odometer : Option ℕ
  pub at : Instant

abbrev pub require_started : Option Instant → Result Instant
require_started none = err (precondition_failed_error "trip.not_started")
require_started (some at) = ok at

-- The gaps and the totals of a trip that ends.
unfoldable pub end_totals : DriverStore → ℕ → Instant → Instant → Result TripTotals
end_totals store trip_id started_at at =
    let pauses = list_pauses (store.pause_events trip_id) in
    let gaps =
      find_tracking_gaps (store.point_timestamps trip_id) started_at (some at) at
        (map (λ p. record { start = p.started_at; end = p.ended_at }) pauses) default_thresholds in
    compute_trip_totals started_at at pauses (total_gap_seconds gaps)

-- The transaction of `endTrip`: what it returns, and the vehicle of the trip.
unfoldable pub finish_trip : EndRequest → DriverStore → Result (TripTotals × ℕ × DriverStore)
unfolding require_own_trip end_totals close_trip
finish_trip request store =
    require_own_trip request.driver_id request.trip_id store.trips >>= λ row.
    assert_transition row.trip.status completed
    >> (require_started row.trip.started_at >>= λ started_at.
        end_totals store request.trip_id started_at request.at >>= λ totals.
        throw_if (is_backward row.start_odometer request.end_odometer)
          (refused_by "driver_trips_odometer_forward")
        >> ok (
          totals,
          row.trip.vehicle_id,
          record store {
            trips = close_trip request.trip_id request.at totals.paused_seconds store.trips;
          },
        ))

-- What follows the transaction of `endTrip`: the odometer, and the vehicle handed back.
unfoldable pub hand_back : EndRequest → ℕ → DriverStore → DriverStore
unfolding record_odometer release_automatic
hand_back request vehicle_id store = record store {
  vehicles = record_odometer vehicle_id request.end_odometer store.vehicles;
  assignments = release_automatic request.driver_id vehicle_id request.at store.assignments;
}

-- `endTrip`
unfoldable pub end_trip : EndRequest → DriverStore → Result (TripTotals × DriverStore)
unfolding finish_trip hand_back
end_trip request store = finish_trip request store >>= λ (totals, vehicle_id, after).
    ok (totals, hand_back request vehicle_id after)

-- `actorDriverId !== driverId`
abbrev pub is_actor : Option ℕ → ℕ → Bool
is_actor none driver_id = false
is_actor (some actor) driver_id = actor == driver_id

unfoldable pub assert_driver_scope : Option ℕ → ℕ → Result (Unit {0})
assert_driver_scope actor_driver_id driver_id =
    throw_if (not (is_actor actor_driver_id driver_id)) (forbidden_error "driver.not_own_data")
