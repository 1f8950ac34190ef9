-- ===== src/Drivers/Store.antt =====
-- The tables of one organization that the trip commands of modules/drivers/src/application read and
-- write, and the queries of modules/drivers/src/infrastructure/prisma-repositories.ts on them. What an
-- index or a CHECK of packages/database/prisma/migrations/20260819153000_invariants_and_rls refuses
-- throws. Odometers are numbers of the last decimal place that the column keeps. Left out are the
-- label, the planned distance, the distance and the columns of places.
use aytrackerv.Prelude.{
  ℕ, Bool, true, false, not, ◌&&◌, Option, none, some, List, ◌∷◌, map, ltb, leb, any, find?,
  is_some, ◌==◌, if◌then◌else◌,
}
use aytrackerv.Domain.Errors.{Result, ok, err, ◌>>◌, throw_if, not_found_error, conflict_error}
use aytrackerv.Domain.Time.{Instant}
use aytrackerv.Drivers.Trip.{TripState, completed, is_trip_open}
use aytrackerv.Drivers.Trip.Pauses.{PauseEvent}
use aytrackerv.Shifts.Driving.{
  Assignment, VehicleStatus, is_active_vehicle, is_open_for_vehicle, is_open_for_driver,
}
use aytrackerv.Shifts.Store.{refused_by}

-- A row of `driver_trips`.
pub record DriverTrip : Type 0 where
  pub trip : TripState
  pub start_odometer : Option ℕ

-- A row of `vehicles`.
pub record Vehicle : Type 0 where
  pub id : ℕ
  pub status : VehicleStatus
  pub is_deleted : Bool
  pub odometer_current : ℕ

-- The instants of the points of a trip, and its pause events in the order of their times, are what
-- the queries on those two tables return.
pub record DriverStore : Type 0 where
  pub trips : List DriverTrip
  pub assignments : List Assignment
  pub vehicles : List Vehicle
  pub point_timestamps : ℕ → List Instant
  pub pause_events : ℕ → List PauseEvent

abbrev pub is_open_of_driver : ℕ → DriverTrip → Bool
is_open_of_driver driver_id row = (row.trip.driver_id == driver_id) && is_trip_open row.trip.status

abbrev pub is_open_of_vehicle : ℕ → DriverTrip → Bool
is_open_of_vehicle vehicle_id row =
    (row.trip.vehicle_id == vehicle_id) && is_trip_open row.trip.status

abbrev pub row_trip : Option DriverTrip → Option TripState
row_trip none = none
row_trip (some row) = some row.trip

-- `trips.findOpenForDriver`
abbrev pub find_open_for_driver : ℕ → List DriverTrip → Option TripState
find_open_for_driver driver_id rows = row_trip (find? (is_open_of_driver driver_id) rows)

-- `trips.create`, with the indexes driver_trips_one_open_per_driver and
-- driver_trips_one_open_per_vehicle.
unfoldable pub create : DriverTrip → List DriverTrip → Result (List DriverTrip)
create row rows =
    throw_if (any (is_open_of_driver row.trip.driver_id) rows)
      (refused_by "driver_trips_one_open_per_driver")
    >> throw_if (any (is_open_of_vehicle row.trip.vehicle_id) rows)
        (refused_by "driver_trips_one_open_per_vehicle")
    >> ok (row ∷ rows)

abbrev pub assigned_vehicle : Option Assignment → Option ℕ
assigned_vehicle none = none
assigned_vehicle (some assignment) = some assignment.vehicle_id

-- `vehicles.currentVehicleId`; an index keeps a driver to one open assignment, so that there is no
-- newest one to choose.
abbrev pub current_vehicle_id : ℕ → List Assignment → Option ℕ
current_vehicle_id driver_id rows = assigned_vehicle (find? (is_open_for_driver driver_id) rows)

abbrev pub new_assignment : ℕ → ℕ → ℕ → Assignment
new_assignment fresh driver_id vehicle_id = record {
  id = fresh;
  driver_id = driver_id;
  vehicle_id = vehicle_id;
  ended_at = none;
  is_automatic = true;
}

-- The end of `claimForTrip`, by the open assignment of the vehicle. The index
-- vehicle_assignments_one_open_per_driver is the database's.
abbrev pub claim_held : ℕ → ℕ → ℕ → Option Assignment → List Assignment → Result (List Assignment)
claim_held fresh driver_id vehicle_id none rows =
    throw_if (any (is_open_for_driver driver_id) rows)
      (conflict_error "fleet.driver_already_assigned")
    >> ok (new_assignment fresh driver_id vehicle_id ∷ rows)
claim_held fresh driver_id vehicle_id (some held) rows =
    throw_if (not (held.driver_id == driver_id)) (conflict_error "driving.vehicle_taken") >> ok rows

abbrev pub assert_claimable : Option Vehicle → Result (Unit {0})
assert_claimable none = err (not_found_error "vehicle.not_found")
assert_claimable (some vehicle) =
    throw_if (not (is_active_vehicle vehicle.status))
      (conflict_error "driving.vehicle_not_available")

-- `vehicles.claimForTrip`
unfoldable pub claim_for_trip :
    ℕ → ℕ → ℕ → List Vehicle → List Assignment → Result (List Assignment)
claim_for_trip fresh driver_id vehicle_id vehicles rows =
    assert_claimable (find? (λ v. (v.id == vehicle_id) && not v.is_deleted) vehicles)
    >> claim_held fresh driver_id vehicle_id (find? (is_open_for_vehicle vehicle_id) rows) rows

abbrev pub is_automatic_of : ℕ → ℕ → Assignment → Bool
is_automatic_of driver_id vehicle_id a =
    (a.driver_id == driver_id)
    && (a.vehicle_id == vehicle_id)
    && not (is_some a.ended_at)
    && a.is_automatic

-- `vehicles.releaseAutomatic`
unfoldable pub release_automatic : ℕ → ℕ → Instant → List Assignment → List Assignment
release_automatic driver_id vehicle_id ended_at rows =
    map
      (λ a.
        if is_automatic_of driver_id vehicle_id a then record a { ended_at = some ended_at } else a)
      rows

-- The reading of a vehicle, which only moves forward.
abbrev pub moved_forward : ℕ → ℕ → ℕ
moved_forward odometer current = if leb odometer current then current else odometer

-- `if (input.endOdometer) await this.vehicles.recordOdometer(...)`
unfoldable pub record_odometer : ℕ → Option ℕ → List Vehicle → List Vehicle
record_odometer vehicle_id none vehicles = vehicles
record_odometer vehicle_id (some odometer) vehicles =
    map
      (λ v.
        if v.id == vehicle_id
        then record v { odometer_current = moved_forward odometer v.odometer_current }
        else v)
      vehicles

-- `endOdometer < startOdometer`, where both are known.
abbrev pub is_backward : Option ℕ → Option ℕ → Bool
is_backward none end = false
is_backward (some start) none = false
is_backward (some start) (some end) = ltb end start

-- `trips.close`, with the CHECK driver_trips_odometer_forward.
unfoldable pub close_trip : ℕ → Instant → ℕ → List DriverTrip → List DriverTrip
close_trip trip_id ended_at paused_seconds rows =
    map
      (λ row.
        if row.trip.id == trip_id
        then record row {
          trip = record row.trip {
            status = completed;
            ended_at = some ended_at;
            paused_seconds = paused_seconds;
          };
        }
        else row)
      rows
