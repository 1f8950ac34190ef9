-- ===== src/Drivers/Commands/HandBack.antt =====
-- A trip from its start to its end, and the assignments of vehicles behind it:
-- modules/drivers/src/application/trip-commands.ts.
use aytrackerv.Prelude.{
  ℕ, ◌≤◌, ◌≡◌, refl, Bool, true, false, not, ◌&&◌, Option, none, some, List, [], ◌∷◌, filter, find?,
  is_some, ◌==◌, ltb, any, arith,
}
use aytrackerv.Domain.Errors.{ok}
use aytrackerv.Domain.Time.{Instant}
use aytrackerv.Drivers.Trip.{
  TripTotals, is_trip_open, assert_no_open_trip, assert_transition, can_transition,
  compute_trip_totals,
}
use aytrackerv.Shifts.Driving.{
  Assignment, is_active_vehicle, is_open_for_vehicle, is_open_for_driver,
}
use aytrackerv.Drivers.Store.{
  DriverStore, DriverTrip, Vehicle, create, find_open_for_driver, current_vehicle_id,
  claim_for_trip, release_automatic, is_backward, close_trip, new_assignment, is_open_of_driver,
  is_open_of_vehicle,
}
use aytrackerv.Drivers.Commands.{
  StartRequest, EndRequest, start_trip, take_vehicle, open_trip, end_trip, finish_trip, hand_back,
  require_own_trip, end_totals, new_trip,
}

-- The assignments that are open.
abbrev pub open_rows : List Assignment → List Assignment
open_rows rows = filter (λ a. not (is_some a.ended_at)) rows

-- A driver who holds no vehicle hands none back.
release_automatic-none :
    (d v : ℕ) (t : Instant) (rows : List Assignment)
    → find? (is_open_for_driver d) rows ≡ none
    → release_automatic d v t rows ≡ rows
unfolding release_automatic
release_automatic-none d v t [] h = refl
release_automatic-none d v t (a ∷ rows) h = ground (arith, release_automatic-none d v t rows)

-- An assignment that a start made is closed.
release_automatic-new :
    (d v fresh : ℕ) (t : Instant) (rows : List Assignment)
    → open_rows (release_automatic d v t (new_assignment fresh d v ∷ rows))
      ≡ open_rows (release_automatic d v t rows)
unfolding release_automatic
release_automatic-new d v fresh t rows = ground arith

-- The trips that a closed one stands among.
close_trip-open :
    (d i : ℕ) (t : Instant) (n : ℕ) (rows : List DriverTrip)
    → find? (is_open_of_driver d) rows ≡ none
    → find? (is_open_of_driver d) (close_trip i t n rows) ≡ none
unfolding close_trip is_trip_open
close_trip-open d i t n [] h = refl
close_trip-open d i t n (row ∷ rows) h = ground (arith, close_trip-open d i t n rows)

find?-none-any {ℓ} :
    {A : Type ℓ} (p : A → Bool) (xs : List A) → find? p xs ≡ none → any p xs ≡ false
find?-none-any p [] h = refl
find?-none-any p (x ∷ xs) h = ground (arith, find?-none-any p xs)

module _ (store : DriverStore) (driver_id vehicle_id fresh_trip fresh_assignment : ℕ)
    (start_odometer end_odometer : Option ℕ) (start end : Instant) where
  abbrev pub start_request : StartRequest
  start_request = record {
    driver_id = driver_id;
    requested_vehicle_id = some vehicle_id;
    start_odometer = start_odometer;
    at = start;
  }

  abbrev pub end_request : EndRequest
  end_request = record {
    driver_id = driver_id;
    trip_id = fresh_trip;
    end_odometer = end_odometer;
    at = end;
  }

  -- What the start leaves.
  abbrev started : DriverStore
  started = record store {
    trips = new_trip fresh_trip vehicle_id start_request ∷ store.trips;
    assignments = new_assignment fresh_assignment driver_id vehicle_id ∷ store.assignments;
  }

  start_trip-started :
      (vehicle : Vehicle)
      → find? (λ v. (v.id == vehicle_id) && not v.is_deleted) store.vehicles ≡ some vehicle
      → is_active_vehicle vehicle.status ≡ true
      → find? (is_open_for_vehicle vehicle_id) store.assignments ≡ none
      → find? (is_open_for_driver driver_id) store.assignments ≡ none
      → find? (is_open_of_driver driver_id) store.trips ≡ none
      → any (is_open_of_vehicle vehicle_id) store.trips ≡ false
      → start_trip fresh_trip fresh_assignment start_request store ≡ (ok fresh_trip, started)
  unfolding start_trip take_vehicle claim_for_trip open_trip create assert_no_open_trip
  start_trip-started vehicle found active free idle parked unused =
      rw
        (
          idle,
          parked,
          found,
          active,
          free,
          find?-none-any (is_open_for_driver driver_id) store.assignments idle,
          find?-none-any (is_open_of_driver driver_id) store.trips parked,
          unused,
        )
        (rw parked refl)

  end_totals_total :
      start ≤ end → (totals : TripTotals) × (end_totals started fresh_trip start end ≡ ok totals)
  unfolding end_totals compute_trip_totals
  end_totals_total l = let in_order : ltb end start ≡ false = ground arith in rw in_order (_, refl)

  require_own_trip-started :
      require_own_trip driver_id fresh_trip started.trips
      ≡ ok (new_trip fresh_trip vehicle_id start_request)
  unfolding require_own_trip
  require_own_trip-started = ground arith

  finish_trip-started :
      (totals : TripTotals)
      → end_totals started fresh_trip start end ≡ ok totals
      → is_backward start_odometer end_odometer ≡ false
      → finish_trip end_request started
        ≡ ok (
          totals,
          vehicle_id,
          record started { trips = close_trip fresh_trip end totals.paused_seconds started.trips },
        )
  unfolding finish_trip assert_transition can_transition
  finish_trip-started totals e b = rw (require_own_trip-started, e, b) refl

  -- Of the driver and the vehicle of a request, neither is on a trip or holds an assignment, and
  -- the vehicle is in use.
  pub record IsFree : Type 0 where
    pub vehicle : Vehicle
    pub found : find? (λ v. (v.id == vehicle_id) && not v.is_deleted) store.vehicles ≡ some vehicle
    pub in_use : is_active_vehicle vehicle.status ≡ true
    pub unheld : find? (is_open_for_vehicle vehicle_id) store.assignments ≡ none
    pub idle : find? (is_open_for_driver driver_id) store.assignments ≡ none
    pub parked : find? (is_open_of_driver driver_id) store.trips ≡ none
    pub unused : any (is_open_of_vehicle vehicle_id) store.trips ≡ false

  -- The open assignments behind the end are those before the start.
  hand_back-open :
      (after : DriverStore)
      → after.assignments ≡ started.assignments
      → find? (is_open_for_driver driver_id) store.assignments ≡ none
      → open_rows (hand_back end_request vehicle_id after).assignments ≡ open_rows store.assignments
  unfolding hand_back
  hand_back-open after e idle =
      rw
        (
          e,
          release_automatic-new driver_id vehicle_id fresh_assignment end store.assignments,
          release_automatic-none driver_id vehicle_id end store.assignments idle,
        )
        refl

  close_trip-parked :
      (totals : TripTotals)
      → find? (is_open_of_driver driver_id) store.trips ≡ none
      → find?
          (is_open_of_driver driver_id)
          (close_trip fresh_trip end totals.paused_seconds started.trips)
        ≡ none
  unfolding close_trip is_trip_open
  close_trip-parked totals parked =
      let others =
        close_trip-open driver_id fresh_trip end totals.paused_seconds store.trips parked in
      ground (arith, others)

  end_trip-ended :
      (totals : TripTotals)
      → end_totals started fresh_trip start end ≡ ok totals
      → is_backward start_odometer end_odometer ≡ false
      → end_trip end_request started
        ≡ ok (
          totals,
          hand_back end_request vehicle_id (record started {
            trips = close_trip fresh_trip end totals.paused_seconds started.trips;
          }),
        )
  unfolding end_trip
  end_trip-ended totals e b = rw (finish_trip-started totals e b) refl

  -- Where a driver and a vehicle in use are both free, and the end is not before the start and
  -- does not turn the odometer back, startTrip succeeds and gives the driver the vehicle, endTrip
  -- of that trip succeeds behind it, and then the open assignments are those of before the start
  -- and the driver has no open trip.
  pub start_trip-end_trip :
      IsFree
      → start ≤ end
      → is_backward start_odometer end_odometer ≡ false
      → (s1 : DriverStore) × (totals : TripTotals) × (s2 : DriverStore) × (start_trip fresh_trip
            fresh_assignment start_request store
          ≡ (ok fresh_trip, s1))
        × (current_vehicle_id driver_id s1.assignments ≡ some vehicle_id)
        × (end_trip end_request s1 ≡ ok (totals, s2))
        × (open_rows s2.assignments ≡ open_rows store.assignments)
        × (find_open_for_driver driver_id s2.trips ≡ none)
  unfolding hand_back
  start_trip-end_trip free l b =
      let (totals, e) = end_totals_total l in
      let after = record started {
        trips = close_trip fresh_trip end totals.paused_seconds started.trips;
      } in
      (
        started,
        totals,
        hand_back end_request vehicle_id after,
        start_trip-started free.vehicle free.found free.in_use free.unheld free.idle free.parked
            free.unused,
        ground arith,
        end_trip-ended totals e b,
        hand_back-open after refl free.idle,
        rw (close_trip-parked totals free.parked) refl,
      )
