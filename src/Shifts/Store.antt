-- ===== src/Shifts/Store.antt =====
-- The tables of one organization that the commands of modules/shifts/src/application read and write,
-- and the queries of infrastructure/prisma-repositories.ts and prisma-driving-repository.ts on
-- them. The columns of positions on the map and of distances are left out. What an index of
-- packages/database/prisma/migrations/20260819153000_invariants_and_rls refuses throws.
use aytrackerv.Prelude.{
  ℕ, ◌-◌, Bool, false, not, ◌&&◌, String, Option, none, some, List, [], ◌∷◌, map, min, any, filter,
  find?, is_some, ◌==◌, if◌then◌else◌,
}
use aytrackerv.Domain.Errors.{Result, ok, ◌>>◌, throw_if, DomainError, internal, conflict_error}
use aytrackerv.Domain.Time.{Instant, end_or, seconds_between}
use aytrackerv.Drivers.Trip.{TripStatus}
use aytrackerv.Shifts.Shift.{BreakInterval}
use aytrackerv.Shifts.PositionSession.{PositionSessionState, PositionChangeSource, Closing}
use aytrackerv.Shifts.Driving.{
  Assignment, is_trip_over, assert_can_end_driving, close_automatic_assignment,
}
use aytrackerv.Shifts.Breaks.{BreakRow, BreakTables}
use aytrackerv.Tracking.State.{default_thresholds, find_tracking_gaps, total_gap_seconds}

-- A row of `position_sessions`.
pub record SessionRow : Type 0 where
  pub session : PositionSessionState
  pub source : PositionChangeSource
  pub duration_seconds : Option ℕ
  pub corrected_at : Option Instant

-- A row of `driver_trips`.
pub record TripRow : Type 0 where
  pub id : ℕ
  pub driver_id : ℕ
  pub vehicle_id : ℕ
  pub position_session_id : Option ℕ
  pub status : TripStatus
  pub started_at : Option Instant
  pub ended_at : Option Instant
  pub paused_seconds : ℕ
  pub duration_seconds : ℕ
  pub untracked_seconds : ℕ

-- A row of `location_points` that a trip owns.
pub record TripPoint : Type 0 where
  pub trip_id : ℕ
  pub timestamp : Instant

pub record Store : Type 0 where
  pub tables : BreakTables
  pub open tables use *
  pub sessions : List SessionRow
  pub trips : List TripRow
  pub assignments : List Assignment
  pub points : List TripPoint

-- A row that an index or a CHECK of the database refuses.
abbrev pub refused_by : String → DomainError
refused_by constraint = record { kind = internal; code = constraint }

abbrev pub is_open_session : SessionRow → Bool
is_open_session row = not (is_some row.session.ended_at)

abbrev pub is_of_shift : ℕ → SessionRow → Bool
is_of_shift shift_id row = (row.session.shift_id == shift_id) && is_open_session row

abbrev pub is_of_worker : ℕ → SessionRow → Bool
is_of_worker worker_id row = (row.session.worker_id == worker_id) && is_open_session row

abbrev pub row_session : Option SessionRow → Option PositionSessionState
row_session none = none
row_session (some row) = some row.session

-- `findOpenForShift`
unfoldable pub find_open_session : ℕ → List SessionRow → Option PositionSessionState
find_open_session shift_id rows = row_session (find? (is_of_shift shift_id) rows)

-- `positionSessions.open`, with the indexes position_sessions_one_open_per_shift and
-- position_sessions_one_open_per_worker.
unfoldable pub open_session : SessionRow → List SessionRow → Result (List SessionRow)
open_session row rows =
    throw_if (any (is_of_shift row.session.shift_id) rows)
      (refused_by "position_sessions_one_open_per_shift")
    >> throw_if (any (is_of_worker row.session.worker_id) rows)
        (refused_by "position_sessions_one_open_per_worker")
    >> ok (row ∷ rows)

abbrev pub close_row : Closing → SessionRow → SessionRow
close_row closing row =
    if (row.session.id == closing.session_id) && is_open_session row
    then record row {
      session = record row.session { ended_at = some closing.ended_at };
      duration_seconds = some closing.duration_seconds;
    }
    else row

-- `positionSessions.close`
unfoldable pub close_session : Closing → List SessionRow → Result (List SessionRow)
close_session closing rows =
    throw_if (not (any (λ row. (row.session.id == closing.session_id) && is_open_session row) rows))
      (conflict_error "position.session_already_closed")
    >> ok (map (close_row closing) rows)

-- `breaks.listForShift`; the order does not matter to its caller.
unfoldable pub list_breaks : ℕ → List BreakRow → List BreakInterval
list_breaks shift_id rows =
    map (λ row. record { type = row.type; started_at = row.started_at; ended_at = row.ended_at })
      (filter (λ row. row.shift_id == shift_id) rows)

abbrev pub is_session_of : ℕ → Option ℕ → Bool
is_session_of session_id none = false
is_session_of session_id (some id) = id == session_id

-- `findTripForSession`
unfoldable pub find_trip_for_session : ℕ → List TripRow → Option TripRow
find_trip_for_session session_id trips =
    find? (λ trip. is_session_of session_id trip.position_session_id) trips

-- `closeTrip` of a trip, with the instants of its points.
unfoldable pub closed_trip : List Instant → Instant → TripRow → TripRow
closed_trip timestamps ended_at trip =
    let started_at = end_or trip.started_at ended_at in
    let gaps =
      find_tracking_gaps timestamps started_at (some ended_at) ended_at [] default_thresholds in
    let duration = seconds_between started_at ended_at - trip.paused_seconds in
    record trip {
      status = TripStatus.completed;
      ended_at = some ended_at;
      duration_seconds = duration;
      untracked_seconds = min (total_gap_seconds gaps) duration;
    }

unfoldable pub close_trip : ℕ → Instant → Store → Store
unfolding closed_trip
close_trip trip_id ended_at store =
    let timestamps = map (λ p. p.timestamp) (filter (λ p. p.trip_id == trip_id) store.points) in
    record store {
      trips =
          map (λ trip. if trip.id == trip_id then closed_trip timestamps ended_at trip else trip)
            store.trips;
    }

abbrev end_found_trip : Store → Instant → Option TripRow → Result Store
end_found_trip store at none = ok store
end_found_trip store at (some trip) =
    assert_can_end_driving trip.status at trip.started_at
    >> (if is_trip_over trip.status
        then ok store
        else let closed = close_trip trip.id at store in
          ok (record closed {
            assignments =
                close_automatic_assignment trip.driver_id trip.vehicle_id at closed.assignments;
          }))

-- `endDrivingForSession` of application/driving-commands.ts
unfoldable pub end_driving_for_session : ℕ → Instant → Store → Result Store
unfolding find_trip_for_session close_trip
end_driving_for_session session_id at store =
    end_found_trip store at (find_trip_for_session session_id store.trips)
