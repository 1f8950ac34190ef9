-- ===== src/Shifts/Commands/Moves.antt =====
-- The moves of a worker within a shift: `changePosition`, `beginDriving`, and the supervisor's
-- `correctPositionSession`.
use aytrackerv.Prelude.{
  ℕ, Bool, true, false, not, ◌&&◌, Option, none, some, List, ◌∷◌, map, filter, find?, any, is_some,
  ◌==◌, if◌then◌else◌,
}
use aytrackerv.Domain.Errors.{
  Result, ok, err, ◌>>◌, ◌>>=◌, throw_if, not_found_error, precondition_failed_error,
}
use aytrackerv.Domain.Time.{Instant, seconds_between}
use aytrackerv.Drivers.Trip.{TripStatus, is_trip_open}
use aytrackerv.Workforce.Eligibility.{EligibilityDecision}
use aytrackerv.Shifts.Shift.{ShiftStatus, on_break}
use aytrackerv.Shifts.PositionSession.{
  PositionSessionState, PositionChangeSource, Closing, manual, plan_position_change,
  validate_correction,
}
use aytrackerv.Shifts.Driving.{
  DriverProfile, SelectableVehicle, assert_can_drive, load_assignment_context, plan_assignment,
  apply_assignment,
}
use aytrackerv.Shifts.Breaks.{ShiftRow, require_open_shift}
use aytrackerv.Shifts.Store.{
  Store, SessionRow, TripRow, refused_by, is_open_session, find_open_session, open_session,
  close_session, end_driving_for_session,
}
use aytrackerv.Shifts.Commands.{assert_eligible, new_session}

abbrev pub is_on_break : ShiftStatus → Bool
is_on_break on_break = true
is_on_break ShiftStatus.scheduled = false
is_on_break ShiftStatus.active = false
is_on_break ShiftStatus.completed = false
is_on_break ShiftStatus.cancelled = false

unfoldable pub assert_not_on_break : ShiftStatus → Result (Unit {0})
assert_not_on_break status =
    throw_if (is_on_break status) (precondition_failed_error "position.change_while_on_break")

-- `if (plan.closing)`: the driving of the session ends, and the session is closed.
abbrev pub leave : Option Closing → Instant → Store → Result Store
leave none at store = ok store
leave (some closing) at store = end_driving_for_session closing.session_id at store >>= λ ended.
    close_session closing ended.sessions >>= λ sessions. ok (record ended { sessions = sessions })

unfoldable pub enter : SessionRow → Store → Result Store
enter row store =
    open_session row store.sessions >>= λ sessions. ok (record store { sessions = sessions })

pub record ChangePositionInput : Type 0 where
  pub worker_id : ℕ
  pub target_position_id : ℕ
  pub decision : EligibilityDecision
  pub at : Instant
  pub source : PositionChangeSource

unfoldable pub change_position : ℕ → ChangePositionInput → Store → Result Store
unfolding enter
change_position fresh input store =
    assert_eligible input.decision
    >> (require_open_shift input.worker_id store.shifts >>= λ shift.
        assert_not_on_break shift.status
        >> (plan_position_change (find_open_session shift.id store.sessions)
              input.target_position_id input.at input.source
            >>= λ plan. leave plan.closing input.at store >>= λ left.
                enter (new_session fresh shift.id input.worker_id plan.opening) left))

-- `if (plan.closing)` of the handoff, which closes the session alone.
abbrev pub leave_session : Option Closing → Store → Result Store
leave_session none store = ok store
leave_session (some closing) store =
    close_session closing store.sessions >>= λ sessions. ok (record store { sessions = sessions })

abbrev pub is_same_driver : ℕ → TripRow → Bool
is_same_driver driver_id trip = (trip.driver_id == driver_id) && is_trip_open trip.status

abbrev pub is_same_vehicle : ℕ → TripRow → Bool
is_same_vehicle vehicle_id trip = (trip.vehicle_id == vehicle_id) && is_trip_open trip.status

-- `startTrip`, with the indexes driver_trips_one_open_per_driver and _per_vehicle.
unfoldable pub start_trip : ℕ → ℕ → ℕ → ℕ → Instant → Store → Result Store
start_trip fresh driver_id vehicle_id session_id at store =
    throw_if (any (is_same_driver driver_id) store.trips)
      (refused_by "driver_trips_one_open_per_driver")
    >> throw_if (any (is_same_vehicle vehicle_id) store.trips)
        (refused_by "driver_trips_one_open_per_vehicle")
    >> ok (record store {
      trips =
          record {
            id = fresh;
            driver_id = driver_id;
            vehicle_id = vehicle_id;
            position_session_id = some session_id;
            status = TripStatus.active;
            started_at = some at;
            ended_at = none;
            paused_seconds = 0;
            duration_seconds = 0;
            untracked_seconds = 0;
          }
          ∷ store.trips;
    })

-- The identifiers of the rows that a handoff creates.
pub record HandoffIds : Type 0 where
  pub session : ℕ
  pub assignment : ℕ
  pub trip : ℕ

-- What a handoff asks for, with what it loads of the driver and of the vehicle.
pub record BeginDrivingInput : Type 0 where
  pub worker_id : ℕ
  pub position_id : ℕ
  pub decision : EligibilityDecision
  pub profile : Option DriverProfile
  pub vehicle : SelectableVehicle
  pub at : Instant

-- `beginDriving` of a vehicle that exists.
unfoldable pub begin_driving : HandoffIds → BeginDrivingInput → Store → Result Store
unfolding enter start_trip
begin_driving fresh input store =
    assert_eligible input.decision
    >> (require_open_shift input.worker_id store.shifts >>= λ shift.
        assert_not_on_break shift.status
        >> (assert_can_drive input.profile input.at >>= λ profile.
            plan_assignment
              (load_assignment_context store.assignments input.vehicle profile.driver_id)
              profile.driver_id
            >>= λ assignment.
                plan_position_change (find_open_session shift.id store.sessions) input.position_id
                  input.at manual
                >>= λ plan. leave_session plan.closing store >>= λ left.
                    enter
                      (new_session fresh.session shift.id input.worker_id (record {
                        position_id = input.position_id;
                        started_at = input.at;
                        source = manual;
                      }))
                      left
                    >>= λ entered.
                        start_trip fresh.trip profile.driver_id input.vehicle.vehicle_id
                          fresh.session input.at
                          (record entered {
                            assignments =
                                apply_assignment assignment fresh.assignment profile.driver_id
                                  input.vehicle.vehicle_id entered.assignments;
                          })))

pub record CorrectionInput : Type 0 where
  pub session_id : ℕ
  pub new_started_at : Instant
  pub new_ended_at : Option Instant
  pub reason_length : ℕ
  pub now : Instant

abbrev pub found_session : Option SessionRow → Result SessionRow
found_session none = err (not_found_error "position.session_not_found")
found_session (some row) = ok row

-- `!shift || !shift.actualStart`
abbrev pub found_start : Option ShiftRow → Result (ShiftRow × Instant)
found_start none = err (not_found_error "shift.not_found")
found_start (some shift) = elim shift.actual_start [
  | none ↦ err (not_found_error "shift.not_found")
  | some start ↦ ok (shift, start)
]

abbrev pub length_of : Instant → Option Instant → Option ℕ
length_of start none = none
length_of start (some end) = some (seconds_between start end)

unfoldable pub correct_row : CorrectionInput → SessionRow → SessionRow
correct_row input row =
    if row.session.id == input.session_id
    then record row {
      session = record row.session {
        started_at = input.new_started_at;
        ended_at = input.new_ended_at;
      };
      duration_seconds = length_of input.new_started_at input.new_ended_at;
      corrected_at = some input.now;
    }
    else row

-- The sessions of a shift but one.
unfoldable pub siblings_of : PositionSessionState → List SessionRow → List PositionSessionState
siblings_of session rows =
    filter (λ s. not (s.id == session.id))
      (map (λ row. row.session) (filter (λ row. row.session.shift_id == session.shift_id) rows))

-- Another open session than the one that is corrected.
abbrev pub is_other_open : ℕ → SessionRow → Bool
is_other_open session_id row = not (row.session.id == session_id) && is_open_session row

-- `positionSessions.correct`, with the indexes position_sessions_one_open_per_shift and
-- position_sessions_one_open_per_worker, which a session that is opened again can violate.
unfoldable pub correct :
    CorrectionInput → PositionSessionState → List SessionRow → Result (List SessionRow)
unfolding correct_row
correct input session rows =
    let is_reopened = not (is_some input.new_ended_at) in
    throw_if
      (is_reopened
        && any (λ row. is_other_open session.id row && (row.session.shift_id == session.shift_id))
            rows)
      (refused_by "position_sessions_one_open_per_shift")
    >> throw_if
        (is_reopened
          && any
              (λ row. is_other_open session.id row && (row.session.worker_id == session.worker_id))
              rows)
        (refused_by "position_sessions_one_open_per_worker")
    >> ok (map (correct_row input) rows)

-- `correctPositionSession`
unfoldable pub correct_position_session : CorrectionInput → Store → Result Store
unfolding siblings_of
correct_position_session input store =
    found_session (find? (λ row. row.session.id == input.session_id) store.sessions) >>= λ row.
    found_start (find? (λ shift. shift.id == row.session.shift_id) store.shifts) >>= λ found.
    validate_correction (record {
      new_started_at = input.new_started_at;
      new_ended_at = input.new_ended_at;
      sibling_sessions = siblings_of row.session store.sessions;
      shift_start = found.1;
      shift_end = found.0.actual_end;
      reason_length = input.reason_length;
    })
    >> (correct input row.session store.sessions >>= λ sessions.
        ok (record store { sessions = sessions }))
