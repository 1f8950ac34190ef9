-- ===== src/Shifts/Commands.antt =====
-- modules/shifts/src/application/shift-commands.ts and driving-commands.ts: the commands on shifts,
-- positions and driving. A command is one transaction, which leaves the store as it was when it
-- throws. The eligibility that a command asks for before its transaction is an argument, and so are
-- the identifiers that the database gives to new rows. Events are not modelled.
pub mod Moves
pub mod AutoClose
pub mod View
pub mod MoveSteps
pub mod BreakSteps
pub mod ShiftSteps
pub mod StartSteps
pub mod DriveSteps
pub mod Days
pub mod AutoCloseSteps
pub mod Overrunning
pub mod Moving
pub mod Sessions
use aytrackerv.Prelude.{
  ℕ, ◌-◌, ◌*◌, ◌+◌, Bool, true, false, not, ◌&&◌, Option, none, some, List, [], ◌∷◌, map, ltb, any,
  filter, find?, is_some, ◌==◌, if◌then◌else◌,
}
use aytrackerv.Domain.Errors.{
  Result, ok, err, ◌>>◌, ◌>>=◌, throw_if, conflict_error, forbidden_error, not_found_error,
  precondition_failed_error,
}
use aytrackerv.Domain.Time.{Instant, round_seconds, seconds_between}
use aytrackerv.Drivers.Trip.{TripStatus, is_trip_open}
use aytrackerv.Workforce.Eligibility.{EligibilityDecision, allowed, refused, eligibility_error_code}
use aytrackerv.Shifts.Shift.{
  ShiftStatus, active, on_break, completed, assert_transition, is_open, BreakType, ShiftDuration,
  compute_shift_duration, should_auto_close, auto_close_at,
}
use aytrackerv.Shifts.PositionSession.{
  PositionSessionState, PositionChangeSource, PositionChangePlan, Closing, Opening, manual,
  plan_position_change, plan_session_close, Correction, validate_correction,
}
use aytrackerv.Shifts.Driving.{
  DriverProfile, SelectableVehicle, assert_can_drive, load_assignment_context, plan_assignment,
  apply_assignment,
}
use aytrackerv.Shifts.Breaks.{
  ShiftRow, BreakRow, BreakTables, find_open_for_worker, require_open_shift, find_open, close,
  start_break, end_break,
}
use aytrackerv.Shifts.Store.{
  Store, SessionRow, TripRow, refused_by, find_open_session, open_session, close_session,
  list_breaks, end_driving_for_session,
}

pub record ShiftPolicy : Type 0 where
  pub max_shift_duration_minutes : ℕ
  pub allow_worker_self_shift_start : Bool

-- `assertEligible`, of the decision that the query returned.
unfoldable pub assert_eligible : EligibilityDecision → Result (Unit {0})
assert_eligible (allowed requires_approval _) =
    throw_if requires_approval (forbidden_error "position.supervisor_approval_required")
assert_eligible (refused reason) = err (forbidden_error (eligibility_error_code reason))

abbrev pub new_session : ℕ → ℕ → ℕ → Opening → SessionRow
new_session fresh shift_id worker_id opening = record {
  session = record {
    id = fresh;
    shift_id = shift_id;
    worker_id = worker_id;
    position_id = opening.position_id;
    started_at = opening.started_at;
    ended_at = none;
  };
  source = opening.source;
  duration_seconds = none;
  corrected_at = none;
}

abbrev pub new_shift : ℕ → ℕ → Instant → ShiftRow
new_shift fresh worker_id at = record {
  id = fresh;
  worker_id = worker_id;
  status = active;
  actual_start = some at;
  actual_end = none;
  worked_seconds = none;
  break_seconds = none;
  is_auto_closed = false;
}

-- The first position of a shift: its identifier and the decision on it.
pub record InitialPosition : Type 0 where
  pub position_id : ℕ
  pub decision : EligibilityDecision

abbrev pub assert_initial : Option InitialPosition → Result (Unit {0})
assert_initial none = ok tt
assert_initial (some p) = assert_eligible p.decision

abbrev pub open_initial :
    Option InitialPosition → ℕ → ℕ → ℕ → Instant → List SessionRow → Result (List SessionRow)
open_initial none fresh shift_id worker_id at rows = ok rows
open_initial (some p) fresh shift_id worker_id at rows =
    open_session
      (new_session fresh shift_id worker_id
        (record { position_id = p.position_id; started_at = at; source = manual }))
      rows

pub record StartShiftInput : Type 0 where
  pub worker_id : ℕ
  pub initial_position : Option InitialPosition
  pub at : Instant
  pub started_by_supervisor : Bool

-- `startShift`, with the identifiers of the new shift and of the new session.
unfoldable pub start_shift : ℕ → ℕ → StartShiftInput → ShiftPolicy → Store → Result Store
unfolding assert_eligible
start_shift fresh_shift fresh_session input policy store =
    throw_if (not policy.allow_worker_self_shift_start && not input.started_by_supervisor)
      (forbidden_error "shift.self_start_disabled")
    >> assert_initial input.initial_position
    >> throw_if (is_some (find_open_for_worker input.worker_id store.shifts))
        (conflict_error "shift.already_active")
    >> (open_initial input.initial_position fresh_session fresh_shift input.worker_id input.at
          store.sessions
        >>= λ sessions. ok (record store {
          tables = record store.tables {
            shifts = new_shift fresh_shift input.worker_id input.at ∷ store.shifts;
          };
          sessions = sessions;
        }))

-- `shifts.close`
abbrev pub close_shift_row : ℕ → Instant → ShiftDuration → Bool → ShiftRow → ShiftRow
close_shift_row shift_id actual_end duration is_auto_closed row =
    if row.id == shift_id
    then record row {
      status = completed;
      actual_end = some actual_end;
      worked_seconds = some duration.worked_seconds;
      break_seconds = some duration.break_seconds;
      is_auto_closed = is_auto_closed;
    }
    else row

unfoldable pub close_shift : ℕ → Instant → ShiftDuration → Bool → List ShiftRow → List ShiftRow
close_shift shift_id actual_end duration is_auto_closed =
    map (close_shift_row shift_id actual_end duration is_auto_closed)

-- The open break, if there is one, closed; the database refuses an end before the start.
abbrev pub close_open_break : Option BreakRow → Instant → List BreakRow → Result (List BreakRow)
close_open_break none at rows = ok rows
close_open_break (some b) at rows =
    throw_if (ltb at b.started_at) (refused_by "shift_breaks_end_after_start")
    >> ok (close b.id at (round_seconds (at - b.started_at)) rows)

abbrev pub close_open_session :
    Option PositionSessionState → Instant → List SessionRow → Result (List SessionRow)
close_open_session none at rows = ok rows
close_open_session (some s) at rows =
    plan_session_close s at >>= λ closing. close_session closing rows

abbrev pub end_driving_of : Option PositionSessionState → Instant → Store → Result Store
end_driving_of none at store = ok store
end_driving_of (some s) at store = end_driving_for_session s.id at store

-- The break of a shift that ends is closed with it.
unfoldable pub end_breaks : ℕ → Instant → Store → Result Store
end_breaks shift_id at store =
    close_open_break (find_open shift_id store.breaks) at store.breaks >>= λ breaks.
    ok (record store { tables = record store.tables { breaks = breaks } })

-- What the end of a shift writes last: its session, and the durations.
unfoldable pub finish_shift : ℕ → Instant → Instant → Bool → Store → Result Store
unfolding close_shift
finish_shift shift_id actual_start at is_auto_closed store =
    close_open_session (find_open_session shift_id store.sessions) at store.sessions >>= λ sessions.
    compute_shift_duration actual_start at (list_breaks shift_id store.breaks) >>= λ duration.
    ok (record store {
      tables = record store.tables {
        shifts = close_shift shift_id at duration is_auto_closed store.shifts;
      };
      sessions = sessions;
    })

abbrev pub assert_started : Option Instant → Instant → Result Instant
assert_started none at = err (precondition_failed_error "shift.not_started")
assert_started (some start) at =
    throw_if (ltb at start) (precondition_failed_error "shift.end_before_start") >> ok start

-- `endShift`
unfoldable pub end_shift : ℕ → Instant → Store → Result Store
unfolding end_breaks finish_shift
end_shift worker_id at store = require_open_shift worker_id store.shifts >>= λ shift.
    assert_transition shift.status completed
    >> (assert_started shift.actual_start at >>= λ actual_start.
        end_breaks shift.id at store >>= λ rested.
        end_driving_of (find_open_session shift.id rested.sessions) at rested >>= λ ended.
        finish_shift shift.id actual_start at false ended)

-- The commands on breaks, which touch two of the tables.
abbrev pub on_tables : (BreakTables → Result BreakTables) → Store → Result Store
on_tables command store = command store.tables >>= λ tables. ok (record store { tables = tables })
