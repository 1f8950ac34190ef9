-- ===== src/Shifts/Commands/DriveSteps.antt =====
-- The handoff of a vehicle, and a change of position, as steps of the worker.
use aytrackerv.Prelude.{ℕ, ◌≡◌, ◌≢◌, refl, ◌∙◌, ap, false, Option, none, some, ◌∷◌, arith}
use aytrackerv.Domain.Errors.{ok, bind_ran, then_ran}
use aytrackerv.Shifts.PositionSession.{Closing, manual, plan_position_change}
use aytrackerv.Shifts.Driving.{assert_can_drive, load_assignment_context, plan_assignment}
use aytrackerv.Shifts.Breaks.{ShiftRow, find_open_for_worker, require_open_shift}
use aytrackerv.Shifts.Store.{Store, SessionRow, find_open_session, close_session}
use aytrackerv.Shifts.Commands.{assert_eligible, new_session}
use aytrackerv.Shifts.Commands.Moves.{
  is_on_break, assert_not_on_break, leave_session, enter, start_trip, HandoffIds, BeginDrivingInput,
  begin_driving, ChangePositionInput, change_position,
}
use aytrackerv.Shifts.Commands.View.{working, view, position_of, IsStore, Seen}
use aytrackerv.Shifts.Commands.Sessions.{Closes, left_rows, has_id}
use aytrackerv.Shifts.Commands.Moving.{plan_Closes, enter-row, moved_session, change_position-ok}
use aytrackerv.Shifts.Commands.MoveSteps.{moved_sessions, view_moved}

-- A worker who is not resting and takes a position that is not the present one.
module _ (w : ℕ) (s : ShiftRow) (row : SessionRow) (closing : Option Closing) (store after : Store)
    (i : IsStore store) (found : find_open_for_worker w store.shifts ≡ some s)
    (awake : is_on_break s.status ≡ false) (own : row.session.shift_id ≡ s.id)
    (o : row.session.ended_at ≡ none) (f : has_id row.session.id store.sessions ≡ false)
    (c : Closes closing (find_open_session s.id store.sessions))
    (tables : after.tables ≡ store.tables)
    (sessions : after.sessions ≡ row ∷ left_rows closing store.sessions) where
  moved_Seen : Seen w (working false (some row.session.position_id)) store after
  moved_Seen = (
    record {
      shifts_table = rw tables i.shifts_table;
      sessions_table =
          rw sessions
            (moved_sessions row closing store.sessions i.sessions_table (ground arith) f
              (rw own c)).0;
    },
    λ v.
        view_moved w v s row closing store after i found own (ground arith) f c tables sessions
        ∙ rw awake,
  )

pub change_position-Seen :
    (fresh : ℕ) (input : ChangePositionInput) (store after : Store)
    → IsStore store
    → has_id fresh store.sessions ≡ false
    → change_position fresh input store ≡ ok after
    → (position : Option ℕ) × (view input.worker_id store ≡ working false position)
      × (position ≢ some input.target_position_id)
      × Seen input.worker_id (working false (some input.target_position_id)) store after
      × (after.tables ≡ store.tables)
unfolding view
change_position-Seen fresh input store after i f h =
    let (s, closing, found, awake, closes, other, tables, sessions) =
      change_position-ok fresh input store after h in
    (
      position_of (find_open_session s.id store.sessions),
      rw found (rw awake),
      other,
      moved_Seen input.worker_id s (moved_session fresh s.id input) closing store after i found
          awake refl refl f closes tables sessions,
      tables,
    )

leave_session-left_rows :
    (closing : Option Closing) (store after : Store)
    → leave_session closing store ≡ ok after
    → (after.tables ≡ store.tables) × (after.sessions ≡ left_rows closing store.sessions)
unfolding close_session
leave_session-left_rows none store after h = (ground arith, ground arith)
leave_session-left_rows (some c) store after h = ground arith

abbrev taken_session : ℕ → ℕ → BeginDrivingInput → SessionRow
taken_session fresh shift_id input =
    new_session fresh shift_id input.worker_id
      (record { position_id = input.position_id; started_at = input.at; source = manual })

start_trip-keeps :
    (fresh driver vehicle session at : ℕ) (store after : Store)
    → start_trip fresh driver vehicle session at store ≡ ok after
    → (after.tables ≡ store.tables) × (after.sessions ≡ store.sessions)
unfolding start_trip
start_trip-keeps fresh driver vehicle session at store after h = ground arith

begin_driving-ok :
    (fresh : HandoffIds) (input : BeginDrivingInput) (store after : Store)
    → begin_driving fresh input store ≡ ok after
    → (s : ShiftRow) × (closing : Option Closing) × (find_open_for_worker input.worker_id
          store.shifts
        ≡ some s)
      × (is_on_break s.status ≡ false)
      × Closes closing (find_open_session s.id store.sessions)
      × (position_of (find_open_session s.id store.sessions) ≢ some input.position_id)
      × (after.tables ≡ store.tables)
      × (after.sessions ≡ taken_session fresh.session s.id input ∷ left_rows closing store.sessions)
unfolding begin_driving require_open_shift assert_not_on_break
begin_driving-ok fresh input store after h =
    let (_, h1) = then_ran (assert_eligible input.decision) _ h in
    let (s, found, h2) = bind_ran (require_open_shift input.worker_id store.shifts) _ h1 in
    let (awake, h3) = then_ran (assert_not_on_break s.status) _ h2 in
    let (profile, may, h4) = bind_ran (assert_can_drive input.profile input.at) _ h3 in
    let (assignment, assigned, h5) =
      bind_ran
        (plan_assignment (load_assignment_context store.assignments input.vehicle profile.driver_id)
          profile.driver_id)
        _ h4 in
    let current = find_open_session s.id store.sessions in
    let (plan, planned, h6) =
      bind_ran (plan_position_change current input.position_id input.at manual) _ h5 in
    let (left, went, h7) = bind_ran (leave_session plan.closing store) _ h6 in
    let (entered, came, h8) = bind_ran (enter (taken_session fresh.session s.id input) left) _ h7 in
    let (closes, other, opening) =
      plan_Closes current input.position_id input.at manual plan planned in
    let (tables, sessions) = leave_session-left_rows plan.closing store left went in
    let (tables', sessions') =
      enter-row (taken_session fresh.session s.id input) left entered came in
    let (tables'', sessions'') =
      start_trip-keeps fresh.trip profile.driver_id input.vehicle.vehicle_id fresh.session input.at
        _ after h8 in
    (
      s,
      plan.closing,
      ground arith,
      ground arith,
      closes,
      other,
      tables'' ∙ tables' ∙ tables,
      sessions'' ∙ sessions' ∙ ap (λ rows. taken_session fresh.session s.id input ∷ rows) sessions,
    )

pub begin_driving-Seen :
    (fresh : HandoffIds) (input : BeginDrivingInput) (store after : Store)
    → IsStore store
    → has_id fresh.session store.sessions ≡ false
    → begin_driving fresh input store ≡ ok after
    → (position : Option ℕ) × (view input.worker_id store ≡ working false position)
      × (position ≢ some input.position_id)
      × Seen input.worker_id (working false (some input.position_id)) store after
      × (after.tables ≡ store.tables)
unfolding view
begin_driving-Seen fresh input store after i f h =
    let (s, closing, found, awake, closes, other, tables, sessions) =
      begin_driving-ok fresh input store after h in
    (
      position_of (find_open_session s.id store.sessions),
      rw found (rw awake),
      other,
      moved_Seen input.worker_id s (taken_session fresh.session s.id input) closing store after i
          found awake refl refl f closes tables sessions,
      tables,
    )
