-- ===== src/Shifts/Commands/Moving.antt =====
-- What a change of position does: the steps of `changePosition` and what they leave.
use aytrackerv.Prelude.{ℕ, ◌≡◌, ◌≢◌, refl, ◌∙◌, false, Option, none, some, ◌∷◌, arith}
use aytrackerv.Domain.Errors.{ok, bind_ran, then_ran}
use aytrackerv.Domain.Time.{Instant, seconds_between}
use aytrackerv.Shifts.PositionSession.{
  PositionSessionState, PositionChangeSource, PositionChangePlan, Closing, plan_position_change,
}
use aytrackerv.Shifts.Breaks.{ShiftRow, find_open_for_worker, require_open_shift}
use aytrackerv.Shifts.Store.{
  Store, SessionRow, find_open_session, open_session, close_session, end_driving_for_session,
}
use aytrackerv.Shifts.Commands.{new_session, assert_eligible}
use aytrackerv.Shifts.Commands.Moves.{
  is_on_break, assert_not_on_break, leave, enter, ChangePositionInput, change_position,
}
use aytrackerv.Shifts.Commands.View.{position_of}
use aytrackerv.Shifts.Commands.Sessions.{Closes, left_rows, end_driving-keeps}

-- The plan leaves the open session, which is at another position, and opens the target.
pub plan_Closes :
    (current : Option PositionSessionState) (target : ℕ) (at : Instant)
    (source : PositionChangeSource) (plan : PositionChangePlan)
    → plan_position_change current target at source ≡ ok plan
    → Closes plan.closing current
      × (position_of current ≢ some target)
      × (plan.opening ≡ record { position_id = target; started_at = at; source = source })
unfolding plan_position_change
plan_Closes none target at source plan h = (ground arith, (λ e. cc), ground arith)
plan_Closes (some s) target at source plan h =
    let planned : PositionChangePlan = record {
      closing = some (record {
        session_id = s.id;
        ended_at = at;
        duration_seconds = seconds_between s.started_at at;
      });
      opening = record { position_id = target; started_at = at; source = source };
    } in
    let e : planned ≡ plan = ground arith in rw (← e) ((s, refl, refl), (λ q. ground arith), refl)

-- Leaving a session closes it, and touches no shift and no break.
pub leave-left_rows :
    (closing : Option Closing) (at : Instant) (store after : Store)
    → leave closing at store ≡ ok after
    → (after.tables ≡ store.tables) × (after.sessions ≡ left_rows closing store.sessions)
unfolding close_session
leave-left_rows none at store after h = (ground arith, ground arith)
leave-left_rows (some c) at store after h =
    let (ended, e, k) = bind_ran (end_driving_for_session c.session_id at store) _ h in
    ground (arith, end_driving-keeps c.session_id at store ended e)

pub enter-row :
    (row : SessionRow) (store after : Store)
    → enter row store ≡ ok after
    → (after.tables ≡ store.tables) × (after.sessions ≡ row ∷ store.sessions)
unfolding enter open_session
enter-row row store after h = ground arith

abbrev pub moved_session : ℕ → ℕ → ChangePositionInput → SessionRow
moved_session fresh shift_id input = new_session fresh shift_id input.worker_id (record {
  position_id = input.target_position_id;
  started_at = input.at;
  source = input.source;
})

-- What a change of position that succeeded found and wrote.
pub change_position-ok :
    (fresh : ℕ) (input : ChangePositionInput) (store after : Store)
    → change_position fresh input store ≡ ok after
    → (s : ShiftRow) × (closing : Option Closing) × (find_open_for_worker input.worker_id
          store.shifts
        ≡ some s)
      × (is_on_break s.status ≡ false)
      × Closes closing (find_open_session s.id store.sessions)
      × (position_of (find_open_session s.id store.sessions) ≢ some input.target_position_id)
      × (after.tables ≡ store.tables)
      × (after.sessions ≡ moved_session fresh s.id input ∷ left_rows closing store.sessions)
unfolding change_position require_open_shift assert_not_on_break
change_position-ok fresh input store after h =
    let (_, h1) = then_ran (assert_eligible input.decision) _ h in
    let (s, found, h2) = bind_ran (require_open_shift input.worker_id store.shifts) _ h1 in
    let (awake, h3) = then_ran (assert_not_on_break s.status) _ h2 in
    let (plan, planned, h4) =
      bind_ran
        (plan_position_change (find_open_session s.id store.sessions) input.target_position_id
          input.at input.source)
        _ h3 in
    let (left, went, h5) = bind_ran (leave plan.closing input.at store) _ h4 in
    let (closes, other, opening) =
      plan_Closes (find_open_session s.id store.sessions) input.target_position_id input.at
        input.source plan planned in
    let (tables, sessions) = leave-left_rows plan.closing input.at store left went in
    let (tables', sessions') =
      enter-row (new_session fresh s.id input.worker_id plan.opening) left after h5 in
    (s, plan.closing, ground arith, ground arith, closes, other, tables' ∙ tables, ground arith)
