-- ===== src/Shifts/Commands/View.antt =====
-- What a worker is doing, as the store shows it, and the steps that a worker can take.
use aytrackerv.Prelude.{
  ℕ, ◌≡◌, ◌≢◌, Bool, true, false, Option, none, some, List, ◌==◌, if◌then◌else◌,
}
use aytrackerv.Prelude.OpenRows.{IsTable}
use aytrackerv.Shifts.Shift.{is_open}
use aytrackerv.Shifts.PositionSession.{PositionSessionState}
use aytrackerv.Shifts.Breaks.{ShiftRow, find_open_for_worker}
use aytrackerv.Shifts.Store.{Store, SessionRow, is_open_session, find_open_session}
use aytrackerv.Shifts.Commands.Moves.{is_on_break}

-- Off, or at work: resting or not, and at which position.
pub data WorkerView : Type 0 where
  off : WorkerView
  working : Bool → Option ℕ → WorkerView

abbrev pub position_of : Option PositionSessionState → Option ℕ
position_of none = none
position_of (some s) = some s.position_id

abbrev pub view_of : List SessionRow → Option ShiftRow → WorkerView
view_of sessions none = off
view_of sessions (some shift) =
    working (is_on_break shift.status) (position_of (find_open_session shift.id sessions))

unfoldable pub view : ℕ → Store → WorkerView
view worker_id store = view_of store.sessions (find_open_for_worker worker_id store.shifts)

-- The working day: on shift and off, rest and back, and a move to another position.
pub data Step : WorkerView → WorkerView → Type 0 where
  clock_in : (position : Option ℕ) → Step off (working false position)
  rest : {position : Option ℕ} → Step (working false position) (working true position)
  resume : {position : Option ℕ} → Step (working true position) (working false position)
  move :
      {position : Option ℕ} (target : ℕ)
      → position ≢ some target
      → Step (working false position) (working false (some target))
  clock_out : {resting : Bool} {position : Option ℕ} → Step (working resting position) off

-- What the primary keys and the partial unique indexes keep: of each worker at most one shift is
-- open, and of each shift at most one position session.
pub record IsStore (store : Store) : Type 0 where
  pub shifts_table :
      IsTable (λ (s : ShiftRow). s.id) (λ s. s.worker_id) (λ s. is_open s.status) store.shifts
  pub sessions_table :
      IsTable
        (λ (r : SessionRow). r.session.id)
        (λ r. r.session.shift_id)
        is_open_session
        store.sessions

-- What is seen after a step of a worker: that worker as described, and the others as before.
abbrev pub Seen : ℕ → WorkerView → Store → Store → Type 0
Seen worker_id seen store after =
    IsStore after × ((v : ℕ) → view v after ≡ (if v == worker_id then seen else view v store))
