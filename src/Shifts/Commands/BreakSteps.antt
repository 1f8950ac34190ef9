-- ===== src/Shifts/Commands/BreakSteps.antt =====
-- A change of the status of an open shift, which a break makes, as a step of the worker.
use aytrackerv.Prelude.{ℕ, ◌≡◌, refl, true, false, Option, some, List, arith, ◌==◌, if◌then◌else◌}
use aytrackerv.Prelude.OpenRows
use aytrackerv.Domain.Errors.{ok, bind_ran, then_ran}
use aytrackerv.Domain.Time.{Instant}
use aytrackerv.Shifts.Shift.{
  ShiftStatus, active, on_break, BreakType, is_open, assert_can_start_break, assert_can_end_break,
}
use aytrackerv.Shifts.Breaks.{
  ShiftRow, find_open_for_worker, require_open_shift, update_status, start_break, end_break,
}
use aytrackerv.Shifts.Store.{Store, find_open_session}
use aytrackerv.Shifts.Commands.{on_tables}
use aytrackerv.Shifts.Commands.Moves.{is_on_break}
use aytrackerv.Shifts.Commands.View.{working, view, position_of, IsStore, Seen}
use aytrackerv.Shifts.Commands.MoveSteps.{AreShifts}

abbrev with_status : ℕ → ShiftStatus → ShiftRow → ShiftRow
with_status i status shift = if shift.id == i then record shift { status = status } else shift

module _ (w : ℕ) (s : ShiftRow) (status : ShiftStatus) (shifts : List ShiftRow)
    (t : AreShifts shifts) (found : find_open_for_worker w shifts ≡ some s)
    (o : is_open status ≡ true) where
  update_status-AreShifts : AreShifts (update_status s.id status shifts)
  unfolding find_open_for_worker update_status
  update_status-AreShifts =
      OpenRows.change-IsTable (λ (r : ShiftRow). r.id) (λ r. r.worker_id) (λ r. is_open r.status)
        s.id (with_status s.id status) (λ r. ground arith) (λ r. ground arith) (λ r h. ground arith)
        w s shifts t found refl (ground arith)

  find_open_for_worker-update_status :
      (v : ℕ)
      → find_open_for_worker v (update_status s.id status shifts)
        ≡ (if v == w then some (record s { status = status }) else find_open_for_worker v shifts)
  unfolding find_open_for_worker update_status
  find_open_for_worker-update_status v = ground (
    arith,
    OpenRows.find?-change (λ (r : ShiftRow). r.id) (λ r. r.worker_id) (λ r. is_open r.status) s.id
        (with_status s.id status) (λ r. ground arith) (λ r. ground arith) (λ r h. ground arith) w v
        s shifts t found refl (ground arith),
  )

-- The sessions stay, so the worker stays at the position, at rest or not as the status says.
pub status_Seen :
    (w : ℕ) (s : ShiftRow) (status : ShiftStatus) (store after : Store)
    → IsStore store
    → find_open_for_worker w store.shifts ≡ some s
    → is_open status ≡ true
    → after.shifts ≡ update_status s.id status store.shifts
    → after.sessions ≡ store.sessions
    → Seen w
        (working (is_on_break status) (position_of (find_open_session s.id store.sessions)))
        store
        after
unfolding view
status_Seen w s status store after i found o shifts sessions = (
  record {
    shifts_table =
        rw shifts (update_status-AreShifts w s status store.shifts i.shifts_table found o);
    sessions_table = rw sessions i.sessions_table;
  },
  (λ v.
      rw
        (
          shifts,
          sessions,
          find_open_for_worker-update_status w s status store.shifts i.shifts_table found o v,
        )
        (ground arith)),
)

pub start_break-Seen :
    (fresh w : ℕ) (type : BreakType) (at : Instant) (store after : Store)
    → IsStore store
    → on_tables (start_break fresh w type at) store ≡ ok after
    → (position : Option ℕ) × (view w store ≡ working false position)
      × Seen w (working true position) store after
unfolding start_break require_open_shift assert_can_start_break view is_open
start_break-Seen fresh w type at store after i h =
    let (tables, ran, wrote) = bind_ran (start_break fresh w type at store.tables) _ h in
    let (s, found, h1) = bind_ran (require_open_shift w store.shifts) _ ran in
    let (awake, h2) = then_ran (assert_can_start_break s.status _) _ h1 in
    let own : find_open_for_worker w store.shifts ≡ some s = ground arith in
    (
      position_of (find_open_session s.id store.sessions),
      ground arith,
      status_Seen w s on_break store after i own refl (ground arith) (ground arith),
    )

pub end_break-Seen :
    (w : ℕ) (at : Instant) (store after : Store)
    → IsStore store
    → on_tables (end_break w at) store ≡ ok after
    → (position : Option ℕ) × (view w store ≡ working true position)
      × Seen w (working false position) store after
unfolding end_break require_open_shift assert_can_end_break view is_open
end_break-Seen w at store after i h =
    let (tables, ran, wrote) = bind_ran (end_break w at store.tables) _ h in
    let (s, found, h1) = bind_ran (require_open_shift w store.shifts) _ ran in
    let (asleep, h2) = then_ran (assert_can_end_break s.status) _ h1 in
    let own : find_open_for_worker w store.shifts ≡ some s = ground arith in
    (
      position_of (find_open_session s.id store.sessions),
      ground arith,
      status_Seen w s active store after i own refl (ground arith) (ground arith),
    )
