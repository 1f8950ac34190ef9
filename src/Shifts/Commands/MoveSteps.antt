-- ===== src/Shifts/Commands/MoveSteps.antt =====
-- A change of position as a step of the worker.
use aytrackerv.Prelude.{
  ℕ, ◌≡◌, inl, inr, refl, ◌∙◌, ap, true, false, Option, none, some, List, [], ◌∷◌, arith, ◌==◌,
  if◌then◌else◌, Option-cases,
}
use aytrackerv.Prelude.OpenRows
use aytrackerv.Prelude.OpenRows.{IsTable}
use aytrackerv.Shifts.Shift.{is_open}
use aytrackerv.Shifts.PositionSession.{Closing}
use aytrackerv.Shifts.Breaks.{BreakTables, ShiftRow, find_open_for_worker}
use aytrackerv.Shifts.Store.{Store, SessionRow, find_open_session, is_open_session}
use aytrackerv.Shifts.Commands.Moves.{is_on_break}
use aytrackerv.Shifts.Commands.View.{working, view, IsStore}
use aytrackerv.Shifts.Commands.Sessions.{
  AreSessions, Closes, left_rows, has_id, find_open_session-left_rows, session_id, session_shift,
}

abbrev pub AreShifts : List ShiftRow → Type 0
AreShifts = IsTable (λ (s : ShiftRow). s.id) (λ s. s.worker_id) (λ s. is_open s.status)

-- The shifts of two workers have different identifiers.
pub other_shift :
    (v w : ℕ) (t s : ShiftRow) (shifts : List ShiftRow)
    → AreShifts shifts
    → (v == w) ≡ false
    → find_open_for_worker v shifts ≡ some t
    → find_open_for_worker w shifts ≡ some s
    → (t.id == s.id) ≡ false
unfolding find_open_for_worker
other_shift v w t s shifts =
    OpenRows.find?-distinct (λ (r : ShiftRow). r.id) (λ r. r.worker_id) (λ r. is_open r.status) v w
      t s shifts

-- A new open row is the session of its shift, and of no other.
pub find_open_session-cons :
    (row : SessionRow) (j : ℕ) (rows : List SessionRow)
    → is_open_session row ≡ true
    → find_open_session j (row ∷ rows)
      ≡ (if row.session.shift_id == j then some row.session else find_open_session j rows)
unfolding find_open_session
find_open_session-cons row j rows o = ground arith

-- The row is open and new, and its shift had no open row.
pub cons-AreSessions :
    (row : SessionRow) (rows : List SessionRow)
    → AreSessions rows
    → has_id row.session.id rows ≡ false
    → find_open_session row.session.shift_id rows ≡ none
    → AreSessions (row ∷ rows)
unfolding find_open_session
cons-AreSessions row rows t f n = (
  f,
  inr (
      ground (
        arith,
        OpenRows.any-find? session_id session_shift is_open_session row.session.shift_id rows,
      )),
  t,
)

pub has_id-left_rows :
    (i : ℕ) (closing : Option Closing) (rows : List SessionRow)
    → has_id i (left_rows closing rows) ≡ has_id i rows
has_id-left_rows i none rows = refl
has_id-left_rows i (some c) [] = refl
has_id-left_rows i (some c) (r ∷ rows) = ground (arith, has_id-left_rows i (some c) rows)

-- A session that a shift moves to: what the sessions then are, of this shift and of the others.
pub moved_sessions :
    (row : SessionRow) (closing : Option Closing) (rows : List SessionRow)
    → AreSessions rows
    → is_open_session row ≡ true
    → has_id row.session.id rows ≡ false
    → Closes closing (find_open_session row.session.shift_id rows)
    → AreSessions (row ∷ left_rows closing rows)
      × ((j : ℕ)
          → find_open_session j (row ∷ left_rows closing rows)
            ≡ (if j == row.session.shift_id then some row.session else find_open_session j rows))
moved_sessions row closing rows t o f c =
    let k = row.session.shift_id in
    (
      cons-AreSessions row (left_rows closing rows)
          (find_open_session-left_rows k k closing rows t c).0
          (has_id-left_rows row.session.id closing rows ∙ f)
          (ground (arith, find_open_session-left_rows k k closing rows t c)),
      (λ j. ground (
        arith,
        find_open_session-cons row j (left_rows closing rows) o,
        find_open_session-left_rows k j closing rows t c,
      )),
    )

-- What is seen of each worker after a move: the mover at the new position, the others as before.
pub view_moved :
    (w v : ℕ) (s : ShiftRow) (row : SessionRow) (closing : Option Closing) (store after : Store)
    → IsStore store
    → find_open_for_worker w store.shifts ≡ some s
    → row.session.shift_id ≡ s.id
    → is_open_session row ≡ true
    → has_id row.session.id store.sessions ≡ false
    → Closes closing (find_open_session s.id store.sessions)
    → after.tables ≡ store.tables
    → after.sessions ≡ row ∷ left_rows closing store.sessions
    → view v after ≡ (
        if v == w
        then working (is_on_break s.status) (some row.session.position_id)
        else view v store)
unfolding view
view_moved w v s row closing store after i found own o f c tables sessions =
    let seen = (moved_sessions row closing store.sessions i.sessions_table o f (rw own c)).1 in
    elim (Option-cases (find_open_for_worker v store.shifts)) [
      | inl missing ↦ ground (arith, ap BreakTables.shifts tables)
      | inr (t, held) ↦ ground (
        arith,
        ap BreakTables.shifts tables,
        ap (find_open_session t.id) sessions,
        seen t.id,
        other_shift v w t s store.shifts i.shifts_table,
      )
    ]
