-- ===== src/Shifts/Commands/StartSteps.antt =====
-- The start of a shift as a step of the worker.
use aytrackerv.Prelude.{
  ℕ, ◌≡◌, inl, inr, refl, false, not, ◌&&◌, Option, none, some, List, [], ◌∷◌, any, is_some, arith,
  ◌==◌, if◌then◌else◌, Option-cases,
}
use aytrackerv.Prelude.OpenRows
use aytrackerv.Domain.Errors.{
  ok, bind_ran, then_ran, throw_if, forbidden_error, conflict_error, ◌>>◌,
}
use aytrackerv.Domain.Time.{Instant}
use aytrackerv.Shifts.Shift.{is_open}
use aytrackerv.Shifts.PositionSession.{manual}
use aytrackerv.Shifts.Breaks.{ShiftRow, BreakRow, find_open_for_worker}
use aytrackerv.Shifts.Breaks.Invariant.{has_open, IsConsistent}
use aytrackerv.Shifts.Store.{Store, SessionRow, find_open_session, open_session}
use aytrackerv.Shifts.Commands.{
  new_shift, new_session, InitialPosition, open_initial, assert_initial, StartShiftInput,
  start_shift, ShiftPolicy,
}
use aytrackerv.Shifts.Commands.View.{working, off, view, view_of, position_of, IsStore, Seen}
use aytrackerv.Shifts.Commands.Sessions.{AreSessions, has_id}
use aytrackerv.Shifts.Commands.MoveSteps.{AreShifts, find_open_session-cons, cons-AreSessions}

-- The session that a shift starts with, before the others.
abbrev started_rows :
    Option InitialPosition → ℕ → ℕ → ℕ → Instant → List SessionRow → List SessionRow
started_rows none fresh shift_id w at rows = rows
started_rows (some p) fresh shift_id w at rows =
    new_session fresh shift_id w
      (record { position_id = p.position_id; started_at = at; source = manual })
    ∷ rows

abbrev pub initial_of : Option InitialPosition → Option ℕ
initial_of none = none
initial_of (some p) = some p.position_id

open_initial-ok :
    (initial : Option InitialPosition) (fresh shift_id w : ℕ) (at : Instant)
    (rows after : List SessionRow)
    → open_initial initial fresh shift_id w at rows ≡ ok after
    → after ≡ started_rows initial fresh shift_id w at rows
unfolding open_session
open_initial-ok none fresh shift_id w at rows after h = ground arith
open_initial-ok (some p) fresh shift_id w at rows after h = ground arith

-- What a shift that started found and wrote.
start_shift-ok :
    (fresh_shift fresh_session : ℕ) (input : StartShiftInput) (policy : ShiftPolicy)
    (store after : Store)
    → start_shift fresh_shift fresh_session input policy store ≡ ok after
    → (find_open_for_worker input.worker_id store.shifts ≡ none)
      × (after.shifts ≡ new_shift fresh_shift input.worker_id input.at ∷ store.shifts)
      × (after.breaks ≡ store.breaks)
      × (after.sessions
          ≡ started_rows input.initial_position fresh_session fresh_shift input.worker_id input.at
              store.sessions)
unfolding start_shift
start_shift-ok fresh_shift fresh_session input policy store after h =
    let (front, h3) =
      then_ran
        (throw_if (not policy.allow_worker_self_shift_start && not input.started_by_supervisor)
            (forbidden_error "shift.self_start_disabled")
          >> assert_initial input.initial_position
          >> throw_if (is_some (find_open_for_worker input.worker_id store.shifts))
              (conflict_error "shift.already_active"))
        _ h in
    let free : is_some (find_open_for_worker input.worker_id store.shifts) ≡ false = ground arith in
    let (sessions, opened, h4) =
      bind_ran
        (open_initial input.initial_position fresh_session fresh_shift input.worker_id input.at
          store.sessions)
        _ h3 in
    (
      ground arith,
      ground arith,
      ground arith,
      ground (
        arith,
        open_initial-ok input.initial_position fresh_session fresh_shift input.worker_id input.at
            store.sessions sessions,
      ),
    )

-- No row has the shift, so none of its sessions is open.
no_session :
    (i : ℕ) (rows : List SessionRow)
    → any (λ r. r.session.shift_id == i) rows ≡ false
    → find_open_session i rows ≡ none
unfolding find_open_session
no_session i [] h = refl
no_session i (r ∷ rows) h = ground (arith, no_session i rows)

started-AreSessions :
    (initial : Option InitialPosition) (fresh i w : ℕ) (at : Instant) (rows : List SessionRow)
    → AreSessions rows
    → has_id fresh rows ≡ false
    → any (λ r. r.session.shift_id == i) rows ≡ false
    → AreSessions (started_rows initial fresh i w at rows)
      × (position_of (find_open_session i (started_rows initial fresh i w at rows))
          ≡ initial_of initial)
started-AreSessions none fresh i w at rows t f n = (t, rw (no_session i rows n))
started-AreSessions (some p) fresh i w at rows t f n =
    let row =
      new_session fresh i w
        (record { position_id = p.position_id; started_at = at; source = manual }) in
    (
      cons-AreSessions row rows t f (no_session i rows n),
      ground (arith, find_open_session-cons row i rows refl),
    )

started-others :
    (initial : Option InitialPosition) (fresh i w j : ℕ) (at : Instant) (rows : List SessionRow)
    → (j == i) ≡ false
    → find_open_session j (started_rows initial fresh i w at rows) ≡ find_open_session j rows
started-others none fresh i w j at rows d = refl
started-others (some p) fresh i w j at rows d = ground (
  arith,
  find_open_session-cons
      (new_session fresh i w
        (record { position_id = p.position_id; started_at = at; source = manual }))
      j rows refl,
)

find_open_for_worker-cons :
    (i w v : ℕ) (at : Instant) (shifts : List ShiftRow)
    → find_open_for_worker v (new_shift i w at ∷ shifts)
      ≡ (if v == w then some (new_shift i w at) else find_open_for_worker v shifts)
unfolding find_open_for_worker is_open
find_open_for_worker-cons i w v at shifts = ground arith

cons-AreShifts :
    (i w : ℕ) (at : Instant) (shifts : List ShiftRow)
    → AreShifts shifts
    → any (λ s. s.id == i) shifts ≡ false
    → find_open_for_worker w shifts ≡ none
    → AreShifts (new_shift i w at ∷ shifts)
unfolding find_open_for_worker
cons-AreShifts i w at shifts t f n = (
  f,
  inr (
      ground (
        arith,
        OpenRows.any-find? (λ (r : ShiftRow). r.id) (λ r. r.worker_id) (λ r. is_open r.status) w
            shifts,
      )),
  t,
)

old_shift :
    (v i : ℕ) (t : ShiftRow) (shifts : List ShiftRow)
    → any (λ s. s.id == i) shifts ≡ false
    → find_open_for_worker v shifts ≡ some t
    → (t.id == i) ≡ false
unfolding find_open_for_worker
old_shift v i t shifts f h =
    OpenRows.find?-id (λ (r : ShiftRow). r.id) (λ r. r.worker_id) (λ r. is_open r.status) v i t
      shifts h f

-- No row has the identifier of the new shift, and none has that of its session.
pub record IsNewShift (fresh_shift fresh_session : ℕ) (store : Store) : Type 0 where
  pub no_shift : any (λ s. s.id == fresh_shift) store.shifts ≡ false
  pub no_break : any (λ b. b.shift_id == fresh_shift) store.breaks ≡ false
  pub no_session_of : any (λ r. r.session.shift_id == fresh_shift) store.sessions ≡ false
  pub no_session : has_id fresh_session store.sessions ≡ false

view_started :
    (fresh_shift fresh_session v : ℕ) (input : StartShiftInput) (store : Store)
    → IsStore store
    → IsNewShift fresh_shift fresh_session store
    → view_of
        (started_rows input.initial_position fresh_session fresh_shift input.worker_id input.at
          store.sessions)
        (if v == input.worker_id
          then some (new_shift fresh_shift input.worker_id input.at)
          else find_open_for_worker v store.shifts)
      ≡ (if v == input.worker_id
          then working false (initial_of input.initial_position)
          else view_of store.sessions (find_open_for_worker v store.shifts))
view_started fresh_shift fresh_session v input store i n =
    elim (Option-cases (find_open_for_worker v store.shifts)) [
      | inl missing ↦ ground (
        arith,
        started-AreSessions input.initial_position fresh_session fresh_shift input.worker_id
            input.at store.sessions i.sessions_table,
      )
      | inr (t, held) ↦ ground (
        arith,
        started-AreSessions input.initial_position fresh_session fresh_shift input.worker_id
            input.at store.sessions i.sessions_table,
        old_shift v fresh_shift t store.shifts,
        started-others input.initial_position fresh_session fresh_shift input.worker_id t.id
            input.at store.sessions,
      )
    ]

pub start_shift-Seen :
    (fresh_shift fresh_session : ℕ) (input : StartShiftInput) (policy : ShiftPolicy)
    (store after : Store)
    → IsStore store
    → IsNewShift fresh_shift fresh_session store
    → start_shift fresh_shift fresh_session input policy store ≡ ok after
    → (view input.worker_id store ≡ off)
      × Seen input.worker_id (working false (initial_of input.initial_position)) store after
unfolding view
start_shift-Seen fresh_shift fresh_session input policy store after i n h =
    let (free, shifts, breaks, sessions) =
      start_shift-ok fresh_shift fresh_session input policy store after h in
    (
      rw free,
      (
        record {
          shifts_table = rw shifts (
              cons-AreShifts fresh_shift input.worker_id input.at store.shifts i.shifts_table
                n.no_shift free);
          sessions_table =
              rw sessions
                (started-AreSessions input.initial_position fresh_session fresh_shift
                  input.worker_id input.at store.sessions i.sessions_table n.no_session
                  n.no_session_of).0;
        },
        λ v.
            rw
              (
                shifts,
                sessions,
                find_open_for_worker-cons fresh_shift input.worker_id v input.at store.shifts,
              )
              (view_started fresh_shift fresh_session v input store i n),
      ),
    )

no_open_break :
    (i : ℕ) (rows : List BreakRow)
    → any (λ b. b.shift_id == i) rows ≡ false
    → has_open i rows ≡ false
no_open_break i [] h = refl
no_open_break i (b ∷ rows) h = ground (arith, no_open_break i rows)

-- A new shift has no break.
pub start_shift-IsConsistent :
    (fresh_shift fresh_session : ℕ) (input : StartShiftInput) (policy : ShiftPolicy)
    (store after : Store)
    → IsConsistent store.tables
    → IsNewShift fresh_shift fresh_session store
    → start_shift fresh_shift fresh_session input policy store ≡ ok after
    → IsConsistent after.tables
start_shift-IsConsistent fresh_shift fresh_session input policy store after c n h =
    let (free, shifts, breaks, sessions) =
      start_shift-ok fresh_shift fresh_session input policy store after h in
    let tables : after.tables ≡ record {
      shifts = new_shift fresh_shift input.worker_id input.at ∷ store.shifts;
      breaks = store.breaks;
    } =
      ground arith in
    rw tables (c.0, (no_open_break fresh_shift store.breaks n.no_break, c.1))
