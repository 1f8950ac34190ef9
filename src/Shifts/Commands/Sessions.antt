-- ===== src/Shifts/Commands/Sessions.antt =====
-- What the commands do to the position sessions.
use aytrackerv.Prelude.{
  ℕ, ◌≡◌, inl, inr, Bool, false, not, ◌&&◌, Option, none, some, List, map, arith, ◌==◌,
  if◌then◌else◌, any, find?, Option-cases, Bool-cases,
}
use aytrackerv.Prelude.OpenRows
use aytrackerv.Prelude.OpenRows.{IsTable}
use aytrackerv.Domain.Errors.{ok}
use aytrackerv.Shifts.Driving.{is_trip_over, assert_can_end_driving}
use aytrackerv.Shifts.PositionSession.{PositionSessionState, Closing}
use aytrackerv.Shifts.Store.{
  Store, SessionRow, is_open_session, is_of_shift, close_row, find_open_session,
  find_trip_for_session, close_trip, end_driving_for_session,
}

abbrev pub session_id : SessionRow → ℕ
session_id r = r.session.id

abbrev pub session_shift : SessionRow → ℕ
session_shift r = r.session.shift_id

abbrev pub AreSessions : List SessionRow → Type 0
AreSessions = IsTable session_id session_shift is_open_session

abbrev pub has_id : ℕ → List SessionRow → Bool
has_id i rows = any (λ r. r.session.id == i) rows

-- The end of the driving touches neither shifts, breaks nor sessions.
pub end_driving-keeps :
    (session at : ℕ) (store after : Store)
    → end_driving_for_session session at store ≡ ok after
    → (after.tables ≡ store.tables) × (after.sessions ≡ store.sessions)
unfolding end_driving_for_session close_trip assert_can_end_driving
end_driving-keeps session at store after h =
    elim (Option-cases (find_trip_for_session session store.trips)) [
      | inl missing ↦ ground arith
      | inr (trip, found) ↦ elim (Bool-cases (is_trip_over trip.status)) [
        | inl over ↦ ground arith
        | inr runs ↦ ground arith
      ]
    ]

-- The rows once the session that a plan closes has been closed.
abbrev pub left_rows : Option Closing → List SessionRow → List SessionRow
left_rows none rows = rows
left_rows (some closing) rows = map (close_row closing) rows

-- What is closed is the open session, if there is one.
abbrev pub Closes : Option Closing → Option PositionSessionState → Type 0
Closes none current = current ≡ none
Closes (some c) current = (s : PositionSessionState) × (current ≡ some s) × (s.id ≡ c.session_id)

found_row :
    (k : ℕ) (s : PositionSessionState) (rows : List SessionRow)
    → find_open_session k rows ≡ some s
    → (r : SessionRow) × (find? (is_of_shift k) rows ≡ some r) × (r.session ≡ s)
unfolding find_open_session
found_row k s rows h = elim (Option-cases (find? (is_of_shift k) rows)) [
  | inl missing ↦ ground arith
  | inr (r, found) ↦ (r, found, ground arith)
]

closes :
    (c : Closing) (r : SessionRow)
    → is_open_session (close_row c r) ≡ (is_open_session r && not (r.session.id == c.session_id))
closes c r = ground arith

others : (c : Closing) (r : SessionRow) → (r.session.id == c.session_id) ≡ false → close_row c r ≡ r
others c r h = ground arith

-- Once a shift's open session has been left, the shift has none, and each other shift its own.
pub find_open_session-left_rows :
    (k j : ℕ) (closing : Option Closing) (rows : List SessionRow)
    → AreSessions rows
    → Closes closing (find_open_session k rows)
    → AreSessions (left_rows closing rows)
      × (find_open_session j (left_rows closing rows)
          ≡ (if j == k then none else find_open_session j rows))
unfolding find_open_session
find_open_session-left_rows k j none rows t c = (t, ground arith)
find_open_session-left_rows k j (some c) rows t (s, found, same) =
    let (r, row, e) = found_row k s rows found in
    (
      OpenRows.map-IsTable session_id session_shift is_open_session c.session_id (close_row c)
          (λ r. ground arith) (λ r. ground arith) (closes c) (others c) rows t,
      ground (
        arith,
        OpenRows.find?-map session_id session_shift is_open_session c.session_id (close_row c)
            (λ r. ground arith) (λ r. ground arith) (closes c) (others c) k j r rows t row,
      ),
    )
