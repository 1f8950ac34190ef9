-- ===== src/Shifts/Commands/ShiftSteps.antt =====
-- The start and the end of a shift as steps of the worker.
use aytrackerv.Prelude.{
  ℕ, ◌≡◌, inl, inr, refl, ◌∙◌, ap, Bool, false, not, ◌&&◌, ◌-◌, Option, none, some, List, [], ◌∷◌,
  arith, ◌==◌, if◌then◌else◌, Option-cases,
}
use aytrackerv.Prelude.OpenRows
use aytrackerv.Domain.Errors.{ok, bind_ran, then_ran}
use aytrackerv.Domain.Time.{Instant, round_seconds}
use aytrackerv.Shifts.Shift.{
  ShiftDuration, is_open, assert_transition, completed, compute_shift_duration,
}
use aytrackerv.Shifts.PositionSession.{PositionSessionState, Closing, plan_session_close}
use aytrackerv.Shifts.Breaks.Invariant.{
  AreBreaks, has_open, find_open-none, has_open-close, close-AreBreaks, Agree, IsConsistent,
}
use aytrackerv.Shifts.Breaks.{
  ShiftRow, BreakRow, BreakTables, find_open_for_worker, require_open_shift, find_open, close,
}
use aytrackerv.Shifts.Store.{Store, SessionRow, find_open_session, close_session}
use aytrackerv.Shifts.Commands.{
  close_shift_row, close_shift, close_open_session, finish_shift, end_breaks, end_driving_of,
  assert_started, end_shift, close_open_break, list_breaks,
}
use aytrackerv.Shifts.Commands.Moves.{is_on_break}
use aytrackerv.Shifts.Commands.View.{working, off, view, view_of, position_of, IsStore, Seen}
use aytrackerv.Shifts.Commands.Sessions.{
  Closes, left_rows, find_open_session-left_rows, end_driving-keeps,
}
use aytrackerv.Shifts.Commands.MoveSteps.{AreShifts, other_shift}

module _ (w : ℕ) (s : ShiftRow) (at : Instant) (duration : ShiftDuration) (auto : Bool)
    (shifts : List ShiftRow) (t : AreShifts shifts)
    (found : find_open_for_worker w shifts ≡ some s) where
  closes :
      (r : ShiftRow)
      → is_open (close_shift_row s.id at duration auto r).status
        ≡ (is_open r.status && not (r.id == s.id))
  unfolding is_open
  closes r = ground arith

  close_shift-AreShifts : AreShifts (close_shift s.id at duration auto shifts)
  unfolding close_shift
  close_shift-AreShifts =
      OpenRows.map-IsTable (λ (r : ShiftRow). r.id) (λ r. r.worker_id) (λ r. is_open r.status) s.id
        (close_shift_row s.id at duration auto) (λ r. ground arith) (λ r. ground arith) closes
        (λ r h. ground arith) shifts t

  find_open_for_worker-close_shift :
      (v : ℕ)
      → find_open_for_worker v (close_shift s.id at duration auto shifts)
        ≡ (if v == w then none else find_open_for_worker v shifts)
  unfolding find_open_for_worker close_shift
  find_open_for_worker-close_shift v =
      OpenRows.find?-map (λ (r : ShiftRow). r.id) (λ r. r.worker_id) (λ r. is_open r.status) s.id
        (close_shift_row s.id at duration auto) (λ r. ground arith) (λ r. ground arith) closes
        (λ r h. ground arith) w v s shifts t found refl

-- What the end of a shift leaves of the position sessions.
close_open_session-left_rows :
    (current : Option PositionSessionState) (at : Instant) (rows after : List SessionRow)
    → close_open_session current at rows ≡ ok after
    → (closing : Option Closing) × Closes closing current × (after ≡ left_rows closing rows)
unfolding plan_session_close close_session
close_open_session-left_rows none at rows after h = (none, refl, ground arith)
close_open_session-left_rows (some s) at rows after h =
    let (closing, planned, h1) = bind_ran (plan_session_close s at) _ h in
    (some closing, (s, refl, ground arith), ground arith)

pub finish_shift-ok :
    (i : ℕ) (start at : Instant) (auto : Bool) (store after : Store)
    → finish_shift i start at auto store ≡ ok after
    → (closing : Option Closing) × (duration : ShiftDuration) × Closes closing
        (find_open_session i store.sessions)
      × (compute_shift_duration start at (list_breaks i store.breaks) ≡ ok duration)
      × (after.shifts ≡ close_shift i at duration auto store.shifts)
      × (after.breaks ≡ store.breaks)
      × (after.sessions ≡ left_rows closing store.sessions)
unfolding finish_shift
finish_shift-ok i start at auto store after h =
    let current = find_open_session i store.sessions in
    let (left, went, h1) = bind_ran (close_open_session current at store.sessions) _ h in
    let (duration, lasted, h2) =
      bind_ran (compute_shift_duration start at (list_breaks i store.breaks)) _ h1 in
    let (closing, closes, rows) =
      close_open_session-left_rows current at store.sessions left went in
    (closing, duration, closes, lasted, ground arith, ground arith, ground arith)

off_views :
    (w v : ℕ) (s : ShiftRow) (closing : Option Closing) (store : Store)
    → IsStore store
    → find_open_for_worker w store.shifts ≡ some s
    → Closes closing (find_open_session s.id store.sessions)
    → view_of
        (left_rows closing store.sessions)
        (if v == w then none else find_open_for_worker v store.shifts)
      ≡ (if v == w then off else view_of store.sessions (find_open_for_worker v store.shifts))
off_views w v s closing store i found c =
    elim (Option-cases (find_open_for_worker v store.shifts)) [
      | inl missing ↦ ground arith
      | inr (t, held) ↦ ground (
        arith,
        find_open_session-left_rows s.id t.id closing store.sessions i.sessions_table c,
        other_shift v w t s store.shifts i.shifts_table,
      )
    ]

-- The worker's shift closed, and its session.
pub off_Seen :
    (w : ℕ) (s : ShiftRow) (at : Instant) (auto : Bool) (closing : Option Closing)
    (duration : ShiftDuration) (store after : Store)
    → IsStore store
    → find_open_for_worker w store.shifts ≡ some s
    → Closes closing (find_open_session s.id store.sessions)
    → after.shifts ≡ close_shift s.id at duration auto store.shifts
    → after.sessions ≡ left_rows closing store.sessions
    → Seen w off store after × (find_open_session s.id after.sessions ≡ none)
unfolding view
off_Seen w s at auto closing duration store after i found c shifts sessions =
    let left =
      λ (j : ℕ). find_open_session-left_rows s.id j closing store.sessions i.sessions_table c in
    (
      (
        record {
          shifts_table =
              rw shifts
                (close_shift-AreShifts w s at duration auto store.shifts i.shifts_table found);
          sessions_table = rw sessions (left s.id).0;
        },
        (λ v.
            rw
              (
                shifts,
                sessions,
                find_open_for_worker-close_shift w s at duration auto store.shifts i.shifts_table
                    found v,
              )
              (off_views w v s closing store i found c)),
      ),
      rw sessions (ground (arith, left s.id)),
    )

close_open_break-ok :
    (i : ℕ) (at : Instant) (rows after : List BreakRow)
    → AreBreaks rows
    → close_open_break (find_open i rows) at rows ≡ ok after
    → AreBreaks after × ((j : ℕ) → has_open j after ≡ (if j == i then false else has_open j rows))
close_open_break-ok i at rows after a h = elim (Option-cases (find_open i rows)) [
  | inl missing ↦
      let same : rows ≡ after = ground arith in
      rw (← same) (a, λ j. ground (arith, find_open-none i rows missing))
  | inr (b, held) ↦
      let closed : close b.id at (round_seconds (at - b.started_at)) rows ≡ after = ground arith in
      rw (← closed) (
        close-AreBreaks b.id at (round_seconds (at - b.started_at)) rows a,
        λ j. has_open-close i j b at (round_seconds (at - b.started_at)) rows a held,
      )
]

-- The break of a shift that ends is closed, and no other.
pub end_breaks-ok :
    (i : ℕ) (at : Instant) (store after : Store)
    → AreBreaks store.breaks
    → end_breaks i at store ≡ ok after
    → (after.shifts ≡ store.shifts)
      × (after.sessions ≡ store.sessions)
      × AreBreaks after.breaks
      × ((j : ℕ) → has_open j after.breaks ≡ (if j == i then false else has_open j store.breaks))
unfolding end_breaks
end_breaks-ok i at store after a h =
    let (breaks, closed, h1) =
      bind_ran (close_open_break (find_open i store.breaks) at store.breaks) _ h in
    let (b, keeps) = close_open_break-ok i at store.breaks breaks a closed in
    let e : after.tables.breaks ≡ breaks = ground arith in
    (ground arith, ground arith, rw e b, λ j. rw e (keeps j))

end_driving_of-keeps :
    (session : Option PositionSessionState) (at : Instant) (store after : Store)
    → end_driving_of session at store ≡ ok after
    → (after.tables ≡ store.tables) × (after.sessions ≡ store.sessions)
end_driving_of-keeps none at store after h = (ground arith, ground arith)
end_driving_of-keeps (some s) at store after h = end_driving-keeps s.id at store after h

-- A completed shift has no open break, and each other shift what it had.
close_shift-Agree :
    (i : ℕ) (at : Instant) (duration : ShiftDuration) (auto : Bool) (old new : List BreakRow)
    (shifts : List ShiftRow)
    → ((j : ℕ) → has_open j new ≡ (if j == i then false else has_open j old))
    → Agree old shifts
    → Agree new (close_shift i at duration auto shifts)
unfolding close_shift
close_shift-Agree i at duration auto old new [] k a = tt
close_shift-Agree i at duration auto old new (r ∷ shifts) k a =
    ground (arith, k r.id, close_shift-Agree i at duration auto old new shifts k a.1)

-- A store in which one shift has been closed, with its break and its session.
abbrev pub Ended : ShiftRow → Instant → Bool → Store → Store → Type 0
Ended s at auto store after =
    (closing : Option Closing) × (duration : ShiftDuration) × Closes closing
      (find_open_session s.id store.sessions)
    × (after.shifts ≡ close_shift s.id at duration auto store.shifts)
    × (after.sessions ≡ left_rows closing store.sessions)
    × AreBreaks after.breaks
    × ((j : ℕ) → has_open j after.breaks ≡ (if j == s.id then false else has_open j store.breaks))

-- What was done before the shift is finished touches its break alone.
pub finish_shift-Ended :
    (s : ShiftRow) (start at : Instant) (auto : Bool) (store rested ended after : Store)
    → (rested.shifts ≡ store.shifts)
      × (rested.sessions ≡ store.sessions)
      × AreBreaks rested.breaks
      × ((j : ℕ)
          → has_open j rested.breaks ≡ (if j == s.id then false else has_open j store.breaks))
    → (ended.tables ≡ rested.tables) × (ended.sessions ≡ rested.sessions)
    → finish_shift s.id start at auto ended ≡ ok after
    → Ended s at auto store after
finish_shift-Ended s start at auto store rested ended after (shifts, sessions, are, keeps)
      (tables', sessions') h =
    let (closing, duration, closes, lasted, shifts', breaks', rows) =
      finish_shift-ok s.id start at auto ended after h in
    let same_rows : ended.sessions ≡ store.sessions = sessions' ∙ sessions in
    let same_breaks : after.tables.breaks ≡ rested.tables.breaks =
      breaks' ∙ ap BreakTables.breaks tables' in
    let same_shifts : ended.tables.shifts ≡ store.tables.shifts =
      ap BreakTables.shifts tables' ∙ shifts in
    (
      closing,
      duration,
      rw same_rows at closes,
      rw same_shifts at shifts',
      rw same_rows at rows,
      rw same_breaks are,
      λ j. rw same_breaks (keeps j),
    )

-- What a shift that ended found and wrote.
end_shift-ok :
    (w : ℕ) (at : Instant) (store after : Store)
    → AreBreaks store.breaks
    → end_shift w at store ≡ ok after
    → (s : ShiftRow) × (find_open_for_worker w store.shifts ≡ some s) × Ended s at false store after
unfolding end_shift require_open_shift
end_shift-ok w at store after a h =
    let (s, found, h1) = bind_ran (require_open_shift w store.shifts) _ h in
    let (_, h2) = then_ran (assert_transition s.status completed) _ h1 in
    let (start, started, h3) = bind_ran (assert_started s.actual_start at) _ h2 in
    let (rested, woke, h4) = bind_ran (end_breaks s.id at store) _ h3 in
    let current = find_open_session s.id rested.sessions in
    let (ended, stopped, h5) = bind_ran (end_driving_of current at rested) _ h4 in
    (
      s,
      ground arith,
      finish_shift-Ended s start at false store rested ended after
          (end_breaks-ok s.id at store rested a woke)
          (end_driving_of-keeps current at rested ended stopped) h5,
    )

-- The worker is off, and what was open of the shift is closed.
pub Ended-Seen :
    (w : ℕ) (s : ShiftRow) (at : Instant) (auto : Bool) (store after : Store)
    → IsStore store
    → IsConsistent store.tables
    → find_open_for_worker w store.shifts ≡ some s
    → Ended s at auto store after
    → Seen w off store after
      × IsConsistent after.tables
      × (has_open s.id after.breaks ≡ false)
      × (find_open_session s.id after.sessions ≡ none)
      × ((v : ℕ)
          → find_open_for_worker v after.shifts
            ≡ (if v == w then none else find_open_for_worker v store.shifts))
Ended-Seen w s at auto store after i c found
      (closing, duration, closes, shifts, sessions, are, keeps) =
    let (seen, left) =
      off_Seen w s at auto closing duration store after i found closes shifts sessions in
    (
      seen,
      (
        are,
        rw shifts (
            close_shift-Agree s.id at duration auto store.breaks after.breaks store.shifts keeps
              c.1),
      ),
      ground (arith, keeps s.id),
      left,
      λ v. rw shifts (
          find_open_for_worker-close_shift w s at duration auto store.shifts i.shifts_table found
            v),
    )

module _ (w : ℕ) (at : Instant) (store after : Store) (i : IsStore store)
    (c : IsConsistent store.tables) (h : end_shift w at store ≡ ok after) where
  pub end_shift-Seen :
      (resting : Bool) × (position : Option ℕ) × (view w store ≡ working resting position)
      × Seen w off store after
      × IsConsistent after.tables
  unfolding view
  end_shift-Seen =
      let (s, found, ended) = end_shift-ok w at store after c.0 h in
      let (seen, agrees, _, _, _) = Ended-Seen w s at false store after i c found ended in
      (
        is_on_break s.status,
        position_of (find_open_session s.id store.sessions),
        rw found,
        seen,
        agrees,
      )

  -- Ending a shift of sound tables ends the open shift of the worker, who has none afterwards:
  -- no break and no position session of it is open then.
  pub end_shift-closed :
      (s : ShiftRow) × (find_open_for_worker w store.shifts ≡ some s)
      × (has_open s.id after.breaks ≡ false)
      × (find_open_session s.id after.sessions ≡ none)
      × (find_open_for_worker w after.shifts ≡ none)
  end_shift-closed =
      let (s, found, ended) = end_shift-ok w at store after c.0 h in
      let (seen, agrees, no_break, no_session, shifts) =
        Ended-Seen w s at false store after i c found ended in
      (s, found, no_break, no_session, ground (arith, shifts w))
