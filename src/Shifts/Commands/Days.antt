-- ===== src/Shifts/Commands/Days.antt =====
-- The commands of the workers of an organization, in the order in which their transactions commit.
use aytrackerv.Prelude.{
  ℕ, ◌≡◌, ◌≢◌, refl, ap, ◌∙◌, Bool, true, false, Option, none, some, List, [], ◌∷◌, any, arith,
  ◌==◌, if◌then◌else◌, inl, inr, Bool-cases,
}
use aytrackerv.Domain.Errors.{Result, ok, bind_ran}
use aytrackerv.Domain.Time.{Instant}
use aytrackerv.Shifts.Shift.{BreakType}
use aytrackerv.Shifts.Breaks.{start_break, end_break}
use aytrackerv.Shifts.Breaks.Invariant.{
  IsConsistent, start_break-IsConsistent, end_break-IsConsistent,
}
use aytrackerv.Shifts.Store.{Store}
use aytrackerv.Shifts.Commands.{ShiftPolicy, StartShiftInput, start_shift, end_shift, on_tables}
use aytrackerv.Shifts.Commands.Moves.{
  ChangePositionInput, change_position, HandoffIds, BeginDrivingInput, begin_driving,
}
use aytrackerv.Shifts.Commands.View.{
  WorkerView, working, view, Step, clock_in, rest, resume, move, clock_out, IsStore, Seen,
}
use aytrackerv.Shifts.Commands.Sessions.{has_id}
use aytrackerv.Shifts.Commands.BreakSteps.{start_break-Seen, end_break-Seen}
use aytrackerv.Shifts.Commands.ShiftSteps.{end_shift-Seen}
use aytrackerv.Shifts.Commands.StartSteps.{
  initial_of, IsNewShift, start_shift-Seen, start_shift-IsConsistent,
}
use aytrackerv.Shifts.Commands.DriveSteps.{change_position-Seen, begin_driving-Seen}

-- A command, with the identifiers of the rows that it creates.
pub data Command : Type 0 where
  start : (fresh_shift fresh_session : ℕ) → StartShiftInput → ShiftPolicy → Command
  finish : (worker_id : ℕ) → Instant → Command
  pause : (fresh worker_id : ℕ) → BreakType → Instant → Command
  unpause : (worker_id : ℕ) → Instant → Command
  change : (fresh : ℕ) → ChangePositionInput → Command
  handoff : HandoffIds → BeginDrivingInput → Command

unfoldable pub perform : Command → Store → Result Store
perform (start fresh_shift fresh_session input policy) =
    start_shift fresh_shift fresh_session input policy
perform (finish worker_id at) = end_shift worker_id at
perform (pause fresh worker_id type at) = on_tables (start_break fresh worker_id type at)
perform (unpause worker_id at) = on_tables (end_break worker_id at)
perform (change fresh input) = change_position fresh input
perform (handoff fresh input) = begin_driving fresh input

abbrev pub worker_of : Command → ℕ
worker_of (start fresh_shift fresh_session input policy) = input.worker_id
worker_of (finish worker_id at) = worker_id
worker_of (pause fresh worker_id type at) = worker_id
worker_of (unpause worker_id at) = worker_id
worker_of (change fresh input) = input.worker_id
worker_of (handoff fresh input) = input.worker_id

-- The database gives a new row an identifier that no row has.
abbrev pub IsNew : Command → Store → Type 0
IsNew (start fresh_shift fresh_session input policy) store =
    IsNewShift fresh_shift fresh_session store
IsNew (finish worker_id at) store = Unit
IsNew (pause fresh worker_id type at) store = any (λ b. b.id == fresh) store.breaks ≡ false
IsNew (unpause worker_id at) store = Unit
IsNew (change fresh input) store = has_id fresh store.sessions ≡ false
IsNew (handoff fresh input) store = has_id fresh.session store.sessions ≡ false

-- The indexes hold, and a shift is on a break exactly if it has an open break.
pub record IsSound (store : Store) : Type 0 where
  pub indexed : IsStore store
  pub agrees : IsConsistent store.tables

abbrev is_at : ℕ → Option ℕ → Bool
is_at target none = false
is_at target (some position) = position == target

abbrev pub moved_to : ℕ → WorkerView → Option WorkerView
moved_to target WorkerView.off = none
moved_to target (working true position) = none
moved_to target (working false position) =
    if is_at target position then none else some (working false (some target))

-- What a command makes of what its worker does: nothing where it is not to be given.
abbrev pub act : Command → WorkerView → Option WorkerView
act (start fresh_shift fresh_session input policy) WorkerView.off =
    some (working false (initial_of input.initial_position))
act (start fresh_shift fresh_session input policy) (working resting position) = none
act (finish worker_id at) WorkerView.off = none
act (finish worker_id at) (working resting position) = some WorkerView.off
act (pause fresh worker_id type at) (working false position) = some (working true position)
act (pause fresh worker_id type at) (working true position) = none
act (pause fresh worker_id type at) WorkerView.off = none
act (unpause worker_id at) (working true position) = some (working false position)
act (unpause worker_id at) (working false position) = none
act (unpause worker_id at) WorkerView.off = none
act (change fresh input) v = moved_to input.target_position_id v
act (handoff fresh input) v = moved_to input.position_id v

moved_to-other :
    (target : ℕ) (position : Option ℕ)
    → position ≢ some target
    → moved_to target (working false position) ≡ some (working false (some target))
moved_to-other target none other = refl
moved_to-other target (some position) other = elim (Bool-cases (position == target)) [
  | inl same ↦ let e : position ≡ target = ground arith in absurd (other (ap (λ p. some p) e))
  | inr apart ↦ rw apart refl
]

perform-Seen :
    (c : Command) (store after : Store)
    → IsSound store
    → IsNew c store
    → perform c store ≡ ok after
    → (seen : WorkerView) × Step (view (worker_of c) store) seen
      × Seen (worker_of c) seen store after
      × IsConsistent after.tables
      × (act c (view (worker_of c) store) ≡ some seen)
unfolding perform
perform-Seen (start fresh_shift fresh_session input policy) store after s n h =
    let (before, seen) =
      start_shift-Seen fresh_shift fresh_session input policy store after s.indexed n h in
    (
      working false (initial_of input.initial_position),
      rw before (clock_in (initial_of input.initial_position)),
      seen,
      start_shift-IsConsistent fresh_shift fresh_session input policy store after s.agrees n h,
      rw before refl,
    )
perform-Seen (finish worker_id at) store after s n h =
    let (resting, position, before, seen, c) =
      end_shift-Seen worker_id at store after s.indexed s.agrees h in
    (WorkerView.off, rw before clock_out, seen, c, rw before refl)
perform-Seen (pause fresh worker_id type at) store after s n h =
    let (position, before, seen) =
      start_break-Seen fresh worker_id type at store after s.indexed h in
    let (tables, ran, wrote) = bind_ran (start_break fresh worker_id type at store.tables) _ h in
    let e : tables ≡ after.tables = ground arith in
    (
      working true position,
      rw before rest,
      seen,
      rw (← e)
          (start_break-IsConsistent fresh worker_id type at store.tables tables s.agrees n ran),
      rw before refl,
    )
perform-Seen (unpause worker_id at) store after s n h =
    let (position, before, seen) = end_break-Seen worker_id at store after s.indexed h in
    let (tables, ran, wrote) = bind_ran (end_break worker_id at store.tables) _ h in
    let e : tables ≡ after.tables = ground arith in
    (
      working false position,
      rw before resume,
      seen,
      rw (← e) (end_break-IsConsistent worker_id at store.tables tables s.agrees ran),
      rw before refl,
    )
perform-Seen (change fresh input) store after s n h =
    let (position, before, other, seen, tables) =
      change_position-Seen fresh input store after s.indexed n h in
    (
      working false (some input.target_position_id),
      rw before (move input.target_position_id other),
      seen,
      rw tables s.agrees,
      rw before (moved_to-other input.target_position_id position other),
    )
perform-Seen (handoff fresh input) store after s n h =
    let (position, before, other, seen, tables) =
      begin_driving-Seen fresh input store after s.indexed n h in
    (
      working false (some input.position_id),
      rw before (move input.position_id other),
      seen,
      rw tables s.agrees,
      rw before (moved_to-other input.position_id position other),
    )

module _ (c : Command) (store after : Store) (s : IsSound store) (n : IsNew c store)
    (h : perform c store ≡ ok after) where
  -- Whatever command succeeds, the indexes go on to hold, and a shift is on a break exactly if it
  -- has an open break: at most one shift of a worker, one position session and one break of a
  -- shift are open.
  pub perform-IsSound : IsSound after
  perform-IsSound =
      let (seen, step, (indexed, views), c, acted) = perform-Seen c store after s n h in
      record { indexed = indexed; agrees = c }

  -- A command that succeeds takes its worker one step: it starts a shift of a worker who is off,
  -- rests one who works, resumes the work of one who rests, moves one who works and does not rest
  -- to a position other than the present one, or ends the shift of one who works.
  pub perform-Step : Step (view (worker_of c) store) (view (worker_of c) after)
  perform-Step =
      let (seen, step, (indexed, views), _, acted) = perform-Seen c store after s n h in
      let e : view (worker_of c) after ≡ seen = ground (arith, views (worker_of c)) in rw e step

  -- What its worker then does is what the command makes of what the worker did.
  perform-act : act c (view (worker_of c) store) ≡ some (view (worker_of c) after)
  perform-act =
      let (seen, step, (indexed, views), _, acted) = perform-Seen c store after s n h in
      let e : view (worker_of c) after ≡ seen = ground (arith, views (worker_of c)) in rw e acted

  -- A command of one worker leaves what every other worker does as it was.
  pub perform-others : (v : ℕ) → (v == worker_of c) ≡ false → view v after ≡ view v store
  perform-others v d =
      let (seen, step, (indexed, views), _, acted) = perform-Seen c store after s n h in
      ground (arith, views v)

-- Commands that succeeded one after another, of whatever workers.
pub data Day : Store → Store → Type 0 where
  done : {store : Store} → Day store store
  next :
      {store after last : Store} (c : Command)
      → IsNew c store
      → perform c store ≡ ok after
      → Day after last
      → Day store last

-- The commands that one worker gave, in their order.
abbrev pub commands_of : ℕ → {store last : Store} → Day store last → List Command
commands_of v done = []
commands_of v (next c n h day) =
    let rest = commands_of v day in if v == worker_of c then c ∷ rest else rest

-- What commands make of what a worker does, one after another.
abbrev pub act_all : List Command → WorkerView → Option WorkerView
act_all [] v = some v
act_all (c ∷ commands) v = elim (act c v) [ none ↦ none | some w ↦ act_all commands w ]

-- Whatever commands the workers give, the tables stay sound.
pub Day-IsSound : {store last : Store} → Day store last → IsSound store → IsSound last
Day-IsSound done s = s
Day-IsSound (next c n h day) s = Day-IsSound day (perform-IsSound c _ _ s n h)

act_all-some :
    (c : Command) (commands : List Command) (v w : WorkerView)
    → act c v ≡ some w
    → act_all (c ∷ commands) v ≡ act_all commands w
act_all-some c commands v w e = rw (act_all, e) refl

-- Whatever commands all workers give, what each worker does after them is what that worker's own
-- commands, in their order, make of what the worker did before: a start takes a worker who is off
-- to work at its initial position, a break is begun by one who works and ended by one who rests, a
-- change or a handoff moves one who works and does not rest to a position other than the present
-- one, and the end of a shift takes one who works off.
pub Day-Steps :
    {store last : Store} (v : ℕ) (day : Day store last)
    → IsSound store
    → act_all (commands_of v day) (view v store) ≡ some (view v last)
Day-Steps v done s = refl
Day-Steps v (next {store} {after} c n h day) s =
    let rest = Day-Steps v day (perform-IsSound c store after s n h) in
    elim (Bool-cases (v == worker_of c)) [
      | inl own ↦
          let e : v ≡ worker_of c = ground arith in
          let acted : act c (view v store) ≡ some (view v after) =
            rw e (perform-act c store after s n h) in
          rw own (act_all-some c (commands_of v day) (view v store) (view v after) acted ∙ rest)
      | inr other ↦ rw other (rw (← perform-others c store after s n h v other) rest)
    ]
