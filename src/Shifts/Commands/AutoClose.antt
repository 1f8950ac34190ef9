-- ===== src/Shifts/Commands/AutoClose.antt =====
-- `autoCloseOverrunningShifts`: a transaction for each shift, so that one that throws ends the job
-- and leaves what was closed before it.
use aytrackerv.Prelude.{
  ℕ, ◌+◌, ◌*◌, Bool, true, false, ◌&&◌, Option, none, some, List, [], ◌∷◌, filter, take, ltb,
  if◌then◌else◌,
}
use aytrackerv.Domain.Errors.{Result, ok, err, ◌>>=◌}
use aytrackerv.Domain.Time.{Instant}
use aytrackerv.Shifts.Shift.{is_open, should_auto_close, auto_close_at}
use aytrackerv.Shifts.Breaks.{ShiftRow}
use aytrackerv.Shifts.Store.{Store}
use aytrackerv.Shifts.Commands.{ShiftPolicy, end_breaks, finish_shift}

-- `actualStart < now - maxShiftDurationMinutes * 60000`
abbrev pub started_before : ℕ → Instant → Option Instant → Bool
started_before minutes now none = false
started_before minutes now (some start) = ltb (start + minutes * 60_000) now

-- `listOverrunning`, which takes at most 500.
unfoldable pub list_overrunning : ℕ → Instant → List ShiftRow → List ShiftRow
list_overrunning minutes now shifts =
    take 500 (
      filter (λ shift. is_open shift.status && started_before minutes now shift.actual_start)
        shifts)

-- The transaction of one shift.
unfoldable pub auto_close : ℕ → Instant → Instant → Store → Result Store
auto_close shift_id actual_start end_at store =
    end_breaks shift_id end_at store >>= finish_shift shift_id actual_start end_at true

-- What the job has done to the store, and the number of shifts closed, unless it threw.
pub record AutoClosed : Type 0 where
  pub store : Store
  pub closed : Result ℕ

abbrev pub keep_going : Store → Result Store → (Store → AutoClosed) → AutoClosed
keep_going store (err e) rest = record { store = store; closed = err e }
keep_going store (ok after) rest =
    let r = rest after in record r { closed = r.closed >>= λ n. ok (n + 1) }

unfoldable pub auto_close_each : ℕ → Instant → List ShiftRow → Store → AutoClosed
unfolding auto_close
auto_close_each minutes now [] store = record { store = store; closed = ok 0 }
auto_close_each minutes now (shift ∷ shifts) store = elim shift.actual_start [
  | none ↦ auto_close_each minutes now shifts store
  | some start ↦
      if should_auto_close start now minutes
      then keep_going store (auto_close shift.id start (auto_close_at start minutes) store)
          (auto_close_each minutes now shifts)
      else auto_close_each minutes now shifts store
]

unfoldable pub auto_close_overrunning_shifts : ShiftPolicy → Instant → Store → AutoClosed
unfolding list_overrunning auto_close_each
auto_close_overrunning_shifts policy now store =
    auto_close_each policy.max_shift_duration_minutes now
      (list_overrunning policy.max_shift_duration_minutes now store.shifts) store
