-- ===== src/Shifts/AutoCloseExamples.antt =====
-- Shifts that run too long, and the theorems on the job at them.
use aytrackerv.Prelude.{◌≡◌, ◌<◌, refl, true, false, none, some, [], ◌∷◌, arith, length}
use aytrackerv.Prelude.Sort.{sort}
use aytrackerv.Domain.Errors.{ok, err}
use aytrackerv.Domain.Time.{round_seconds, merged_interval_seconds}
use aytrackerv.Shifts.Shift.{
  active, on_break, meal, is_open, compute_shift_duration, should_auto_close, auto_close_at,
}
use aytrackerv.Shifts.PositionSession.{plan_session_close}
use aytrackerv.Shifts.Breaks.{ShiftRow, BreakRow, find_open}
use aytrackerv.Shifts.Store.{Store, refused_by, find_open_session, close_session, list_breaks}
use aytrackerv.Shifts.Commands.{ShiftPolicy, end_breaks, finish_shift}
use aytrackerv.Shifts.Commands.Days.{IsSound}
use aytrackerv.Shifts.Commands.AutoClose.{list_overrunning, auto_close_overrunning_shifts}
use aytrackerv.Shifts.Commands.AutoCloseSteps.{IsFine}
use aytrackerv.Shifts.Commands.Overrunning.{
  AreOff, auto_close_overrunning_shifts-IsFine, auto_close_overrunning_shifts-all,
  auto_close_overrunning_shifts-stuck,
}

abbrev forgotten : ShiftRow
forgotten = record {
  id = 1;
  worker_id = 7;
  status = active;
  actual_start = some 0;
  actual_end = none;
  worked_seconds = none;
  break_seconds = none;
  is_auto_closed = false;
}

abbrev resting : ShiftRow
resting = record forgotten { status = on_break }

-- A break that began after the longest shift was over.
abbrev late_break : BreakRow
late_break = record {
  id = 30;
  shift_id = 1;
  type = meal;
  started_at = 90_000;
  ended_at = none;
  duration_seconds = none;
}

abbrev at_work : Store
at_work = record {
  tables = record {
    shifts = forgotten ∷ record forgotten { id = 2; worker_id = 8 } ∷ [];
    breaks = [];
  };
  sessions = [];
  trips = [];
  assignments = [];
  points = [];
}

abbrev at_rest : Store
at_rest = record at_work { tables = record { shifts = resting ∷ []; breaks = late_break ∷ [] } }

-- The longest shift takes a minute.
abbrev policy : ShiftPolicy
policy = record { max_shift_duration_minutes = 1; allow_worker_self_shift_start = true }

at_work-IsSound : IsSound at_work
unfolding is_open
at_work-IsSound = record {
  indexed = record { shifts_table = ground arith; sessions_table = tt };
  agrees = ground arith;
}

both_closed : (auto_close_overrunning_shifts policy 200_000 at_work).closed ≡ ok 2
unfolding auto_close_overrunning_shifts is_open should_auto_close auto_close_at find_open
    find_open_session plan_session_close close_session compute_shift_duration round_seconds
    merged_interval_seconds sort list_breaks end_breaks finish_shift
both_closed = refl

auto_close_overrunning_shifts-IsFine_example :
    IsFine at_work (auto_close_overrunning_shifts policy 200_000 at_work)
auto_close_overrunning_shifts-IsFine_example =
    auto_close_overrunning_shifts-IsFine policy 200_000 at_work at_work-IsSound

auto_close_overrunning_shifts-all_example :
    (2 ≡ length (list_overrunning 1 200_000 at_work.shifts))
    × AreOff
        (list_overrunning 1 200_000 at_work.shifts)
        (auto_close_overrunning_shifts policy 200_000 at_work).store
auto_close_overrunning_shifts-all_example =
    auto_close_overrunning_shifts-all policy 200_000 at_work 2 at_work-IsSound both_closed

resting_listed : list_overrunning 1 200_000 at_rest.shifts ≡ resting ∷ []
unfolding list_overrunning is_open
resting_listed = refl

late_break_found : find_open 1 at_rest.breaks ≡ some late_break
unfolding find_open
late_break_found = refl

ends_before : auto_close_at 0 1 < 90_000
unfolding auto_close_at
ends_before = omega arith

auto_close_overrunning_shifts-stuck_example :
    auto_close_overrunning_shifts policy 200_000 at_rest
    ≡ record { store = at_rest; closed = err (refused_by "shift_breaks_end_after_start") }
auto_close_overrunning_shifts-stuck_example =
    auto_close_overrunning_shifts-stuck policy 200_000 at_rest resting [] 0 late_break
      resting_listed refl late_break_found ends_before
