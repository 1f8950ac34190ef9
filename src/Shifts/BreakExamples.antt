-- ===== src/Shifts/BreakExamples.antt =====
-- Runs of the commands on breaks, and their theorems at concrete inputs.
use aytrackerv.Prelude.{◌≡◌, refl, true, false, none, some, [], ◌∷◌, arith}
use aytrackerv.Domain.Errors.{ok, is_ok}
use aytrackerv.Domain.Time.{round_seconds}
use aytrackerv.Shifts.Shift.{
  active, on_break, meal, is_open, assert_can_start_break, assert_can_end_break,
}
use aytrackerv.Shifts.Breaks.{
  ShiftRow, BreakRow, BreakTables, find_open_for_worker, require_open_shift, find_open,
  update_status, close, start_break, end_break,
}
use aytrackerv.Shifts.Breaks.Runs.{BreakRun, done, started, ended, end_break-start_break}

-- Worker 7 at work, and worker 8.
abbrev at_work : ShiftRow
at_work = record {
  id = 1;
  worker_id = 7;
  status = active;
  actual_start = some 1_000;
  actual_end = none;
  worked_seconds = none;
  break_seconds = none;
  is_auto_closed = false;
}

abbrev other : ShiftRow
other = record at_work { id = 2; worker_id = 8 }

abbrev lunch : BreakRow
lunch = record {
  id = 30;
  shift_id = 1;
  type = meal;
  started_at = 5_000;
  ended_at = none;
  duration_seconds = none;
}

abbrev morning : BreakTables
morning = record { shifts = other ∷ at_work ∷ []; breaks = [] }

abbrev noon : BreakTables
noon = record { shifts = other ∷ record at_work { status = on_break } ∷ []; breaks = lunch ∷ [] }

abbrev afternoon : BreakTables
afternoon = record {
  shifts = other ∷ at_work ∷ [];
  breaks = record lunch { ended_at = some 65_000; duration_seconds = some 60 } ∷ [];
}

lunch_starts : start_break 30 7 meal 5_000 morning ≡ ok noon
unfolding start_break require_open_shift find_open find_open_for_worker update_status is_open
    assert_can_start_break
lunch_starts = refl

lunch_ends : end_break 7 65_000 noon ≡ ok afternoon
unfolding end_break require_open_shift find_open find_open_for_worker update_status close is_open
    assert_can_end_break round_seconds
lunch_ends = refl

abbrev lunch_run : BreakRun morning afternoon
lunch_run = started 30 7 meal 5_000 refl lunch_starts (ended 7 65_000 lunch_ends done)

end_break-start_break_example : is_ok (end_break 7 65_000 noon) ≡ true
end_break-start_break_example =
    end_break-start_break 30 7 meal 5_000 65_000 morning noon lunch_starts (omega arith)
