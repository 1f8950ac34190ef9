-- ===== src/Shifts/Examples.antt =====
-- Runs of the shift rules, and their theorems at concrete inputs.
use mathlib.Core.List.Perm
use aytrackerv.Prelude.{
  ℕ, ltb, if◌then◌else◌, ◌+◌, ◌-◌, ◌≤◌, ◌≡◌, refl, ◌↔◌, true, false, none, some, List, [], ◌∷◌,
  arith, All, length, sum_by,
}
use aytrackerv.Prelude.Members.{SameMembers}
use aytrackerv.Prelude.Sort.{sort}
use aytrackerv.Domain.Errors.{ok, is_ok}
use aytrackerv.Domain.Time.{round_seconds, merged_interval_seconds}
use aytrackerv.Shifts.Shift.{
  BreakInterval, paid, meal, ShiftDuration, ShiftStatus, scheduled, active, on_break, completed,
  compute_shift_duration, close_break, assert_transition, auto_close_at, should_auto_close,
}
use aytrackerv.Shifts.Shift.Duration.{
  expected_duration, compute_shift_duration-coverage, compute_shift_duration_bounds,
  compute_shift_duration-SameMembers,
}
use aytrackerv.Shifts.Shift.Transitions.{follow, follow_over}
use aytrackerv.Shifts.PositionSession.{
  PositionSessionState, PositionChangePlan, Correction, manual, plan_position_change,
  summarize_by_position, session_seconds, validate_correction,
}
use aytrackerv.Shifts.PositionSession.Summary.{
  IsTotalOf, IsDescending, rows_at, count_at, sum_seconds, sum_count, summarize_by_position_totals,
}
use aytrackerv.Shifts.PositionSession.Corrections.{IsAcceptable, validate_correction_iff}

-- Two breaks that overlap for a second, of which one is still open at the end.
abbrev lunch : BreakInterval
lunch = record { type = meal; started_at = 5_000; ended_at = some 9_000 }

abbrev smoke : BreakInterval
smoke = record { type = paid; started_at = 8_000; ended_at = none }

abbrev breaks : List BreakInterval
breaks = lunch ∷ smoke ∷ []

duration_of_breaks :
    compute_shift_duration 1_000 11_000 breaks
    ≡ ok (record {
      elapsed_seconds = 10;
      break_seconds = 6;
      unpaid_break_seconds = 4;
      worked_seconds = 6;
    })
unfolding compute_shift_duration round_seconds merged_interval_seconds sort close_break
duration_of_breaks = refl

compute_shift_duration-coverage_example :
    compute_shift_duration 1_000 11_000 breaks ≡ ok (expected_duration 1_000 11_000 breaks)
compute_shift_duration-coverage_example =
    compute_shift_duration-coverage 1_000 11_000 breaks (omega arith)

compute_shift_duration_bounds_example :
    (d : ShiftDuration) × (compute_shift_duration 1_000 11_000 breaks ≡ ok d)
    × (d.elapsed_seconds ≡ round_seconds (11_000 - 1_000))
    × (d.unpaid_break_seconds ≤ d.break_seconds)
    × (d.break_seconds ≤ d.elapsed_seconds)
    × (d.worked_seconds + d.unpaid_break_seconds ≡ d.elapsed_seconds)
compute_shift_duration_bounds_example =
    compute_shift_duration_bounds 1_000 11_000 breaks (omega arith)

swapped-SameMembers : SameMembers breaks (smoke ∷ lunch ∷ [])
swapped-SameMembers a = Perm.mem_iff (Perm.swap smoke lunch [])

compute_shift_duration-SameMembers_example :
    compute_shift_duration 1_000 11_000 breaks
    ≡ compute_shift_duration 1_000 11_000 (smoke ∷ lunch ∷ [])
compute_shift_duration-SameMembers_example =
    compute_shift_duration-SameMembers 1_000 11_000 breaks (smoke ∷ lunch ∷ []) swapped-SameMembers

follow_over_example : is_ok (follow completed (active ∷ completed ∷ [])) ≡ false
follow_over_example = follow_over completed active (completed ∷ []) refl

abbrev day : List ShiftStatus
day = active ∷ on_break ∷ active ∷ completed ∷ []

day_follows : follow scheduled day ≡ ok completed
unfolding follow assert_transition
day_follows = refl

closed_after_its_limit : should_auto_close 1_000 61_001 1 ≡ true
unfolding should_auto_close
closed_after_its_limit = refl

closed_at_its_limit : auto_close_at 1_000 1 ≡ 61_000
unfolding auto_close_at
closed_at_its_limit = refl

abbrev at_press : PositionSessionState
at_press = record {
  id = 1;
  shift_id = 1;
  worker_id = 1;
  position_id = 10;
  started_at = 0;
  ended_at = some 4_000;
}

abbrev at_saw : PositionSessionState
at_saw = record {
  id = 2;
  shift_id = 1;
  worker_id = 1;
  position_id = 20;
  started_at = 4_000;
  ended_at = none;
}

abbrev sessions : List PositionSessionState
sessions = at_press ∷ at_saw ∷ []

summary_of_sessions :
    summarize_by_position sessions 10_000
    ≡ record { position_id = 20; seconds = 6; session_count = 1 }
      ∷ record { position_id = 10; seconds = 4; session_count = 1 }
      ∷ []
unfolding summarize_by_position session_seconds sort
summary_of_sessions = refl

abbrev back_to_press : PositionChangePlan
back_to_press = record {
  closing = some (record { session_id = 2; ended_at = 9_000; duration_seconds = 5 });
  opening = record { position_id = 10; started_at = 9_000; source = manual };
}

back_to_press_planned : plan_position_change (some at_saw) 10 9_000 manual ≡ ok back_to_press
unfolding plan_position_change
back_to_press_planned = refl

summarize_by_position_totals_example :
    let rows = summarize_by_position sessions 10_000 in
    ((p : ℕ) → rows_at p rows ≡ (if ltb 0 (count_at p sessions) then 1 else 0))
    × All (IsTotalOf 10_000 sessions) rows
    × IsDescending rows
    × (sum_seconds rows ≡ sum_by (session_seconds 10_000) sessions)
    × (sum_count rows ≡ length sessions)
summarize_by_position_totals_example = summarize_by_position_totals sessions 10_000

-- The first session is moved to end a second earlier.
abbrev correction : Correction
correction = record {
  new_started_at = 0;
  new_ended_at = some 3_000;
  sibling_sessions = at_saw ∷ [];
  shift_start = 0;
  shift_end = some 20_000;
  reason_length = 12;
}

validate_correction_iff_example :
    (is_ok (validate_correction correction) ≡ true) ↔ IsAcceptable correction
validate_correction_iff_example = validate_correction_iff correction

-- A correction without an end is accepted on a shift that has ended.
open_correction_accepted :
    is_ok (
      validate_correction (record correction {
        new_started_at = 5_000;
        new_ended_at = none;
        sibling_sessions = at_press ∷ [];
      }))
    ≡ true
unfolding validate_correction
open_correction_accepted = refl
