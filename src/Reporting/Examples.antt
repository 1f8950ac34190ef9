-- ===== src/Reporting/Examples.antt =====
-- The attendance of two workers.
use aytrackerv.Prelude.{ℕ, ◌≡◌, ◌/◌, true, false, none, some, List, [], ◌∷◌, leb, sum_by}
use aytrackerv.Domain.Time.{Instant}
use aytrackerv.Reporting.Attendance.{ShiftFact, aggregate_attendance, total_attendance}
use aytrackerv.Reporting.Attendance.Conservation.{total_attendance-aggregate_attendance}

-- Days of Universal Time.
abbrev utc_date : Instant → ℕ
utc_date at = at / 86_400_000

abbrev shifts : List ShiftFact
shifts =
    record {
      worker_id = 7;
      actual_start = 1_000;
      worked_seconds = some 60;
      break_seconds = none;
      is_auto_closed = true;
    }
    ∷ record {
      worker_id = 8;
      actual_start = 90_000_000;
      worked_seconds = some 30;
      break_seconds = some 5;
      is_auto_closed = false;
    }
    ∷ record {
      worker_id = 7;
      actual_start = 2_000;
      worked_seconds = none;
      break_seconds = some 1;
      is_auto_closed = false;
    }
    ∷ []

total_attendance-aggregate_attendance_example :
    ((total_attendance (aggregate_attendance utc_date leb leb shifts)).total_worked_seconds ≡ 90)
    × ((total_attendance (aggregate_attendance utc_date leb leb shifts)).total_break_seconds ≡ 6)
    × ((total_attendance (aggregate_attendance utc_date leb leb shifts)).auto_closed_count ≡ 1)
    × (sum_by (λ r. r.shift_count) (aggregate_attendance utc_date leb leb shifts) ≡ 3)
total_attendance-aggregate_attendance_example =
    total_attendance-aggregate_attendance utc_date leb leb shifts
