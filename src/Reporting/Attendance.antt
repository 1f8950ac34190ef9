-- ===== src/Reporting/Attendance.antt =====
-- modules/reporting/src/domain/attendance.ts. The local date of an instant and the order of texts are
-- parameters; a date is the number of its text.
pub mod Conservation
use aytrackerv.Prelude.{
  ℕ, ◌+◌, ◌*◌, ◌/◌, Bool, true, false, not, ◌&&◌, Option, none, some, List, [], ◌∷◌, map, any,
  length, sum_by, ◌==◌, if◌then◌else◌,
}
use aytrackerv.Prelude.Sort.{sort}
use aytrackerv.Domain.Time.{Instant}

pub record ShiftFact : Type 0 where
  pub worker_id : ℕ
  pub actual_start : Instant
  pub worked_seconds : Option ℕ
  pub break_seconds : Option ℕ
  pub is_auto_closed : Bool

pub record AttendanceRow : Type 0 where
  pub worker_id : ℕ
  pub date : ℕ
  pub shift_count : ℕ
  pub worked_seconds : ℕ
  pub break_seconds : ℕ
  pub auto_closed_count : ℕ

-- `seconds ?? 0`
abbrev pub or_zero : Option ℕ → ℕ
or_zero none = 0
or_zero (some seconds) = seconds

abbrev pub one_if : Bool → ℕ
one_if true = 1
one_if false = 0

abbrev pub empty_row : ℕ → ℕ → AttendanceRow
empty_row worker_id date = record {
  worker_id = worker_id;
  date = date;
  shift_count = 0;
  worked_seconds = 0;
  break_seconds = 0;
  auto_closed_count = 0;
}

abbrev pub with_shift : ShiftFact → AttendanceRow → AttendanceRow
with_shift shift row = record row {
  shift_count = row.shift_count + 1;
  worked_seconds = row.worked_seconds + or_zero shift.worked_seconds;
  break_seconds = row.break_seconds + or_zero shift.break_seconds;
  auto_closed_count = row.auto_closed_count + one_if shift.is_auto_closed;
}

-- `rows.get(key) ?? …` and `rows.set(key, …)`: a new key goes to the end.
unfoldable pub add_shift : ℕ → ShiftFact → List AttendanceRow → List AttendanceRow
add_shift date shift [] = with_shift shift (empty_row shift.worker_id date) ∷ []
add_shift date shift (row ∷ rows) =
    let rest = add_shift date shift rows in
    if (row.worker_id == shift.worker_id) && (row.date == date)
    then with_shift shift row ∷ rows
    else row ∷ rest

abbrev pub is_row_before : (ℕ → ℕ → Bool) → (ℕ → ℕ → Bool) → AttendanceRow → AttendanceRow → Bool
is_row_before worker_le date_le a b =
    if a.date == b.date then worker_le a.worker_id b.worker_id else date_le a.date b.date

module _ (local_date : Instant → ℕ) where
  unfoldable pub collect : List AttendanceRow → List ShiftFact → List AttendanceRow
  unfolding add_shift
  collect rows [] = rows
  collect rows (shift ∷ shifts) =
      collect (add_shift (local_date shift.actual_start) shift rows) shifts

  -- Arguments: the orders of identifiers and of dates, and the shifts.
  unfoldable pub aggregate_attendance :
      (ℕ → ℕ → Bool) → (ℕ → ℕ → Bool) → List ShiftFact → List AttendanceRow
  unfolding collect
  aggregate_attendance worker_le date_le shifts =
      sort (is_row_before worker_le date_le) (collect [] shifts)

pub record AttendanceTotals : Type 0 where
  pub worker_count : ℕ
  pub day_count : ℕ
  pub total_worked_seconds : ℕ
  pub total_break_seconds : ℕ
  pub average_worked_seconds_per_day : Option ℕ
  pub auto_closed_count : ℕ

-- `new Set(values).size`
unfoldable pub count_distinct : List ℕ → ℕ
count_distinct [] = 0
count_distinct (x ∷ xs) = (if any (λ y. y == x) xs then 0 else 1) + count_distinct xs

-- `Math.round(total / count)`
abbrev pub rounded_average : ℕ → ℕ → ℕ
rounded_average total count = (total * 2 + count) / (count * 2)

unfoldable pub total_attendance : List AttendanceRow → AttendanceTotals
unfolding count_distinct
total_attendance [] = record {
  worker_count = 0;
  day_count = 0;
  total_worked_seconds = 0;
  total_break_seconds = 0;
  average_worked_seconds_per_day = none;
  auto_closed_count = 0;
}
total_attendance (row ∷ rows) =
    let total_worked_seconds = sum_by (λ r. r.worked_seconds) (row ∷ rows) in
    record {
      worker_count = count_distinct (map (λ r. r.worker_id) (row ∷ rows));
      day_count = count_distinct (map (λ r. r.date) (row ∷ rows));
      total_worked_seconds = total_worked_seconds;
      total_break_seconds = sum_by (λ r. r.break_seconds) (row ∷ rows);
      average_worked_seconds_per_day =
          some (rounded_average total_worked_seconds (length (row ∷ rows)));
      auto_closed_count = sum_by (λ r. r.auto_closed_count) (row ∷ rows);
    }
