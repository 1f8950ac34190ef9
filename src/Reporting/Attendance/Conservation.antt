-- ===== src/Reporting/Attendance/Conservation.antt =====
-- No shift is lost or counted twice.
use aytrackerv.Prelude.{ℕ, ◌+◌, ◌≡◌, refl, ◌∙◌, Bool, List, [], ◌∷◌, sum_by, arith}
use aytrackerv.Prelude.Sort.{sum_by-sort}
use aytrackerv.Domain.Time.{Instant}
use aytrackerv.Reporting.Attendance.{
  ShiftFact, AttendanceRow, or_zero, one_if, add_shift, with_shift, collect, is_row_before,
  aggregate_attendance, total_attendance,
}

-- A column that grows by what a shift adds.
module _ (column : AttendanceRow → ℕ) (added : ShiftFact → ℕ)
    (grows : (shift : ShiftFact) (row : AttendanceRow)
      → column (with_shift shift row) ≡ column row + added shift)
    (starts : (worker date : ℕ) (shift : ShiftFact)
      → column (
          with_shift shift (record {
            worker_id = worker;
            date = date;
            shift_count = 0;
            worked_seconds = 0;
            break_seconds = 0;
            auto_closed_count = 0;
          }))
        ≡ added shift) where
  sum_by-add_shift :
      (date : ℕ) (shift : ShiftFact) (rows : List AttendanceRow)
      → sum_by column (add_shift date shift rows) ≡ sum_by column rows + added shift
  unfolding add_shift
  sum_by-add_shift date shift [] = omega (arith, starts shift.worker_id date shift)
  sum_by-add_shift date shift (row ∷ rows) =
      ground (arith, grows shift row, sum_by-add_shift date shift rows)

  sum_by-collect :
      (local_date : Instant → ℕ) (rows : List AttendanceRow) (shifts : List ShiftFact)
      → sum_by column (collect local_date rows shifts) ≡ sum_by column rows + sum_by added shifts
  unfolding collect
  sum_by-collect local_date rows [] = omega arith
  sum_by-collect local_date rows (shift ∷ shifts) = omega (
    arith,
    sum_by-collect local_date (add_shift (local_date shift.actual_start) shift rows) shifts,
    sum_by-add_shift (local_date shift.actual_start) shift rows,
  )

  pub sum_by-aggregate :
      (local_date : Instant → ℕ) (worker_le date_le : ℕ → ℕ → Bool) (shifts : List ShiftFact)
      → sum_by column (aggregate_attendance local_date worker_le date_le shifts)
        ≡ sum_by added shifts
  unfolding aggregate_attendance
  sum_by-aggregate local_date worker_le date_le shifts = omega (
    arith,
    sum_by-sort (is_row_before worker_le date_le) column (collect local_date [] shifts),
    sum_by-collect local_date [] shifts,
  )

totals_of :
    (rows : List AttendanceRow)
    → ((total_attendance rows).total_worked_seconds ≡ sum_by (λ r. r.worked_seconds) rows)
      × ((total_attendance rows).total_break_seconds ≡ sum_by (λ r. r.break_seconds) rows)
      × ((total_attendance rows).auto_closed_count ≡ sum_by (λ r. r.auto_closed_count) rows)
unfolding total_attendance
totals_of [] = (refl, refl, refl)
totals_of (row ∷ rows) = (refl, refl, refl)

-- However the shifts fall on days, the totals over the attendance rows are those over the shifts:
-- the worked seconds, the seconds on a break, and the number of shifts that were closed
-- automatically; and the shifts that the rows count are as many as there are shifts.
pub total_attendance-aggregate_attendance :
    (local_date : Instant → ℕ) (worker_le date_le : ℕ → ℕ → Bool) (shifts : List ShiftFact)
    → let rows = aggregate_attendance local_date worker_le date_le shifts in
      ((total_attendance rows).total_worked_seconds ≡ sum_by (λ s. or_zero s.worked_seconds) shifts)
      × ((total_attendance rows).total_break_seconds ≡ sum_by (λ s. or_zero s.break_seconds) shifts)
      × ((total_attendance rows).auto_closed_count ≡ sum_by (λ s. one_if s.is_auto_closed) shifts)
      × (sum_by (λ r. r.shift_count) rows ≡ sum_by (λ s. 1) shifts)
total_attendance-aggregate_attendance local_date worker_le date_le shifts =
    let rows = aggregate_attendance local_date worker_le date_le shifts in
    let (worked, broken, closed) = totals_of rows in
    (
      worked
          ∙ sum_by-aggregate (λ r. r.worked_seconds) (λ s. or_zero s.worked_seconds) (λ s r. refl)
              (λ w d s. omega arith) local_date worker_le date_le shifts,
      broken
          ∙ sum_by-aggregate (λ r. r.break_seconds) (λ s. or_zero s.break_seconds) (λ s r. refl)
              (λ w d s. omega arith) local_date worker_le date_le shifts,
      closed
          ∙ sum_by-aggregate (λ r. r.auto_closed_count) (λ s. one_if s.is_auto_closed) (λ s r. refl)
              (λ w d s. omega arith) local_date worker_le date_le shifts,
      sum_by-aggregate (λ r. r.shift_count) (λ s. 1) (λ s r. refl) (λ w d s. omega arith) local_date
          worker_le date_le shifts,
    )
