-- ===== src/Shifts/Breaks.antt =====
-- The commands on breaks of modules/shifts/src/application/shift-commands.ts, with the queries of
-- infrastructure/prisma-repositories.ts that they make. The tables are those of one organization;
-- a transaction that throws leaves them as they were.
pub mod Invariant
pub mod Runs
use aytrackerv.Prelude.{
  ℕ, ◌-◌, Bool, true, false, not, ◌&&◌, Option, none, some, List, [], ◌∷◌, map, ltb, any, find?,
  is_some, ◌==◌, if◌then◌else◌,
}
use aytrackerv.Domain.Errors.{Result, ok, err, ◌>>◌, ◌>>=◌, throw_if, precondition_failed_error}
use aytrackerv.Domain.Time.{Instant, round_seconds}
use aytrackerv.Shifts.Shift.{
  ShiftStatus, active, on_break, BreakType, is_open, assert_can_start_break, assert_can_end_break,
}

-- A row of `shifts`: the columns that the commands read or write.
pub record ShiftRow : Type 0 where
  pub id : ℕ
  pub worker_id : ℕ
  pub status : ShiftStatus
  pub actual_start : Option Instant
  pub actual_end : Option Instant
  pub worked_seconds : Option ℕ
  pub break_seconds : Option ℕ
  pub is_auto_closed : Bool

-- A row of `shift_breaks`.
pub record BreakRow : Type 0 where
  pub id : ℕ
  pub shift_id : ℕ
  pub type : BreakType
  pub started_at : Instant
  pub ended_at : Option Instant
  pub duration_seconds : Option ℕ

pub record BreakTables : Type 0 where
  pub shifts : List ShiftRow
  pub breaks : List BreakRow

-- `findOpenForWorker`, and `requireOpenShift`, which calls it.
unfoldable pub find_open_for_worker : ℕ → List ShiftRow → Option ShiftRow
find_open_for_worker worker_id shifts =
    find? (λ shift. shift.worker_id == worker_id && is_open shift.status) shifts

abbrev found_shift : Option ShiftRow → Result ShiftRow
found_shift none = err (precondition_failed_error "shift.not_active")
found_shift (some shift) = ok shift

unfoldable pub require_open_shift : ℕ → List ShiftRow → Result ShiftRow
unfolding find_open_for_worker
require_open_shift worker_id shifts = found_shift (find_open_for_worker worker_id shifts)

abbrev pub is_open_break : ℕ → BreakRow → Bool
is_open_break shift_id row = row.shift_id == shift_id && not (is_some row.ended_at)

-- `findOpen`
unfoldable pub find_open : ℕ → List BreakRow → Option BreakRow
find_open shift_id breaks = find? (is_open_break shift_id) breaks

unfoldable pub update_status : ℕ → ShiftStatus → List ShiftRow → List ShiftRow
update_status shift_id status shifts =
    map (λ shift. if shift.id == shift_id then record shift { status = status } else shift) shifts

-- `breaks.close`, of a row that is still open.
unfoldable pub close : ℕ → Instant → ℕ → List BreakRow → List BreakRow
close break_id ended_at duration_seconds breaks =
    map
      (λ row.
        if row.id == break_id && not (is_some row.ended_at)
        then record row { ended_at = some ended_at; duration_seconds = some duration_seconds }
        else row)
      breaks

-- `startBreak`; the database gives the new row its identifier.
unfoldable pub start_break : ℕ → ℕ → BreakType → Instant → BreakTables → Result BreakTables
unfolding find_open
start_break fresh worker_id type at tables = require_open_shift worker_id tables.shifts >>= λ shift.
    assert_can_start_break shift.status (is_some (find_open shift.id tables.breaks))
    >> ok (record {
      shifts = update_status shift.id on_break tables.shifts;
      breaks =
          record {
            id = fresh;
            shift_id = shift.id;
            type = type;
            started_at = at;
            ended_at = none;
            duration_seconds = none;
          }
          ∷ tables.breaks;
    })

abbrev found_break : Option BreakRow → Result BreakRow
found_break none = err (precondition_failed_error "shift.no_open_break")
found_break (some row) = ok row

unfoldable pub end_break : ℕ → Instant → BreakTables → Result BreakTables
unfolding find_open
end_break worker_id at tables = require_open_shift worker_id tables.shifts >>= λ shift.
    assert_can_end_break shift.status
    >> (found_break (find_open shift.id tables.breaks) >>= λ open_break.
        throw_if (ltb at open_break.started_at)
          (precondition_failed_error "shift.break_end_before_start")
        >> ok (record {
          shifts = update_status shift.id active tables.shifts;
          breaks =
              close open_break.id at (round_seconds (at - open_break.started_at)) tables.breaks;
        }))
