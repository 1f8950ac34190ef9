-- ===== src/Shifts/Shift/Defs.antt =====
-- modules/shifts/src/domain/shift.ts. Identifiers are only compared, so they are numbers.
use aytrackerv.Prelude.{
  ℕ, ◌+◌, ◌-◌, ◌*◌, Bool, true, false, not, Option, List, [], ◌∷◌, map, ltb, if◌then◌else◌, eqb,
  any, filter,
}
use aytrackerv.Domain.Errors.{Result, ok, ◌>>◌, throw_if, conflict_error, precondition_failed_error}
use aytrackerv.Domain.Time.{
  Instant, Interval, round_seconds, merged_interval_seconds, clamp_instant, end_or,
}

pub data ShiftStatus : Type 0 where
  scheduled active on_break completed cancelled : ShiftStatus

pub data BreakType : Type 0 where
  paid unpaid meal technical : BreakType

pub ShiftStatus-discrete : Discrete ShiftStatus
ShiftStatus-discrete = hlevel

pub record ShiftState : Type 0 where
  pub id : ℕ
  pub status : ShiftStatus
  pub actual_start : Option Instant
  pub actual_end : Option Instant

pub record BreakInterval : Type 0 where
  pub type : BreakType
  pub started_at : Instant
  pub ended_at : Option Instant

open_statuses : List ShiftStatus
open_statuses = active ∷ on_break ∷ []

unfoldable pub is_open : ShiftStatus → Bool
unfolding open_statuses ShiftStatus-discrete
is_open status = any (eqb ShiftStatus-discrete status) open_statuses

allowed_transitions : ShiftStatus → List ShiftStatus
allowed_transitions scheduled = active ∷ cancelled ∷ []
allowed_transitions active = on_break ∷ completed ∷ cancelled ∷ []
allowed_transitions on_break = active ∷ completed ∷ []
allowed_transitions completed = []
allowed_transitions cancelled = []

unfoldable pub can_transition : ShiftStatus → ShiftStatus → Bool
unfolding allowed_transitions ShiftStatus-discrete
can_transition from to = any (eqb ShiftStatus-discrete to) (allowed_transitions from)

unfoldable pub assert_transition : ShiftStatus → ShiftStatus → Result (Unit {0})
unfolding can_transition
assert_transition from to =
    throw_if (not (can_transition from to)) (precondition_failed_error "shift.invalid_transition")

pub record ShiftDuration : Type 0 where
  pub elapsed_seconds : ℕ
  pub break_seconds : ℕ
  pub unpaid_break_seconds : ℕ
  pub worked_seconds : ℕ

unfoldable pub is_deductible : BreakType → Bool
is_deductible unpaid = true
is_deductible meal = true
is_deductible paid = false
is_deductible technical = false

-- An entry of `closed`.
pub record ClosedBreak : Type 0 where
  pub type : BreakType
  pub start : Instant
  pub end : Instant

-- A break within the shift; one still open ends with the shift.
unfoldable pub close_break : Instant → Instant → BreakInterval → ClosedBreak
unfolding clamp_instant
close_break actual_start actual_end entry = record {
  type = entry.type;
  start = clamp_instant entry.started_at actual_start actual_end;
  end = clamp_instant (end_or entry.ended_at actual_end) actual_start actual_end;
}

-- `mergedIntervalSeconds` takes whatever has a start and an end.
abbrev pub as_interval : ClosedBreak → Interval
as_interval entry = record { start = entry.start; end = entry.end }

unfoldable pub compute_shift_duration :
    Instant → Instant → List BreakInterval → Result ShiftDuration
unfolding is_deductible
compute_shift_duration actual_start actual_end breaks =
    throw_if (ltb actual_end actual_start) (precondition_failed_error "shift.end_before_start")
    >> let closed = map (close_break actual_start actual_end) breaks in
      let break_seconds = merged_interval_seconds (map as_interval closed) in
      let unpaid_break_seconds =
        merged_interval_seconds
          (map as_interval (filter (λ entry. is_deductible entry.type) closed)) in
      let elapsed_seconds = round_seconds (actual_end - actual_start) in
      ok (record {
        elapsed_seconds = elapsed_seconds;
        break_seconds = break_seconds;
        unpaid_break_seconds = unpaid_break_seconds;
        worked_seconds = elapsed_seconds - unpaid_break_seconds;
      })

-- A limit is a whole number of minutes.
unfoldable pub should_auto_close : Instant → Instant → ℕ → Bool
should_auto_close actual_start now max_shift_duration_minutes =
    ltb (max_shift_duration_minutes * 60_000) (now - actual_start)

unfoldable pub auto_close_at : Instant → ℕ → Instant
auto_close_at actual_start max_shift_duration_minutes =
    actual_start + max_shift_duration_minutes * 60_000

unfoldable pub assert_can_start_break : ShiftStatus → Bool → Result (Unit {0})
unfolding ShiftStatus-discrete
assert_can_start_break status open_break_exists =
    throw_if (not (eqb ShiftStatus-discrete status active))
      (precondition_failed_error "shift.not_active")
    >> throw_if open_break_exists (conflict_error "shift.break_already_active")

unfoldable pub assert_can_end_break : ShiftStatus → Result (Unit {0})
unfolding ShiftStatus-discrete
assert_can_end_break status =
    throw_if (not (eqb ShiftStatus-discrete status on_break))
      (precondition_failed_error "shift.not_on_break")

pub record Reconciled : Type 0 where
  pub timestamp : Instant
  pub was_adjusted : Bool

-- Arguments: the client's timestamp, the server's clock, the longest backlog and the largest skew
-- in seconds.
unfoldable pub reconcile_client_timestamp : Instant → Instant → ℕ → ℕ → Reconciled
reconcile_client_timestamp client_timestamp server_now max_backlog_seconds max_skew_ahead_seconds =
    let earliest : Instant = server_now - max_backlog_seconds * 1000 in
    let latest : Instant = server_now + max_skew_ahead_seconds * 1000 in
    if ltb client_timestamp earliest
    then record { timestamp = earliest; was_adjusted = true }
    else if ltb latest client_timestamp
    then record { timestamp = server_now; was_adjusted = true }
    else record { timestamp = client_timestamp; was_adjusted = false }
