-- ===== src/Shifts/PositionSession/Defs.antt =====
-- modules/shifts/src/domain/position-session.ts. Identifiers are only compared, so they are
-- numbers.
use aytrackerv.Prelude.{
  ℕ, ◌+◌, ◌-◌, ◌*◌, ◌/◌, Bool, true, false, ◌&&◌, Option, none, some, List, [], ◌∷◌, map, min,
  foldl, ltb, leb, ◌==◌, filter, find?, is_some, length,
}
use aytrackerv.Prelude.Maps.{IdMap, get, set}
use aytrackerv.Prelude.Sort.{sort}
use aytrackerv.Domain.Errors.{
  Result, ok, ◌>>◌, throw_if, conflict_error, precondition_failed_error, validation_error,
}
use aytrackerv.Domain.Time.{Instant, end_or, seconds_between}

pub record PositionSessionState : Type 0 where
  pub id : ℕ
  pub shift_id : ℕ
  pub worker_id : ℕ
  pub position_id : ℕ
  pub started_at : Instant
  pub ended_at : Option Instant

pub data PositionChangeSource : Type 0 where
  manual qr supervisor system : PositionChangeSource

pub record Closing : Type 0 where
  pub session_id : ℕ
  pub ended_at : Instant
  pub duration_seconds : ℕ

pub record Opening : Type 0 where
  pub position_id : ℕ
  pub started_at : Instant
  pub source : PositionChangeSource

pub record PositionChangePlan : Type 0 where
  pub closing : Option Closing
  pub opening : Opening

-- The guards on the current session.
assert_can_leave : PositionSessionState → ℕ → Instant → Result (Unit {0})
assert_can_leave current target_position_id at =
    throw_if (is_some current.ended_at) (conflict_error "position.session_already_closed")
    >> throw_if (current.position_id == target_position_id)
        (conflict_error "position.already_at_position")
    >> throw_if (ltb at current.started_at)
        (validation_error "position.change_before_session_start")

unfoldable pub plan_position_change :
    Option PositionSessionState → ℕ → Instant → PositionChangeSource → Result PositionChangePlan
unfolding assert_can_leave seconds_between
plan_position_change none target_position_id at source = ok (record {
  closing = none;
  opening = record { position_id = target_position_id; started_at = at; source = source };
})
plan_position_change (some current) target_position_id at source =
    assert_can_leave current target_position_id at
    >> ok (record {
      closing = some (record {
        session_id = current.id;
        ended_at = at;
        duration_seconds = seconds_between current.started_at at;
      });
      opening = record { position_id = target_position_id; started_at = at; source = source };
    })

unfoldable pub plan_session_close : PositionSessionState → Instant → Result Closing
plan_session_close session ended_at =
    throw_if (ltb ended_at session.started_at) (validation_error "position.end_before_start")
    >> ok (record {
      session_id = session.id;
      ended_at = ended_at;
      duration_seconds = seconds_between session.started_at ended_at;
    })

pub record PositionTotal : Type 0 where
  pub position_id : ℕ
  pub seconds : ℕ
  pub session_count : ℕ

-- `Math.max(0, Math.round(((session.endedAt ?? now) - session.startedAt) / 1000))`
unfoldable pub session_seconds : Instant → PositionSessionState → ℕ
unfolding seconds_between
session_seconds now session = seconds_between session.started_at (end_or session.ended_at now)

pub record Tally : Type 0 where
  pub seconds : ℕ
  pub session_count : ℕ

abbrev pub tally_or_zero : Option Tally → Tally
tally_or_zero none = record { seconds = 0; session_count = 0 }
tally_or_zero (some t) = t

-- One round of the loop over the sessions.
unfoldable pub add_session : Instant → IdMap Tally → PositionSessionState → IdMap Tally
add_session now totals session =
    let existing = tally_or_zero (get session.position_id totals) in
    set session.position_id
      (record {
        seconds = existing.seconds + session_seconds now session;
        session_count = existing.session_count + 1;
      })
      totals

abbrev pub to_total : ℕ × Tally → PositionTotal
to_total (position_id, value) = record {
  position_id = position_id;
  seconds = value.seconds;
  session_count = value.session_count;
}

-- `b.seconds - a.seconds <= 0`
abbrev pub longest_first : PositionTotal → PositionTotal → Bool
longest_first a b = leb b.seconds a.seconds

unfoldable pub summarize_by_position : List PositionSessionState → Instant → List PositionTotal
unfolding add_session
summarize_by_position sessions now =
    sort longest_first (map to_total (foldl (add_session now) [] sessions))

pub record SwitchingPattern : Type 0 where
  pub change_count : ℕ
  pub average_seconds_per_position : ℕ
  pub shortest_stay_seconds : ℕ
  pub brief_stay_count : ℕ

abbrev pub sum_of : List ℕ → ℕ
sum_of = foldl ◌+◌ 0

-- `Math.min(first, ...rest)`
abbrev pub min_of : ℕ → List ℕ → ℕ
min_of first [] = first
min_of first (x ∷ rest) = min first (min_of x rest)

-- `Math.round(total / count)` for a positive count.
unfoldable pub round_div : ℕ → ℕ → ℕ
round_div total count = (2 * total + count) / (2 * count)

unfoldable pub analyze_switching : List PositionSessionState → Instant → ℕ → SwitchingPattern
unfolding round_div
analyze_switching [] now brief_stay_threshold_seconds = record {
  change_count = 0;
  average_seconds_per_position = 0;
  shortest_stay_seconds = 0;
  brief_stay_count = 0;
}
analyze_switching (session ∷ rest) now brief_stay_threshold_seconds =
    let durations = map (session_seconds now) (session ∷ rest) in
    record {
      change_count = length (session ∷ rest) - 1;
      average_seconds_per_position = round_div (sum_of durations) (length (session ∷ rest));
      shortest_stay_seconds = min_of (session_seconds now session) (map (session_seconds now) rest);
      brief_stay_count =
          length (filter (λ value. ltb value brief_stay_threshold_seconds) durations);
    }

-- `at < (end ?? Infinity)`
abbrev pub before_end : Instant → Option Instant → Bool
before_end at none = true
before_end at (some end) = ltb at end

pub record Correction : Type 0 where
  pub new_started_at : Instant
  pub new_ended_at : Option Instant
  pub sibling_sessions : List PositionSessionState
  pub shift_start : Instant
  pub shift_end : Option Instant
  -- `reason.trim().length`
  pub reason_length : ℕ

abbrev pub overlaps : Correction → PositionSessionState → Bool
overlaps input sibling =
    before_end sibling.started_at input.new_ended_at
    && before_end input.new_started_at sibling.ended_at

-- `a && a.getTime() < b`
abbrev pub ends_before : Option Instant → Instant → Bool
ends_before none b = false
ends_before (some a) b = ltb a b

-- `shiftEnd && newEndedAt && newEndedAt > shiftEnd`
abbrev pub ends_after_shift : Option Instant → Option Instant → Bool
ends_after_shift (some shift_end) (some new_end) = ltb shift_end new_end
ends_after_shift _ _ = false

unfoldable pub validate_correction : Correction → Result (Unit {0})
validate_correction input =
    throw_if (ltb input.reason_length 3) (validation_error "correction.reason_required")
    >> throw_if (ends_before input.new_ended_at input.new_started_at)
        (validation_error "correction.end_before_start")
    >> throw_if (ltb input.new_started_at input.shift_start)
        (precondition_failed_error "correction.before_shift_start")
    >> throw_if (ends_after_shift input.shift_end input.new_ended_at)
        (precondition_failed_error "correction.after_shift_end")
    >> throw_if (is_some (find? (overlaps input) input.sibling_sessions))
        (conflict_error "correction.overlaps_session")
