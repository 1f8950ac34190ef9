-- ===== src/Shifts/CommandExamples.antt =====
-- A working day, and the theorems on the commands at it.
use aytrackerv.Prelude.{◌≡◌, refl, false, none, some, [], ◌∷◌, arith}
use aytrackerv.Prelude.Sort.{sort}
use aytrackerv.Domain.Errors.{ok}
use aytrackerv.Domain.Time.{round_seconds, seconds_between, merged_interval_seconds}
use aytrackerv.Workforce.Eligibility.{allowed, instant_position}
use aytrackerv.Shifts.Shift.{active, completed, is_open, assert_transition, compute_shift_duration}
use aytrackerv.Shifts.PositionSession.{manual, plan_position_change, plan_session_close}
use aytrackerv.Shifts.Breaks.{ShiftRow, find_open_for_worker, require_open_shift, find_open}
use aytrackerv.Shifts.Breaks.Invariant.{has_open}
use aytrackerv.Shifts.Store.{
  Store, SessionRow, find_open_session, open_session, close_session, list_breaks,
  end_driving_for_session,
}
use aytrackerv.Shifts.Commands.{assert_eligible, end_shift}
use aytrackerv.Shifts.Commands.Moves.{change_position, assert_not_on_break}
use aytrackerv.Shifts.Commands.View.{view, Step}
use aytrackerv.Shifts.Commands.ShiftSteps.{end_shift-closed}
use aytrackerv.Shifts.Commands.Days.{
  Command, change, finish, perform, IsSound, Day, done, next, act_all, commands_of, perform-Step,
  perform-others, Day-IsSound, Day-Steps,
}

abbrev first_shift : ShiftRow
first_shift = record {
  id = 1;
  worker_id = 7;
  status = active;
  actual_start = some 0;
  actual_end = none;
  worked_seconds = none;
  break_seconds = none;
  is_auto_closed = false;
}

abbrev second_shift : ShiftRow
second_shift = record first_shift { id = 2; worker_id = 8 }

abbrev at_press : SessionRow
at_press = record {
  session = record {
    id = 100;
    shift_id = 1;
    worker_id = 7;
    position_id = 10;
    started_at = 0;
    ended_at = none;
  };
  source = manual;
  duration_seconds = none;
  corrected_at = none;
}

abbrev left_press : SessionRow
left_press = record at_press {
  session = record at_press.session { ended_at = some 60_000 };
  duration_seconds = some 60;
}

abbrev at_saw : SessionRow
at_saw = record at_press {
  session = record at_press.session { id = 101; position_id = 20; started_at = 60_000 };
}

abbrev left_saw : SessionRow
left_saw = record at_saw {
  session = record at_saw.session { ended_at = some 120_000 };
  duration_seconds = some 60;
}

abbrev morning : Store
morning = record {
  tables = record { shifts = first_shift ∷ second_shift ∷ []; breaks = [] };
  sessions = at_press ∷ [];
  trips = [];
  assignments = [];
  points = [];
}

abbrev noon : Store
noon = record morning { sessions = at_saw ∷ left_press ∷ [] }

abbrev evening : Store
evening = record morning {
  tables = record {
    shifts =
        record first_shift {
          status = completed;
          actual_end = some 120_000;
          worked_seconds = some 120;
          break_seconds = some 0;
        }
        ∷ second_shift
        ∷ [];
    breaks = [];
  };
  sessions = left_saw ∷ left_press ∷ [];
}

abbrev to_saw : Command
to_saw = change 101 (record {
  worker_id = 7;
  target_position_id = 20;
  decision = allowed false instant_position;
  at = 60_000;
  source = manual;
})

morning-IsSound : IsSound morning
unfolding is_open
morning-IsSound = record {
  indexed = record { shifts_table = ground arith; sessions_table = ground arith };
  agrees = ground arith;
}

moved : perform to_saw morning ≡ ok noon
unfolding perform change_position require_open_shift is_open assert_eligible assert_not_on_break
    find_open_session plan_position_change open_session close_session end_driving_for_session
    seconds_between round_seconds
moved = refl

noon-IsSound : IsSound noon
unfolding is_open
noon-IsSound = record {
  indexed = record { shifts_table = ground arith; sessions_table = ground arith };
  agrees = ground arith;
}

ended : perform (finish 7 120_000) noon ≡ ok evening
unfolding perform end_shift require_open_shift is_open assert_transition find_open find_open_session
    end_driving_for_session plan_session_close close_session compute_shift_duration round_seconds
    merged_interval_seconds seconds_between sort list_breaks
ended = refl

ended_shift : end_shift 7 120_000 noon ≡ ok evening
unfolding end_shift require_open_shift is_open assert_transition find_open find_open_session
    end_driving_for_session plan_session_close close_session compute_shift_duration round_seconds
    merged_interval_seconds seconds_between sort list_breaks
ended_shift = refl

abbrev whole_day : Day morning evening
whole_day = next to_saw refl moved (next (finish 7 120_000) tt ended done)

Day-IsSound_example : IsSound evening
Day-IsSound_example = Day-IsSound whole_day morning-IsSound

Day-Steps_example : act_all (commands_of 7 whole_day) (view 7 morning) ≡ some (view 7 evening)
Day-Steps_example = Day-Steps 7 whole_day morning-IsSound

perform-Step_example : Step (view 7 morning) (view 7 noon)
perform-Step_example = perform-Step to_saw morning noon morning-IsSound refl moved

perform-others_example : view 8 noon ≡ view 8 morning
perform-others_example = perform-others to_saw morning noon morning-IsSound refl moved 8 refl

end_shift-closed_example :
    (s : ShiftRow) × (find_open_for_worker 7 noon.shifts ≡ some s)
    × (has_open s.id evening.breaks ≡ false)
    × (find_open_session s.id evening.sessions ≡ none)
    × (find_open_for_worker 7 evening.shifts ≡ none)
end_shift-closed_example =
    end_shift-closed 7 120_000 noon evening noon-IsSound.indexed noon-IsSound.agrees ended_shift
