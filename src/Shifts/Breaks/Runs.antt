-- ===== src/Shifts/Breaks/Runs.antt =====
-- Sequences of commands on breaks.
use aytrackerv.Prelude.{
  ℕ, ◌≤◌, ◌≡◌, refl, inl, inr, true, false, ◌&&◌, some, List, [], ◌∷◌, arith, any, ◌==◌, Bool-cases,
}
use aytrackerv.Domain.Errors.{ok, is_ok}
use aytrackerv.Domain.Time.{Instant}
use aytrackerv.Shifts.Shift.{on_break, is_open, BreakType, assert_can_end_break}
use aytrackerv.Shifts.Breaks.{
  ShiftRow, BreakRow, BreakTables, find_open, find_open_for_worker, require_open_shift,
  update_status, start_break, end_break,
}
use aytrackerv.Shifts.Breaks.Invariant.{
  IsConsistent, start_break-ok, opened, find_open-cons, start_break-IsConsistent,
  end_break-IsConsistent,
}

-- The tables after commands that succeeded, on whatever workers; one that throws changes nothing.
pub data BreakRun : BreakTables → BreakTables → Type 0 where
  done : {tables : BreakTables} → BreakRun tables tables
  started :
      {before after last : BreakTables} (fresh worker_id : ℕ) (type : BreakType) (at : Instant)
      → any (λ c. c.id == fresh) before.breaks ≡ false
      → start_break fresh worker_id type at before ≡ ok after
      → BreakRun after last
      → BreakRun before last
  ended :
      {before after last : BreakTables} (worker_id : ℕ) (at : Instant)
      → end_break worker_id at before ≡ ok after
      → BreakRun after last
      → BreakRun before last

-- Whatever breaks are started and ended, a shift is on a break exactly if it has an open break, and
-- it never has two, if that is so at first.
BreakRun-IsConsistent :
    {before last : BreakTables} → BreakRun before last → IsConsistent before → IsConsistent last
BreakRun-IsConsistent done c = c
BreakRun-IsConsistent (started fresh worker_id type at f h run) c =
    BreakRun-IsConsistent run (start_break-IsConsistent fresh worker_id type at _ _ c f h)
BreakRun-IsConsistent (ended worker_id at h run) c =
    BreakRun-IsConsistent run (end_break-IsConsistent worker_id at _ _ c h)

-- The worker's shift is still found once it is on a break.
find_open_for_worker-update_status :
    (w : ℕ) (s : ShiftRow) (shifts : List ShiftRow)
    → find_open_for_worker w shifts ≡ some s
    → (r : ShiftRow) × (find_open_for_worker w (update_status s.id on_break shifts) ≡ some r)
      × (r.id ≡ s.id)
      × (r.status ≡ on_break)
unfolding find_open_for_worker update_status is_open
find_open_for_worker-update_status w s [] h = ground arith
find_open_for_worker-update_status w s (r ∷ shifts) h =
    elim (Bool-cases (r.id == s.id && r.worker_id == w)) [
      | inl e ↦ (record r { status = on_break }, ground arith, ground arith, refl)
      | inr e ↦ elim (Bool-cases (r.worker_id == w && is_open r.status)) [
        | inl m ↦ ground arith
        | inr m ↦
            let (t, found, same, on) =
              find_open_for_worker-update_status w s shifts (ground arith) in
            (t, ground arith, same, on)
      ]
    ]

-- Where the worker's shift is on a break that has begun, the break can be ended.
end_break-is_ok :
    (worker_id : ℕ) (at : Instant) (tables : BreakTables) (s : ShiftRow) (b : BreakRow)
    → find_open_for_worker worker_id tables.shifts ≡ some s
    → s.status ≡ on_break
    → find_open s.id tables.breaks ≡ some b
    → b.started_at ≤ at
    → is_ok (end_break worker_id at tables) ≡ true
unfolding end_break require_open_shift assert_can_end_break
end_break-is_ok worker_id at tables s b f o k l = ground arith

-- A break that was started can be ended at each instant that does not precede its start.
pub end_break-start_break :
    (fresh worker_id : ℕ) (type : BreakType) (at end : Instant) (tables after : BreakTables)
    → start_break fresh worker_id type at tables ≡ ok after
    → at ≤ end
    → is_ok (end_break worker_id end after) ≡ true
end_break-start_break fresh worker_id type at end tables after h l =
    let (s, worker_found, none_open, shifts, breaks) =
      start_break-ok fresh worker_id type at tables after h in
    let (r, found, same, on) =
      find_open_for_worker-update_status worker_id s tables.shifts worker_found in
    end_break-is_ok worker_id end after r (opened fresh s.id type at) (rw shifts found) on
      (rw (breaks, same) (find_open-cons fresh s.id type at tables.breaks)) l
