-- ===== src/Shifts/Breaks/Invariant.antt =====
-- What the commands on breaks keep true of the tables.
use aytrackerv.Prelude.{
  ℕ, ◌-◌, ◌≡◌, ◌⊎◌, inl, inr, refl, Bool, true, false, none, some, List, [], ◌∷◌, arith, any,
  is_some, ◌==◌, All, if◌then◌else◌, Option-cases,
}
use aytrackerv.Domain.Errors.{ok}
use aytrackerv.Domain.Time.{Instant, round_seconds}
use aytrackerv.Shifts.Shift.{
  ShiftStatus, scheduled, active, on_break, completed, cancelled, BreakType, assert_can_start_break,
  assert_can_end_break,
}
use aytrackerv.Shifts.Breaks.{
  ShiftRow, BreakRow, BreakTables, is_open_break, find_open, find_open_for_worker,
  require_open_shift, update_status, close, start_break, end_break,
}

abbrev pub has_open : ℕ → List BreakRow → Bool
has_open shift_id breaks = any (is_open_break shift_id) breaks

abbrev pub is_on_break : ShiftStatus → Bool
is_on_break on_break = true
is_on_break active = false
is_on_break scheduled = false
is_on_break completed = false
is_on_break cancelled = false

-- Identifiers are unique, and of each shift at most one break is open.
abbrev pub AreBreaks : List BreakRow → Type 0
AreBreaks [] = Unit
AreBreaks (b ∷ breaks) =
    (any (λ c. c.id == b.id) breaks ≡ false)
    × ((is_some b.ended_at ≡ true) ⊎ (has_open b.shift_id breaks ≡ false))
    × AreBreaks breaks

-- A shift is on a break exactly if it has an open break.
abbrev pub Agree : List BreakRow → List ShiftRow → Type 0
Agree breaks shifts = All (λ s. has_open s.id breaks ≡ is_on_break s.status) shifts

abbrev pub IsConsistent : BreakTables → Type 0
IsConsistent tables = AreBreaks tables.breaks × Agree tables.breaks tables.shifts

close_absent :
    (i : ℕ) (at : Instant) (seconds : ℕ) (breaks : List BreakRow)
    → any (λ c. c.id == i) breaks ≡ false
    → close i at seconds breaks ≡ breaks
unfolding close
close_absent i at seconds [] h = refl
close_absent i at seconds (b ∷ breaks) h = ground (arith, close_absent i at seconds breaks)

find_open-id :
    (s i : ℕ) (row : BreakRow) (breaks : List BreakRow)
    → find_open s breaks ≡ some row
    → any (λ c. c.id == i) breaks ≡ false
    → (row.id == i) ≡ false
unfolding find_open
find_open-id s i row [] f h = cc
find_open-id s i row (b ∷ breaks) f h = ground (arith, find_open-id s i row breaks)

pub find_open-none :
    (s : ℕ) (breaks : List BreakRow) → find_open s breaks ≡ none → has_open s breaks ≡ false
unfolding find_open
find_open-none s [] h = refl
find_open-none s (b ∷ breaks) h = ground (arith, find_open-none s breaks)

-- The open break of a shift is closed, and no other.
pub has_open-close :
    (s j : ℕ) (row : BreakRow) (at : Instant) (seconds : ℕ) (breaks : List BreakRow)
    → AreBreaks breaks
    → find_open s breaks ≡ some row
    → has_open j (close row.id at seconds breaks) ≡ (if j == s then false else has_open j breaks)
unfolding find_open close
has_open-close s j row at seconds [] a f = cc
has_open-close s j row at seconds (b ∷ breaks) a f = ground (
  arith,
  has_open-close s j row at seconds breaks a.2,
  close_absent b.id at seconds breaks a.0,
  find_open-id s b.id row breaks,
)

ids-close :
    (i k : ℕ) (at : Instant) (seconds : ℕ) (breaks : List BreakRow)
    → any (λ c. c.id == k) (close i at seconds breaks) ≡ any (λ c. c.id == k) breaks
unfolding close
ids-close i k at seconds [] = refl
ids-close i k at seconds (b ∷ breaks) = ground (arith, ids-close i k at seconds breaks)

closed_stays :
    (i j : ℕ) (at : Instant) (seconds : ℕ) (breaks : List BreakRow)
    → has_open j breaks ≡ false
    → has_open j (close i at seconds breaks) ≡ false
unfolding close
closed_stays i j at seconds [] h = refl
closed_stays i j at seconds (b ∷ breaks) h = ground (arith, closed_stays i j at seconds breaks)

pub close-AreBreaks :
    (i : ℕ) (at : Instant) (seconds : ℕ) (breaks : List BreakRow)
    → AreBreaks breaks
    → AreBreaks (close i at seconds breaks)
unfolding close
close-AreBreaks i at seconds [] h = tt
close-AreBreaks i at seconds (b ∷ breaks) h = ground (
  arith,
  close-AreBreaks i at seconds breaks h.2,
  ids-close i b.id at seconds breaks,
  closed_stays i b.shift_id at seconds breaks,
)

-- The status of one shift follows its breaks, where those of the others are as before.
update_status-Agree :
    (s : ℕ) (status : ShiftStatus) (old new : List BreakRow) (shifts : List ShiftRow)
    → has_open s new ≡ is_on_break status
    → ((j : ℕ) → (j == s) ≡ false → has_open j new ≡ has_open j old)
    → Agree old shifts
    → Agree new (update_status s status shifts)
unfolding update_status
update_status-Agree s status old new [] h k a = tt
update_status-Agree s status old new (r ∷ shifts) h k a =
    ground (arith, k r.id, update_status-Agree s status old new shifts h k a.1)

abbrev pub opened : ℕ → ℕ → BreakType → Instant → BreakRow
opened fresh shift_id type at = record {
  id = fresh;
  shift_id = shift_id;
  type = type;
  started_at = at;
  ended_at = none;
  duration_seconds = none;
}

pub find_open-cons :
    (fresh shift_id : ℕ) (type : BreakType) (at : Instant) (breaks : List BreakRow)
    → find_open shift_id (opened fresh shift_id type at ∷ breaks)
      ≡ some (opened fresh shift_id type at)
unfolding find_open
find_open-cons fresh shift_id type at breaks = ground arith

-- What a break that could be started found and wrote.
pub start_break-ok :
    (fresh worker_id : ℕ) (type : BreakType) (at : Instant) (tables after : BreakTables)
    → start_break fresh worker_id type at tables ≡ ok after
    → (s : ShiftRow) × (find_open_for_worker worker_id tables.shifts ≡ some s)
      × (find_open s.id tables.breaks ≡ none)
      × (after.shifts ≡ update_status s.id on_break tables.shifts)
      × (after.breaks ≡ opened fresh s.id type at ∷ tables.breaks)
unfolding start_break require_open_shift assert_can_start_break
start_break-ok fresh worker_id type at tables after h =
    elim (Option-cases (find_open_for_worker worker_id tables.shifts)) [
      | inl missing ↦ ground arith
      | inr (s, found) ↦ (s, found, ground arith, ground arith, ground arith)
    ]

-- What a break that could be ended found and wrote.
end_break-ok :
    (worker_id : ℕ) (at : Instant) (tables after : BreakTables)
    → end_break worker_id at tables ≡ ok after
    → (s : ShiftRow) × (b : BreakRow) × (seconds : ℕ) × (find_open s.id tables.breaks ≡ some b)
      × (after.shifts ≡ update_status s.id active tables.shifts)
      × (after.breaks ≡ close b.id at seconds tables.breaks)
unfolding end_break require_open_shift assert_can_end_break
end_break-ok worker_id at tables after h =
    elim (Option-cases (find_open_for_worker worker_id tables.shifts)) [
      | inl missing ↦ ground arith
      | inr (s, found) ↦ elim (Option-cases (find_open s.id tables.breaks)) [
        | inl missing ↦ ground arith
        | inr (b, held) ↦
            (s, b, round_seconds (at - b.started_at), ground arith, ground arith, ground arith)
      ]
    ]

-- Starting a break keeps the tables consistent: a shift is on a break exactly if it has an open
-- break, and of each shift at most one break is open. The identifier of the new row is fresh.
pub start_break-IsConsistent :
    (fresh worker_id : ℕ) (type : BreakType) (at : Instant) (tables after : BreakTables)
    → IsConsistent tables
    → any (λ c. c.id == fresh) tables.breaks ≡ false
    → start_break fresh worker_id type at tables ≡ ok after
    → IsConsistent after
start_break-IsConsistent fresh worker_id type at tables after c f h =
    let (s, worker_found, none_open, shifts, breaks) =
      start_break-ok fresh worker_id type at tables after h in
    rw (shifts, breaks)
      (
        (f, inr (find_open-none s.id tables.breaks none_open), c.0),
        update_status-Agree s.id on_break tables.breaks (opened fresh s.id type at ∷ tables.breaks)
            tables.shifts (ground arith) (λ j d. ground arith) c.1,
      )

-- Ending a break keeps the tables consistent: it closes the one open break of the shift and no
-- other, and the shift is active again.
pub end_break-IsConsistent :
    (worker_id : ℕ) (at : Instant) (tables after : BreakTables)
    → IsConsistent tables
    → end_break worker_id at tables ≡ ok after
    → IsConsistent after
end_break-IsConsistent worker_id at tables after c h =
    let (s, b, seconds, found, shifts, breaks) = end_break-ok worker_id at tables after h in
    rw (shifts, breaks)
      (
        close-AreBreaks b.id at seconds tables.breaks c.0,
        update_status-Agree s.id active tables.breaks (close b.id at seconds tables.breaks)
            tables.shifts
            (ground (arith, has_open-close s.id s.id b at seconds tables.breaks c.0 found))
            (λ j d. ground (arith, has_open-close s.id j b at seconds tables.breaks c.0 found)) c.1,
      )
