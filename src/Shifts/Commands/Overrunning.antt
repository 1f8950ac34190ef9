-- ===== src/Shifts/Commands/Overrunning.antt =====
-- The list of the shifts that run too long, and the job over that list.
use aytrackerv.Prelude.{
  ℕ, ◌≡◌, ◌⊎◌, inl, inr, refl, sym, ap, subst, ◌∙◌, Bool, true, false, ◌&&◌, some, List, [], ◌∷◌,
  filter, take, any, All, arith, ◌==◌, if◌then◌else◌, Bool-cases, Option-cases, ◌+◌, ◌<◌, length,
  zero, suc, is_some,
}
use aytrackerv.Prelude.OpenRows
use aytrackerv.Domain.Errors.{Result, ok, err, bind_ran}
use aytrackerv.Domain.Time.{Instant}
use aytrackerv.Shifts.Shift.{is_open, should_auto_close, auto_close_at}
use aytrackerv.Shifts.Breaks.{ShiftRow, BreakRow, find_open, find_open_for_worker}
use aytrackerv.Shifts.Store.{Store, refused_by}
use aytrackerv.Shifts.Commands.{ShiftPolicy, end_breaks}
use aytrackerv.Shifts.Commands.AutoClose.{
  started_before, list_overrunning, auto_close, AutoClosed, keep_going, auto_close_each,
  auto_close_overrunning_shifts,
}
use aytrackerv.Shifts.Commands.View.{off, view}
use aytrackerv.Shifts.Commands.MoveSteps.{AreShifts}
use aytrackerv.Shifts.Commands.Days.{IsSound}
use aytrackerv.Shifts.Commands.AutoCloseSteps.{
  AreHeld, AreHeld-later, IsFine, auto_close-Seen, auto_close_each-IsFine,
}

any-find_open :
    (w : ℕ) (shifts : List ShiftRow)
    → any (λ r. (r.worker_id == w) && is_open r.status) shifts
      ≡ is_some (find_open_for_worker w shifts)
unfolding find_open_for_worker
any-find_open =
    OpenRows.any-find? (λ (r : ShiftRow). r.id) (λ r. r.worker_id) (λ r. is_open r.status)

find_open_for_worker-cons :
    (w : ℕ) (r : ShiftRow) (shifts : List ShiftRow)
    → find_open_for_worker w (r ∷ shifts)
      ≡ (if (r.worker_id == w) && is_open r.status then some r else find_open_for_worker w shifts)
unfolding find_open_for_worker
find_open_for_worker-cons w r shifts = ground arith

AreHeld-cons :
    (r : ShiftRow) (list shifts : List ShiftRow)
    → (is_open r.status ≡ false)
      ⊎ (any (λ t. (t.worker_id == r.worker_id) && is_open t.status) shifts ≡ false)
    → AreHeld list shifts
    → AreHeld list (r ∷ shifts)
AreHeld-cons r [] shifts k a = tt
AreHeld-cons r (t ∷ list) shifts k a = ground (
  arith,
  any-find_open r.worker_id shifts,
  find_open_for_worker-cons t.worker_id r shifts,
  AreHeld-cons r list shifts k a.2,
)

module _ (p : ShiftRow → Bool) (opens : (r : ShiftRow) → p r ≡ true → is_open r.status ≡ true) where
  none_left :
      (w : ℕ) (shifts : List ShiftRow)
      → any (λ t. (t.worker_id == w) && is_open t.status) shifts ≡ false
      → any (λ t. t.worker_id == w) (filter p shifts) ≡ false
  none_left w [] h = refl
  none_left w (r ∷ shifts) h = ground (arith, opens r, none_left w shifts)

  filter-AreHeld : (shifts : List ShiftRow) → AreShifts shifts → AreHeld (filter p shifts) shifts
  filter-AreHeld [] t = tt
  filter-AreHeld (r ∷ shifts) t = elim (Bool-cases (p r)) [
    | inl listed ↦ rw listed (
      ground (arith, opens r listed, find_open_for_worker-cons r.worker_id r shifts),
      ground (arith, opens r listed, none_left r.worker_id shifts),
      AreHeld-cons r (filter p shifts) shifts t.1 (filter-AreHeld shifts t.2),
    )
    | inr left ↦ rw left (AreHeld-cons r (filter p shifts) shifts t.1 (filter-AreHeld shifts t.2))
  ]

any-take :
    (w n : ℕ) (list : List ShiftRow)
    → any (λ t. t.worker_id == w) list ≡ false
    → any (λ t. t.worker_id == w) (take n list) ≡ false
any-take w zero list h = refl
any-take w (suc n) [] h = refl
any-take w (suc n) (r ∷ list) h = ground (arith, any-take w n list)

take-AreHeld :
    (n : ℕ) (list shifts : List ShiftRow) → AreHeld list shifts → AreHeld (take n list) shifts
take-AreHeld zero list shifts a = tt
take-AreHeld (suc n) [] shifts a = tt
take-AreHeld (suc n) (r ∷ list) shifts a =
    (a.0, any-take r.worker_id n list a.1, take-AreHeld n list shifts a.2)

list_overrunning-AreHeld :
    (minutes : ℕ) (now : Instant) (shifts : List ShiftRow)
    → AreShifts shifts
    → AreHeld (list_overrunning minutes now shifts) shifts
unfolding list_overrunning
list_overrunning-AreHeld minutes now shifts t = take-AreHeld 500 _ shifts (
    filter-AreHeld (λ shift. is_open shift.status && started_before minutes now shift.actual_start)
      (λ r h. ground arith) shifts t)

abbrev AreOverrunning : ℕ → Instant → List ShiftRow → Type 0
AreOverrunning minutes now list = All (λ s. started_before minutes now s.actual_start ≡ true) list

take-AreOverrunning :
    (minutes : ℕ) (now : Instant) (n : ℕ) (list : List ShiftRow)
    → AreOverrunning minutes now list
    → AreOverrunning minutes now (take n list)
take-AreOverrunning minutes now zero list a = tt
take-AreOverrunning minutes now (suc n) [] a = tt
take-AreOverrunning minutes now (suc n) (r ∷ list) a =
    (a.0, take-AreOverrunning minutes now n list a.1)

filter-AreOverrunning :
    (minutes : ℕ) (now : Instant) (shifts : List ShiftRow)
    → AreOverrunning minutes now (
        filter
          (λ shift. is_open shift.status && started_before minutes now shift.actual_start)
          shifts)
filter-AreOverrunning minutes now [] = tt
filter-AreOverrunning minutes now (r ∷ shifts) =
    ground (arith, filter-AreOverrunning minutes now shifts)

list_overrunning-AreOverrunning :
    (minutes : ℕ) (now : Instant) (shifts : List ShiftRow)
    → AreOverrunning minutes now (list_overrunning minutes now shifts)
unfolding list_overrunning
list_overrunning-AreOverrunning minutes now shifts =
    take-AreOverrunning minutes now 500 _ (filter-AreOverrunning minutes now shifts)

-- The job may throw at any shift: the tables stay sound, and each worker goes on as before or is
-- off.
pub auto_close_overrunning_shifts-IsFine :
    (policy : ShiftPolicy) (now : Instant) (store : Store)
    → IsSound store
    → IsFine store (auto_close_overrunning_shifts policy now store)
unfolding auto_close_overrunning_shifts
auto_close_overrunning_shifts-IsFine policy now store sound =
    auto_close_each-IsFine policy.max_shift_duration_minutes now
      (list_overrunning policy.max_shift_duration_minutes now store.shifts) store sound
      (list_overrunning-AreHeld policy.max_shift_duration_minutes now store.shifts
        sound.indexed.shifts_table)

abbrev pub AreOff : List ShiftRow → Store → Type 0
AreOff list store = All (λ s. view s.worker_id store ≡ off) list

-- A shift that started long enough ago is to be closed.
due_start :
    (minutes : ℕ) (now : Instant) (s : ShiftRow)
    → started_before minutes now s.actual_start ≡ true
    → (start : Instant) × (s.actual_start ≡ some start)
      × (should_auto_close start now minutes ≡ true)
unfolding should_auto_close
due_start minutes now s h = elim (Option-cases s.actual_start) [
  | inl missing ↦ ground arith
  | inr (start, started) ↦ (start, started, ground arith)
]

keep_going-ok :
    (store : Store) (result : Result Store) (rest : Store → AutoClosed) (n : ℕ)
    → (keep_going store result rest).closed ≡ ok n
    → (after : Store) × (m : ℕ) × (result ≡ ok after)
      × ((rest after).closed ≡ ok m)
      × (n ≡ m + 1)
      × ((keep_going store result rest).store ≡ (rest after).store)
keep_going-ok store (err e) rest n h = cc
keep_going-ok store (ok after) rest n h =
    let (m, ran, count) = bind_ran (rest after).closed (λ n. ok (n + 1)) h in
    (after, m, refl, ran, ground arith, refl)

auto_close_each-due :
    (minutes : ℕ) (now : Instant) (s : ShiftRow) (list : List ShiftRow) (store : Store)
    (start : Instant)
    → s.actual_start ≡ some start
    → should_auto_close start now minutes ≡ true
    → auto_close_each minutes now (s ∷ list) store
      ≡ keep_going store
          (auto_close s.id start (auto_close_at start minutes) store)
          (auto_close_each minutes now list)
unfolding auto_close_each
auto_close_each-due minutes now s list store start started late = rw (started, late)

auto_close_each-nil :
    (minutes : ℕ) (now : Instant) (store : Store) (n : ℕ)
    → (auto_close_each minutes now [] store).closed ≡ ok n
    → n ≡ 0
unfolding auto_close_each
auto_close_each-nil minutes now store n h = ground arith

auto_close_each-all :
    (minutes : ℕ) (now : Instant) (list : List ShiftRow) (store : Store) (n : ℕ)
    → IsSound store
    → AreHeld list store.shifts
    → AreOverrunning minutes now list
    → (auto_close_each minutes now list store).closed ≡ ok n
    → (n ≡ length list) × AreOff list (auto_close_each minutes now list store).store
auto_close_each-all minutes now [] store n sound held due h =
    (auto_close_each-nil minutes now store n h, tt)
auto_close_each-all minutes now (s ∷ list) store n sound held due h =
    let (start, started, late) = due_start minutes now s due.0 in
    let at = auto_close_at start minutes in
    let rest = auto_close_each minutes now list in
    let step = auto_close_each-due minutes now s list store start started late in
    let (after, m, ran, others, count, last) =
      keep_going-ok store (auto_close s.id start at store) rest n
        (sym (ap AutoClosed.closed step) ∙ h) in
    let (sound', views, shifts) = auto_close-Seen s start at store after sound held.0 ran in
    let held' = AreHeld-later s.worker_id list store.shifts after.shifts shifts held.1 held.2 in
    let (all, off') = auto_close_each-all minutes now list after m sound' held' due.1 others in
    let (sound'', only) = auto_close_each-IsFine minutes now list after sound' held' in
    (
      omega arith,
      subst (λ st. (view s.worker_id st ≡ off) × AreOff list st)
          (sym (ap AutoClosed.store step ∙ last))
          (ground (arith, views s.worker_id, only s.worker_id), off'),
    )

-- Where the job does not throw, it has closed every shift that it listed, and the worker of each is
-- off; the number that it returns is that of these shifts.
pub auto_close_overrunning_shifts-all :
    (policy : ShiftPolicy) (now : Instant) (store : Store) (n : ℕ)
    → IsSound store
    → (auto_close_overrunning_shifts policy now store).closed ≡ ok n
    → (n ≡ length (list_overrunning policy.max_shift_duration_minutes now store.shifts))
      × AreOff
          (list_overrunning policy.max_shift_duration_minutes now store.shifts)
          (auto_close_overrunning_shifts policy now store).store
unfolding auto_close_overrunning_shifts
auto_close_overrunning_shifts-all policy now store n sound h =
    let minutes = policy.max_shift_duration_minutes in
    auto_close_each-all minutes now (list_overrunning minutes now store.shifts) store n sound
      (list_overrunning-AreHeld minutes now store.shifts sound.indexed.shifts_table)
      (list_overrunning-AreOverrunning minutes now store.shifts) h

auto_close-late_break :
    (i : ℕ) (start at : Instant) (b : BreakRow) (store : Store)
    → find_open i store.breaks ≡ some b
    → at < b.started_at
    → auto_close i start at store ≡ err (refused_by "shift_breaks_end_after_start")
unfolding auto_close end_breaks
auto_close-late_break i start at b store found late = rw found (ground arith)

-- Where the first shift that the job lists is on a break that began after the longest shift was
-- over, the job throws and closes no shift at all, at whatever time it runs.
pub auto_close_overrunning_shifts-stuck :
    (policy : ShiftPolicy) (now : Instant) (store : Store) (s : ShiftRow) (list : List ShiftRow)
    (start : Instant) (b : BreakRow)
    → list_overrunning policy.max_shift_duration_minutes now store.shifts ≡ s ∷ list
    → s.actual_start ≡ some start
    → find_open s.id store.breaks ≡ some b
    → auto_close_at start policy.max_shift_duration_minutes < b.started_at
    → auto_close_overrunning_shifts policy now store
      ≡ record { store = store; closed = err (refused_by "shift_breaks_end_after_start") }
unfolding auto_close_overrunning_shifts
auto_close_overrunning_shifts-stuck policy now store s list start b listed started found late =
    let minutes = policy.max_shift_duration_minutes in
    let due : AreOverrunning minutes now (s ∷ list) =
      subst (AreOverrunning minutes now) listed
        (list_overrunning-AreOverrunning minutes now store.shifts) in
    let (start', started', is_late) = due_start minutes now s due.0 in
    let same : start' ≡ start = ground arith in
    rw (
      listed,
      auto_close_each-due minutes now s list store start started (rw same at is_late),
      auto_close-late_break s.id start (auto_close_at start minutes) b store found late,
    )
