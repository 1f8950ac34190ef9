-- ===== src/Shifts/Commands/AutoCloseSteps.antt =====
-- What the job that closes forgotten shifts does.
use aytrackerv.Prelude.{
  ℕ, ◌≡◌, ◌⊎◌, inl, inr, refl, true, false, none, some, List, [], ◌∷◌, any, arith, ◌==◌,
  if◌then◌else◌, Bool-cases, Option-cases,
}
use aytrackerv.Domain.Errors.{Result, ok, err, bind_ran}
use aytrackerv.Domain.Time.{Instant}
use aytrackerv.Shifts.Shift.{should_auto_close, auto_close_at}
use aytrackerv.Shifts.Breaks.{ShiftRow, find_open_for_worker}
use aytrackerv.Shifts.Store.{Store}
use aytrackerv.Shifts.Commands.{end_breaks}
use aytrackerv.Shifts.Commands.AutoClose.{auto_close, AutoClosed, keep_going, auto_close_each}
use aytrackerv.Shifts.Commands.View.{off, view}
use aytrackerv.Shifts.Commands.ShiftSteps.{finish_shift-Ended, end_breaks-ok, Ended, Ended-Seen}
use aytrackerv.Shifts.Commands.Days.{IsSound}

-- Each row is the open shift of its worker, and no two are of one worker.
abbrev pub AreHeld : List ShiftRow → List ShiftRow → Type 0
AreHeld [] shifts = Unit
AreHeld (s ∷ list) shifts =
    (find_open_for_worker s.worker_id shifts ≡ some s)
    × (any (λ t. t.worker_id == s.worker_id) list ≡ false)
    × AreHeld list shifts

-- The transaction of one shift ends it as its worker would.
auto_close-Ended :
    (s : ShiftRow) (start at : Instant) (store after : Store)
    → IsSound store
    → auto_close s.id start at store ≡ ok after
    → Ended s at true store after
unfolding auto_close
auto_close-Ended s start at store after sound h =
    let (rested, woke, h1) = bind_ran (end_breaks s.id at store) _ h in
    finish_shift-Ended s start at true store rested rested after
      (end_breaks-ok s.id at store rested sound.agrees.0 woke) (refl, refl) h1

pub auto_close-Seen :
    (s : ShiftRow) (start at : Instant) (store after : Store)
    → IsSound store
    → find_open_for_worker s.worker_id store.shifts ≡ some s
    → auto_close s.id start at store ≡ ok after
    → IsSound after
      × ((v : ℕ) → view v after ≡ (if v == s.worker_id then off else view v store))
      × ((v : ℕ)
          → find_open_for_worker v after.shifts
            ≡ (if v == s.worker_id then none else find_open_for_worker v store.shifts))
auto_close-Seen s start at store after sound found h =
    let (seen, agrees, no_break, no_session, shifts) =
      Ended-Seen s.worker_id s at true store after sound.indexed sound.agrees found
        (auto_close-Ended s start at store after sound h) in
    (record { indexed = seen.0; agrees = agrees }, seen.1, shifts)

pub AreHeld-later :
    (w : ℕ) (list before after : List ShiftRow)
    → ((v : ℕ)
        → find_open_for_worker v after ≡ (if v == w then none else find_open_for_worker v before))
    → any (λ t. t.worker_id == w) list ≡ false
    → AreHeld list before
    → AreHeld list after
AreHeld-later w [] before after k n a = tt
AreHeld-later w (t ∷ list) before after k n a =
    ground (arith, k t.worker_id, AreHeld-later w list before after k)

-- Of the workers of a list whose shifts were closed, and of the others.
abbrev pub OnlyOff : Store → Store → Type 0
OnlyOff store after = (v : ℕ) → (view v after ≡ view v store) ⊎ (view v after ≡ off)

OnlyOff-trans : (a b c : Store) → OnlyOff a b → OnlyOff b c → OnlyOff a c
OnlyOff-trans a b c f g v = ground (arith, f v, g v)

abbrev pub IsFine : Store → AutoClosed → Type 0
IsFine store r = IsSound r.store × OnlyOff store r.store

keep_going-IsFine :
    (store : Store) (result : Result Store) (rest : Store → AutoClosed)
    → IsSound store
    → ((after : Store) → result ≡ ok after → OnlyOff store after × IsFine after (rest after))
    → IsFine store (keep_going store result rest)
keep_going-IsFine store (err e) rest sound k = (sound, λ v. inl refl)
keep_going-IsFine store (ok after) rest sound k =
    let (only, fine) = k after refl in
    (fine.0, OnlyOff-trans store after (rest after).store only fine.1)

pub auto_close_each-IsFine :
    (minutes : ℕ) (now : Instant) (list : List ShiftRow) (store : Store)
    → IsSound store
    → AreHeld list store.shifts
    → IsFine store (auto_close_each minutes now list store)
unfolding auto_close_each
auto_close_each-IsFine minutes now [] store sound held = (sound, λ v. inl refl)
auto_close_each-IsFine minutes now (s ∷ list) store sound held =
    let rest = λ (after : Store). auto_close_each-IsFine minutes now list after in
    elim (Option-cases s.actual_start) [
      | inl missing ↦ rw missing (rest store sound held.2)
      | inr (start, started) ↦ elim (Bool-cases (should_auto_close start now minutes)) [
        | inr early ↦ rw (started, early) (rest store sound held.2)
        | inl late ↦
            rw (started, late)
              (keep_going-IsFine store (auto_close s.id start (auto_close_at start minutes) store)
                (auto_close_each minutes now list) sound
                (λ after ran.
                  let (sound', views, shifts) =
                    auto_close-Seen s start (auto_close_at start minutes) store after sound held.0
                      ran in
                  (
                    (λ v. ground (arith, views v)),
                    rest after sound' (
                        AreHeld-later s.worker_id list store.shifts after.shifts shifts held.1
                          held.2),
                  )))
      ]
    ]
