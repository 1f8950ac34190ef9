-- ===== src/Shifts/Shift/Transitions.antt =====
-- The life of a shift: which status may follow which.
use aytrackerv.Prelude.{◌≡◌, ◌↔◌, refl, Bool, true, false, List, [], ◌∷◌, arith}
use aytrackerv.Domain.Errors.{Result, ok, is_ok, ◌>>◌}
use aytrackerv.Shifts.Shift.Defs.{
  ShiftStatus, scheduled, active, on_break, completed, cancelled, is_open, can_transition,
  assert_transition,
}

-- The status after a sequence of transitions, each asserted.
unfoldable pub follow : ShiftStatus → List ShiftStatus → Result ShiftStatus
follow s [] = ok s
follow s (t ∷ ts) = assert_transition s t >> follow t ts

-- The diagram of a shift.
pub data Edge : ShiftStatus → ShiftStatus → Type 0 where
  start : Edge scheduled active
  drop : Edge scheduled cancelled
  pause : Edge active on_break
  resume : Edge on_break active
  finish : {s : ShiftStatus} → is_open s ≡ true → Edge s completed
  abort : Edge active cancelled

can_transition-Edge : {s t : ShiftStatus} → Edge s t → can_transition s t ≡ true
unfolding can_transition is_open
can_transition-Edge start = refl
can_transition-Edge drop = refl
can_transition-Edge pause = refl
can_transition-Edge resume = refl
can_transition-Edge (finish {s} h) = ground arith
can_transition-Edge abort = refl

Edge-can_transition : (s t : ShiftStatus) → can_transition s t ≡ true → Edge s t
unfolding can_transition is_open
Edge-can_transition scheduled active h = start
Edge-can_transition scheduled cancelled h = drop
Edge-can_transition active on_break h = pause
Edge-can_transition active completed h = finish refl
Edge-can_transition active cancelled h = abort
Edge-can_transition on_break active h = resume
Edge-can_transition on_break completed h = finish refl
Edge-can_transition _ _ h = cc

-- A transition is allowed exactly along an edge of the diagram; in particular a shift is completed
-- from the open statuses alone.
can_transition_iff : (s t : ShiftStatus) → (can_transition s t ≡ true) ↔ Edge s t
can_transition_iff s t = (Edge-can_transition s t, can_transition-Edge)

abbrev pub is_over : ShiftStatus → Bool
is_over completed = true
is_over cancelled = true
is_over _ = false

assert_over : (s t : ShiftStatus) → is_over s ≡ true → is_ok (assert_transition s t) ≡ false
unfolding assert_transition
assert_over s t h = ground arith

-- From a completed or cancelled shift every sequence of transitions but the empty one is refused.
pub follow_over :
    (s t : ShiftStatus) (ts : List ShiftStatus)
    → is_over s ≡ true
    → is_ok (follow s (t ∷ ts)) ≡ false
unfolding follow
follow_over s t ts h = ground (arith, assert_over s t h)

cancelled_stays : (ts : List ShiftStatus) → ¬ (follow cancelled ts ≡ ok completed)
unfolding follow assert_transition
cancelled_stays [] e = cc
cancelled_stays (t ∷ ts) e = ground arith

-- A sequence of transitions that leads a scheduled shift to its completion begins by making it
-- active.
follow-completed :
    (ts : List ShiftStatus)
    → follow scheduled ts ≡ ok completed
    → (rest : List ShiftStatus) × (ts ≡ active ∷ rest) × (follow active rest ≡ ok completed)
unfolding follow assert_transition
follow-completed [] e = cc
follow-completed (active ∷ ts) e = (ts, refl, e)
follow-completed (cancelled ∷ ts) e = absurd (cancelled_stays ts e)
follow-completed (_ ∷ ts) e = cc
