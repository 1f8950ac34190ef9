-- ===== src/Tracking/Queue.antt =====
-- packages/tracking-client/src/queue.ts, of it `MemoryPointQueue`. Its promises are settled at once,
-- so a method is a function on the list of points that it keeps.
pub mod Runs
use aytrackerv.Prelude.{
  ℕ, ◌-◌, Bool, true, false, not, Option, List, [], ◌∷◌, ◌++◌, ltb, any, filter, length, take, drop,
  ◌==◌, if◌then◌else◌,
}
use aytrackerv.Domain.Numbers.{JsNumber}
use aytrackerv.Domain.Time.{Instant}

abbrev pub max_queued_points : ℕ
max_queued_points = 5000

pub data PointSource : Type 0 where
  gps network fused manual : PointSource

pub record RawPoint : Type 0 where
  pub timestamp : Instant
  pub latitude : JsNumber
  pub longitude : JsNumber
  pub accuracy_meters : Option JsNumber
  pub speed_mps : Option JsNumber
  pub heading : Option JsNumber
  pub altitude : Option JsNumber
  pub source : PointSource

pub record QueuedPoint : Type 0 where
  pub point : RawPoint
  pub session_id : ℕ
  pub seq : ℕ

-- The queue after a call of `enqueue`, and the `dropped` that it returns.
pub record Enqueued : Type 0 where
  pub points : List QueuedPoint
  pub dropped : ℕ

unfoldable pub enqueue : List QueuedPoint → List QueuedPoint → Enqueued
enqueue points queue =
    let all_points = queue ++ points in
    let overflow = length all_points - max_queued_points in
    if ltb 0 overflow
    then record { points = drop overflow all_points; dropped = overflow }
    else record { points = all_points; dropped = 0 }

unfoldable pub peek : ℕ → List QueuedPoint → List QueuedPoint
peek limit queue = take limit queue

unfoldable pub remove : List ℕ → List QueuedPoint → List QueuedPoint
remove seqs queue = filter (λ point. not (any (λ seq. seq == point.seq) seqs)) queue

unfoldable pub clear : ℕ → List QueuedPoint → List QueuedPoint
clear session_id queue = filter (λ point. not (point.session_id == session_id)) queue

-- The calls that change a queue.
pub data QueueCall : Type 0 where
  enqueued : List QueuedPoint → QueueCall
  removed : List ℕ → QueueCall
  cleared : ℕ → QueueCall

abbrev pub after_call : QueueCall → List QueuedPoint → List QueuedPoint
after_call (enqueued points) queue = (enqueue points queue).points
after_call (removed seqs) queue = remove seqs queue
after_call (cleared session_id) queue = clear session_id queue

-- A new queue after a sequence of calls.
abbrev pub after_calls : List QueueCall → List QueuedPoint → List QueuedPoint
after_calls [] queue = queue
after_calls (call ∷ calls) queue = after_calls calls (after_call call queue)
