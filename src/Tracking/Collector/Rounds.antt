-- ===== src/Tracking/Collector/Rounds.antt =====
-- The queue, the server and one round of a flush of packages/tracking-client/src/web-collector.ts.
use aytrackerv.Prelude.{
  ℕ, zero, suc, ◌≤◌, ◌≡◌, ◌≢◌, ◌⊎◌, refl, sym, ap, ◌∙◌, inl, inr, false, none, some, List, [], ◌∷◌,
  ◌++◌, length, take, drop, arith, ◌==◌, All, append_assoc, map-append, take-drop,
}
use aytrackerv.Tracking.State.{TrackingState}
use aytrackerv.Tracking.Queue.{RawPoint, QueuedPoint, peek}
use aytrackerv.Tracking.Queue.Runs.{IsAscending}
use aytrackerv.Tracking.Collector.{
  Uplink, Collector, Answer, accepted, lost, refused, begin_round, raw_points,
}

pub All-drop {ℓ} :
    (P : QueuedPoint → Type ℓ) (n : ℕ) (queue : List QueuedPoint)
    → All P queue
    → All P (drop n queue)
All-drop P zero queue h = h
All-drop P (suc n) [] h = tt
All-drop P (suc n) (p ∷ queue) h = All-drop P n queue h.1

pub drop-IsAscending :
    (n : ℕ) (queue : List QueuedPoint) → IsAscending queue → IsAscending (drop n queue)
drop-IsAscending zero queue h = h
drop-IsAscending (suc n) [] h = tt
drop-IsAscending (suc n) (p ∷ queue) h = drop-IsAscending n queue h.1

-- The sequence numbers of the queue ascend up to the last that was given, and no flush is running.
pub record IsReady (c : Collector) : Type 0 where
  pub ascends : IsAscending c.queue
  pub below : All (λ p. p.seq ≤ c.seq) c.queue
  pub idle : c.in_flight ≡ none

-- What a flush makes of points that are queued at a server that has received some. The server
-- receives points that then leave the queue, in their order, and it may receive once more the batch
-- that stays at the head of the queue, if its answer was lost.
pub record IsFlushed (received : List RawPoint) (queue : List QueuedPoint) (after : Collector)
    : Type 0 where
  pub sent : List RawPoint
  pub unanswered : List RawPoint
  pub has_received : after.uplink.received ≡ received ++ (sent ++ unanswered)
  pub keeps_order : sent ++ raw_points after.queue ≡ raw_points queue
  pub at_most_a_batch : (unanswered ≡ []) ⊎ (unanswered ≡ raw_points (take 200 after.queue))

-- All points were sent and the state is as before, or points are left and the collector is offline.
abbrev pub IsSettled : Collector → Collector → Type 0
IsSettled before after =
    ((after.queue ≡ []) × (after.current.state ≡ before.current.state))
    ⊎ ((after.queue ≢ []) × (after.current.state ≡ TrackingState.offline))

-- The collector with another queue, and a server that has received something else.
abbrev pub with_queue : Collector → Uplink → List QueuedPoint → Collector
with_queue c u queue = record c { queue = queue; uplink = u }

unfoldable pub IsRound : Collector → Uplink → List QueuedPoint → Collector → Type 0
IsRound c u queue after =
    IsFlushed u.received queue after
    × IsSettled c after
    × (after.current.queued_points ≡ length after.queue)
    × (after.current.dropped_points ≡ c.current.dropped_points)
    × IsReady after

append_nil : (points : List RawPoint) → points ++ [] ≡ points
append_nil [] = refl
append_nil (p ∷ points) = ap (λ ps. p ∷ ps) (append_nil points)

pub nothing_sent :
    (received : List RawPoint) (queue : List QueuedPoint) (after : Collector)
    → after.uplink.received ≡ received
    → after.queue ≡ queue
    → IsFlushed received queue after
nothing_sent received queue after r q = record {
  sent = [];
  unanswered = [];
  has_received = r ∙ sym (append_nil received);
  keeps_order = ap raw_points q;
  at_most_a_batch = inl refl;
}

-- A batch that was sent, and what was sent behind it.
pub IsFlushed-batch :
    (received : List RawPoint) (n : ℕ) (queue : List QueuedPoint) (after : Collector)
    → IsFlushed (received ++ raw_points (take n queue)) (drop n queue) after
    → IsFlushed received queue after
IsFlushed-batch received n queue after h =
    let batch = raw_points (take n queue) in
    record {
      sent = batch ++ h.sent;
      unanswered = h.unanswered;
      has_received =
          h.has_received
          ∙ append_assoc received batch (h.sent ++ h.unanswered)
          ∙ ap (λ points. received ++ points) (sym (append_assoc batch h.sent h.unanswered));
      keeps_order =
          append_assoc batch h.sent (raw_points after.queue)
          ∙ ap (λ points. batch ++ points) h.keeps_order
          ∙ sym (map-append (λ p. p.point) (take n queue) (drop n queue))
          ∙ ap raw_points (take-drop n queue);
      at_most_a_batch = h.at_most_a_batch;
    }

pub begin_round-nil :
    (c : Collector) (u : Uplink)
    → begin_round (with_queue c u []) ≡ record (with_queue c u []) {
      in_flight = none;
      current = record c.current { queued_points = 0 };
    }
unfolding begin_round peek
begin_round-nil c u = refl

pub begin_round-cons :
    (c : Collector) (u : Uplink) (p : QueuedPoint) (queue : List QueuedPoint)
    → begin_round (with_queue c u (p ∷ queue))
      ≡ record (with_queue c u (p ∷ queue)) { in_flight = some (take 200 (p ∷ queue)) }
unfolding begin_round peek
begin_round-cons c u p queue =
    let not_empty : (length (take 200 (p ∷ queue)) == 0) ≡ false = ground arith in rw not_empty refl

pub Answer-cases : (a : Answer) → (a ≡ accepted) ⊎ (a ≡ lost) ⊎ (a ≡ refused)
Answer-cases accepted = inl refl
Answer-cases lost = inr (inl refl)
Answer-cases refused = inr (inr refl)
