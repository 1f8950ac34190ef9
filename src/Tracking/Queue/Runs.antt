-- ===== src/Tracking/Queue/Runs.antt =====
-- What a queue keeps and what it loses.
use aytrackerv.Prelude.{
  ℕ, zero, suc, ◌+◌, ◌-◌, ◌≤◌, ◌<◌, ◌≡◌, ◌∙◌, refl, map, List, [], ◌∷◌, ◌++◌, arith, length,
  length-filter, length-append, take, drop, length-drop, take-drop, All,
}
use aytrackerv.Tracking.Queue.{
  QueuedPoint, QueueCall, enqueued, removed, cleared, after_call, after_calls, enqueue, peek,
  remove, clear, max_queued_points,
}

-- Nothing is lost but the oldest points: the points that were dropped, as many as `dropped` says,
-- followed by those that the queue then keeps, are those it kept before, followed by the new ones.
-- Dropped are exactly those beyond 5000.
pub enqueue_keeps_newest :
    (points queue : List QueuedPoint)
    → (take (enqueue points queue).dropped (queue ++ points) ++ (enqueue points queue).points
        ≡ queue ++ points)
      × ((enqueue points queue).dropped ≡ length queue + length points - max_queued_points)
unfolding enqueue
enqueue_keeps_newest points queue = (
  ground (arith, take-drop (length (queue ++ points) - max_queued_points) (queue ++ points)),
  ground (arith, length-append queue points),
)

call_bounded :
    (call : QueueCall) (queue : List QueuedPoint)
    → length queue ≤ max_queued_points
    → length (after_call call queue) ≤ max_queued_points
unfolding enqueue remove clear
call_bounded (enqueued points) queue h =
    ground (arith, length-drop (length (queue ++ points) - max_queued_points) (queue ++ points))
call_bounded (removed seqs) queue h = omega (arith, length-filter _ queue)
call_bounded (cleared session_id) queue h = omega (arith, length-filter _ queue)

-- Whatever calls a queue within its bound has taken, it keeps at most 5000 points.
after_calls_bounded :
    (calls : List QueueCall) (queue : List QueuedPoint)
    → length queue ≤ max_queued_points
    → length (after_calls calls queue) ≤ max_queued_points
after_calls_bounded [] queue h = h
after_calls_bounded (call ∷ calls) queue h =
    after_calls_bounded calls (after_call call queue) (call_bounded call queue h)

-- The sequence numbers ascend.
abbrev pub IsAscending : List QueuedPoint → Type 0
IsAscending [] = Unit
IsAscending (p ∷ queue) = All (λ q. p.seq < q.seq) queue × IsAscending queue

abbrev pub seqs_of : List QueuedPoint → List ℕ
seqs_of queue = map (λ p. p.seq) queue

remove-above :
    (s : ℕ) (seqs : List ℕ) (queue : List QueuedPoint)
    → All (λ q. s < q.seq) queue
    → remove (s ∷ seqs) queue ≡ remove seqs queue
unfolding remove
remove-above s seqs [] h = refl
remove-above s seqs (p ∷ queue) h = ground (arith, remove-above s seqs queue h.1)

remove_none : (queue : List QueuedPoint) → remove [] queue ≡ queue
unfolding remove
remove_none [] = refl
remove_none (p ∷ queue) = ground (arith, remove_none queue)

remove_head :
    (p : QueuedPoint) (seqs : List ℕ) (queue : List QueuedPoint)
    → remove (p.seq ∷ seqs) (p ∷ queue) ≡ remove (p.seq ∷ seqs) queue
unfolding remove
remove_head p seqs queue = ground arith

-- Once a batch that was peeked has been sent and removed, the queue holds exactly the points behind
-- it, in their order, if the sequence numbers ascend.
pub remove-peek :
    (n : ℕ) (queue : List QueuedPoint)
    → IsAscending queue
    → remove (seqs_of (peek n queue)) queue ≡ drop n queue
unfolding peek
remove-peek zero queue h = remove_none queue
remove-peek (suc n) [] h = remove_none []
remove-peek (suc n) (p ∷ queue) h =
    remove_head p (seqs_of (take n queue)) queue
    ∙ remove-above p.seq (seqs_of (take n queue)) queue h.0
    ∙ remove-peek n queue h.1
