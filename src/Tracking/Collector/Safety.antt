-- ===== src/Tracking/Collector/Safety.antt =====
-- What each step of a collector of packages/tracking-client/src/web-collector.ts keeps.
use aytrackerv.Prelude.{
  ℕ, ◌+◌, ◌-◌, ◌≤◌, ◌≡◌, ◌⊎◌, refl, sym, subst, inl, inr, not, true, false, Bool-cases, Option,
  some, none, List, [], ◌∷◌, ◌++◌, take, length, arith, ltb, ◌==◌, All, is_some,
}
use aytrackerv.Tracking.Queue.{QueuedPoint, enqueue, remove, peek, max_queued_points}
use aytrackerv.Tracking.Queue.Runs.{IsAscending}
use aytrackerv.Tracking.Collector.{
  Collector, GeolocationPosition, Answer, accepted, lost, refused, keep_fix, queued_point,
  raw_points, seqs_of, begin_round, begin_flush, answer, answer_to, after_upload, batch_of, stored,
  gone_offline,
}
use aytrackerv.Tracking.Collector.Rounds.{All-drop, drop-IsAscending}
use aytrackerv.Tracking.Collector.Points.{
  Has, Has-filter, filter-All, Has-append, append-Has, Has-either, drop-Has, Has-raw_points,
  take-All, filter-IsAscending, is_of, take-Has, not_of_older, append-IsAscending, All-below,
}

-- The queue ascends by sequence numbers up to the last given, and so do the numbers of the batch in
-- flight; a queued point that bears a number of that batch is in it.
pub record IsSound (c : Collector) : Type 0 where
  pub ascends : IsAscending c.queue
  pub below : All (λ p. p.seq ≤ c.seq) c.queue
  pub older : All (λ p. p.seq ≤ c.seq) (batch_of c.in_flight)
  pub covers :
      (q : QueuedPoint)
      → Has q c.queue
      → is_of (batch_of c.in_flight) q ≡ true
      → Has q (batch_of c.in_flight)

-- The point is queued, or the server has received it.
abbrev pub IsKept : QueuedPoint → Collector → Type 0
IsKept p c = Has p c.queue ⊎ Has p.point c.uplink.received

-- What a step leaves: a sound collector that has lost no point unless it counted one as dropped.
pub record IsSafe (before after : Collector) : Type 0 where
  pub sound : IsSound after
  pub counts : before.current.dropped_points ≤ after.current.dropped_points
  pub keeps :
      (p : QueuedPoint)
      → after.current.dropped_points ≡ before.current.dropped_points
      → IsKept p before
      → IsKept p after

pub IsSafe-then : (a b c : Collector) → IsSafe a b → IsSafe b c → IsSafe a c
IsSafe-then a b c first second = record {
  sound = second.sound;
  counts = omega (arith, first.counts, second.counts);
  keeps = λ p e k.
      second.keeps p (omega (arith, first.counts, second.counts))
        (first.keeps p (omega (arith, first.counts, second.counts)) k);
}

begin_round-IsSafe :
    (c : Collector)
    → IsAscending c.queue
    → All (λ p. p.seq ≤ c.seq) c.queue
    → IsSafe c (begin_round c)
unfolding begin_round peek
begin_round-IsSafe c a b = elim (Bool-cases (length (take 200 c.queue) == 0)) [
  | inl e ↦ rw e (record {
    sound = record { ascends = a; below = b; older = tt; covers = λ q m h. cc };
    counts = omega arith;
    keeps = λ p e k. k;
  })
  | inr e ↦ rw e (record {
    sound = record {
      ascends = a;
      below = b;
      older = take-All (λ p. p.seq ≤ c.seq) 200 c.queue b;
      covers = λ q m h. take-Has 200 q c.queue a m h;
    };
    counts = omega arith;
    keeps = λ p e k. k;
  })
]

pub begin_flush-IsSafe : (c : Collector) → IsSound c → IsSafe c (begin_flush c)
unfolding begin_flush
begin_flush-IsSafe c s = elim (Bool-cases (is_some c.in_flight)) [
  | inl e ↦ rw e (record { sound = s; counts = omega arith; keeps = λ p e k. k })
  | inr e ↦ rw e (begin_round-IsSafe c s.ascends s.below)
]

gone_offline-IsSafe :
    (c : Collector)
    → IsAscending c.queue
    → All (λ p. p.seq ≤ c.seq) c.queue
    → IsSafe c (gone_offline c)
gone_offline-IsSafe c a b = record {
  sound = record { ascends = a; below = b; older = tt; covers = λ q m h. cc };
  counts = omega arith;
  keeps = λ p e k. k;
}

-- The server has stored a batch; the queue is as it was.
stored-keeps :
    (c : Collector) (batch : List QueuedPoint) (p : QueuedPoint)
    → IsKept p c
    → IsKept p (record c { uplink = stored batch c.uplink })
stored-keeps c batch p (inl m) = inl m
stored-keeps c batch p (inr m) = inr (Has-append p.point c.uplink.received (raw_points batch) m)

abbrev taken : Collector → List QueuedPoint → Collector
taken c batch = record c { queue = remove (seqs_of batch) c.queue; uplink = stored batch c.uplink }

-- A point that leaves the queue with a batch is one of the batch, which the server has.
taken-keeps :
    (c : Collector) (batch : List QueuedPoint) (p : QueuedPoint)
    → (Has p c.queue → is_of batch p ≡ true → Has p batch)
    → IsKept p c
    → IsKept p (taken c batch)
unfolding remove
taken-keeps c batch p covers (inr m) =
    inr (Has-append p.point c.uplink.received (raw_points batch) m)
taken-keeps c batch p covers (inl m) = elim (Bool-cases (is_of batch p)) [
  | inl e ↦ inr (
      append-Has p.point c.uplink.received (raw_points batch) (Has-raw_points p batch (covers m e)))
  | inr e ↦ inl (Has-filter (λ q. not (is_of batch q)) p c.queue (ground (arith, e)) m)
]

after_upload-IsSafe :
    (a : Answer) (batch : List QueuedPoint) (c : Collector)
    → IsAscending c.queue
    → All (λ p. p.seq ≤ c.seq) c.queue
    → ((q : QueuedPoint) → Has q c.queue → is_of batch q ≡ true → Has q batch)
    → IsSafe c (after_upload a batch c)
unfolding remove
after_upload-IsSafe accepted batch c a b covers =
    let keep = λ (q : QueuedPoint). not (is_of batch q) in
    let safe =
      begin_round-IsSafe (taken c batch) (filter-IsAscending keep c.queue a)
        (filter-All (λ p. p.seq ≤ c.seq) keep c.queue b) in
    record {
      sound = safe.sound;
      counts = safe.counts;
      keeps = λ p e k. safe.keeps p e (taken-keeps c batch p (covers p) k);
    }
after_upload-IsSafe lost batch c a b covers =
    let safe = gone_offline-IsSafe (record c { uplink = stored batch c.uplink }) a b in
    record {
      sound = safe.sound;
      counts = safe.counts;
      keeps = λ p e k. safe.keeps p e (stored-keeps c batch p k);
    }
after_upload-IsSafe refused batch c a b covers =
    let safe =
      gone_offline-IsSafe
        (record c { uplink = record c.uplink { attempts = c.uplink.attempts + 1 } }) a b in
    record { sound = safe.sound; counts = safe.counts; keeps = safe.keeps }

answer_to-IsSafe :
    (a : Answer) (flight : Option (List QueuedPoint)) (c : Collector)
    → IsSound c
    → ((q : QueuedPoint)
        → Has q c.queue
        → is_of (batch_of flight) q ≡ true
        → Has q (batch_of flight))
    → IsSafe c (answer_to a flight c)
answer_to-IsSafe a none c s covers = record { sound = s; counts = omega arith; keeps = λ p e k. k }
answer_to-IsSafe a (some batch) c s covers = after_upload-IsSafe a batch c s.ascends s.below covers

pub answer-IsSafe : (a : Answer) (c : Collector) → IsSound c → IsSafe c (answer a c)
unfolding answer
answer-IsSafe a c s = answer_to-IsSafe a c.in_flight c s s.covers

-- A queue that takes one point keeps its order and its bound, holds no other point, and loses none
-- unless it counts one as dropped.
enqueue_one :
    (n : ℕ) (p : QueuedPoint) (queue : List QueuedPoint)
    → p.seq ≡ n + 1
    → IsAscending queue
    → All (λ q. q.seq ≤ n) queue
    → IsAscending (enqueue (p ∷ []) queue).points
      × All (λ q. q.seq ≤ n + 1) (enqueue (p ∷ []) queue).points
      × ((q : QueuedPoint) → Has q (enqueue (p ∷ []) queue).points → Has q queue ⊎ (q ≡ p))
      × ((q : QueuedPoint)
          → (enqueue (p ∷ []) queue).dropped ≡ 0
          → Has q queue
          → Has q (enqueue (p ∷ []) queue).points)
unfolding enqueue
enqueue_one n p queue e a b =
    let (less, most) = All-below n p queue e b in
    let all_points = queue ++ (p ∷ []) in
    let overflow = length all_points - max_queued_points in
    let ascends = append-IsAscending p queue a less in
    elim (Bool-cases (ltb 0 overflow)) [
      | inl over ↦ rw over (
        drop-IsAscending overflow all_points ascends,
        All-drop (λ q. q.seq ≤ n + 1) overflow all_points most,
        (λ q m. Has-either q p queue (drop-Has overflow q all_points m)),
        (λ q z m. absurd (ground (arith, over, z))),
      )
      | inr fits ↦
          rw fits (
            ascends,
            most,
            (λ q m. Has-either q p queue m),
            (λ q z m. Has-append q queue (p ∷ []) m),
          )
    ]

older_suc :
    (n : ℕ) (batch : List QueuedPoint) → All (λ p. p.seq ≤ n) batch → All (λ p. p.seq ≤ n + 1) batch
older_suc n [] h = tt
older_suc n (p ∷ batch) h = (omega (arith, h.0), older_suc n batch h.1)

pub keep_fix-IsSafe :
    (c : Collector) (position : GeolocationPosition) → IsSound c → IsSafe c (keep_fix c position)
unfolding keep_fix
keep_fix-IsSafe c position s =
    let p = queued_point c.options.session_id (c.seq + 1) position in
    let (ascends, below, only, same) = enqueue_one c.seq p c.queue refl s.ascends s.below in
    let batch = batch_of c.in_flight in
    record {
      sound = record {
        ascends = ascends;
        below = below;
        older = older_suc c.seq batch s.older;
        covers = λ q m h. elim (only q m) [
          | inl old ↦ s.covers q old h
          | inr e ↦
              let apart : is_of batch p ≡ false =
                not_of_older c.seq p batch s.older (omega arith) in
              let none_of : is_of batch q ≡ false =
                subst (λ r. is_of batch r ≡ false) (sym e) apart in
              absurd (ground (arith, none_of, h))
        ];
      };
      counts = omega arith;
      keeps = λ q e k. elim k [ inl m ↦ inl (same q (omega (arith, e)) m) | inr m ↦ inr m ];
    }
