-- ===== src/Tracking/Collector/Points.antt =====
-- Where a point stands in a queue, and queues that ascend by sequence numbers.
use aytrackerv.Prelude.{
  ℕ, zero, suc, ◌+◌, ◌≤◌, ◌<◌, ◌≡◌, ◌⊎◌, refl, sym, subst, inl, inr, Bool, true, false, Bool-cases,
  List, [], ◌∷◌, ◌++◌, filter, any, take, drop, arith, if◌then◌else◌, ◌==◌, All,
}
use aytrackerv.Tracking.Queue.{QueuedPoint}
use aytrackerv.Tracking.Queue.Runs.{IsAscending}
use aytrackerv.Tracking.Collector.{raw_points, seqs_of}

module _ {A : Type 0} where
  -- The element stands in the list.
  abbrev pub Has : A → List A → Type 0
  Has x [] = ⊥
  Has x (y ∷ ys) = (x ≡ y) ⊎ Has x ys

  pub All-Has {κ} : (P : A → Type κ) (x : A) (xs : List A) → All P xs → Has x xs → P x
  All-Has P x [] h m = absurd m
  All-Has P x (y ∷ ys) h (inl e) = subst P (sym e) h.0
  All-Has P x (y ∷ ys) h (inr m) = All-Has P x ys h.1 m

  pub Has-filter :
      (p : A → Bool) (x : A) (xs : List A) → p x ≡ true → Has x xs → Has x (filter p xs)
  Has-filter p x [] e m = m
  Has-filter p x (y ∷ ys) e (inl same) =
      let t : p y ≡ true = subst (λ z. p z ≡ true) same e in rw t (inl same)
  Has-filter p x (y ∷ ys) e (inr m) = elim (Bool-cases (p y)) [
    | inl t ↦ rw t (inr (Has-filter p x ys e m))
    | inr t ↦ rw t (Has-filter p x ys e m)
  ]

  Has-cons : (x y : A) (xs ys : List A) → (Has x xs → Has x ys) → Has x (y ∷ xs) → Has x (y ∷ ys)
  Has-cons x y xs ys f (inl e) = inl e
  Has-cons x y xs ys f (inr m) = inr (f m)

  pub filter-Has : (p : A → Bool) (x : A) (xs : List A) → Has x (filter p xs) → Has x xs
  filter-Has p x [] m = m
  filter-Has p x (y ∷ ys) m =
      let later = filter-Has p x ys in
      let kept = λ (b : Bool). Has x (if b then y ∷ filter p ys else filter p ys) in
      elim (Bool-cases (p y)) [
        | inl t ↦ Has-cons x y (filter p ys) ys later (subst kept t m)
        | inr t ↦ inr (later (subst kept t m))
      ]

  pub filter-All {κ} :
      (P : A → Type κ) (p : A → Bool) (xs : List A) → All P xs → All P (filter p xs)
  filter-All P p [] h = tt
  filter-All P p (y ∷ ys) h = elim (Bool-cases (p y)) [
    | inl t ↦ rw t (h.0, filter-All P p ys h.1)
    | inr t ↦ rw t (filter-All P p ys h.1)
  ]

  pub Has-append : (x : A) (xs ys : List A) → Has x xs → Has x (xs ++ ys)
  Has-append x [] ys m = absurd m
  Has-append x (y ∷ xs) ys (inl e) = inl e
  Has-append x (y ∷ xs) ys (inr m) = inr (Has-append x xs ys m)

  pub append-Has : (x : A) (xs ys : List A) → Has x ys → Has x (xs ++ ys)
  append-Has x [] ys m = m
  append-Has x (y ∷ xs) ys m = inr (append-Has x xs ys m)

  pub Has-either : (x y : A) (xs : List A) → Has x (xs ++ (y ∷ [])) → Has x xs ⊎ (x ≡ y)
  Has-either x y [] (inl e) = inr e
  Has-either x y [] (inr m) = absurd m
  Has-either x y (z ∷ xs) (inl e) = inl (inl e)
  Has-either x y (z ∷ xs) (inr m) = elim (Has-either x y xs m) [
    | inl here ↦ inl (inr here)
    | inr e ↦ inr e
  ]

  pub drop-Has : (n : ℕ) (x : A) (xs : List A) → Has x (drop n xs) → Has x xs
  drop-Has zero x xs m = m
  drop-Has (suc n) x [] m = m
  drop-Has (suc n) x (y ∷ xs) m = inr (drop-Has n x xs m)

pub Has-raw_points :
    (q : QueuedPoint) (queue : List QueuedPoint) → Has q queue → Has q.point (raw_points queue)
Has-raw_points q [] m = m
Has-raw_points q (p ∷ queue) (inl e) = inl (subst (λ r. q.point ≡ r.point) e refl)
Has-raw_points q (p ∷ queue) (inr m) = inr (Has-raw_points q queue m)

pub take-All {κ} :
    (P : QueuedPoint → Type κ) (n : ℕ) (queue : List QueuedPoint)
    → All P queue
    → All P (take n queue)
take-All P zero queue h = tt
take-All P (suc n) [] h = tt
take-All P (suc n) (p ∷ queue) h = (h.0, take-All P n queue h.1)

pub filter-IsAscending :
    (keep : QueuedPoint → Bool) (queue : List QueuedPoint)
    → IsAscending queue
    → IsAscending (filter keep queue)
filter-IsAscending keep [] h = tt
filter-IsAscending keep (p ∷ queue) h = elim (Bool-cases (keep p)) [
  | inl t ↦ rw t (filter-All (λ q. p.seq < q.seq) keep queue h.0, filter-IsAscending keep queue h.1)
  | inr t ↦ rw t (filter-IsAscending keep queue h.1)
]

-- Whether the number of a point is among those of a batch.
abbrev pub is_of : List QueuedPoint → QueuedPoint → Bool
is_of batch q = any (λ seq. seq == q.seq) (seqs_of batch)

-- A queued point whose number is among those of the first points is one of these.
pub take-Has :
    (n : ℕ) (q : QueuedPoint) (queue : List QueuedPoint)
    → IsAscending queue
    → Has q queue
    → is_of (take n queue) q ≡ true
    → Has q (take n queue)
take-Has zero q queue a m h = cc
take-Has (suc n) q [] a m h = absurd m
take-Has (suc n) q (p ∷ queue) a (inl e) h = inl e
take-Has (suc n) q (p ∷ queue) a (inr m) h =
    let above = All-Has (λ r. p.seq < r.seq) q queue a.0 m in
    inr (take-Has n q queue a.1 m (ground arith))

pub not_of_older :
    (n : ℕ) (q : QueuedPoint) (batch : List QueuedPoint)
    → All (λ p. p.seq ≤ n) batch
    → n < q.seq
    → is_of batch q ≡ false
not_of_older n q [] h l = refl
not_of_older n q (p ∷ batch) h l = ground (arith, not_of_older n q batch h.1 l)

pub append-IsAscending :
    (p : QueuedPoint) (queue : List QueuedPoint)
    → IsAscending queue
    → All (λ q. q.seq < p.seq) queue
    → IsAscending (queue ++ (p ∷ []))
append-IsAscending p [] a b = (tt, tt)
append-IsAscending p (q ∷ queue) a b = (above q p queue a.0 b.0, append-IsAscending p queue a.1 b.1)
  where
    above :
        (q p : QueuedPoint) (queue : List QueuedPoint)
        → All (λ r. q.seq < r.seq) queue
        → q.seq < p.seq
        → All (λ r. q.seq < r.seq) (queue ++ (p ∷ []))
    above q p [] a l = (l, tt)
    above q p (r ∷ queue) a l = (a.0, above q p queue a.1 l)

pub All-below :
    (n : ℕ) (p : QueuedPoint) (queue : List QueuedPoint)
    → p.seq ≡ n + 1
    → All (λ q. q.seq ≤ n) queue
    → All (λ q. q.seq < p.seq) queue × All (λ q. q.seq ≤ n + 1) (queue ++ (p ∷ []))
All-below n p [] e b = (tt, (omega arith, tt))
All-below n p (q ∷ queue) e b =
    let (less, most) = All-below n p queue e b.1 in ((omega arith, less), (omega arith, most))
