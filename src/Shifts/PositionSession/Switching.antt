-- ===== src/Shifts/PositionSession/Switching.antt =====
-- How long the stays at positions are: `analyzeSwitching` of
-- modules/shifts/src/domain/position-session.ts.
use aytrackerv.Prelude.{
  ℕ, suc, ◌+◌, ◌*◌, ◌≤◌, ◌≡◌, List, [], ◌∷◌, map, foldl, arith, ltb, All, length, filter, sum_by,
  ◌↔◌, length-map,
}
use aytrackerv.Domain.Time.{Instant}
use aytrackerv.Shifts.PositionSession.Defs.{
  PositionSessionState, session_seconds, analyze_switching, sum_of, min_of, round_div,
}

foldl-add : (xs : List ℕ) (acc : ℕ) → foldl ◌+◌ acc xs ≡ acc + sum_by (λ x. x) xs
foldl-add [] acc = omega arith
foldl-add (x ∷ xs) acc = omega (arith, foldl-add xs (acc + x))

All-below : (c d : ℕ) → d ≤ c → (xs : List ℕ) → All (λ y. c ≤ y) xs → All (λ y. d ≤ y) xs
All-below c d h [] hs = tt
All-below c d h (x ∷ xs) hs = (omega arith, All-below c d h xs hs.1)

min_of-le : (x : ℕ) (xs : List ℕ) → All (λ y. min_of x xs ≤ y) (x ∷ xs)
min_of-le x [] = omega arith
min_of-le x (y ∷ ys) = (
  omega arith,
  All-below (min_of y ys) (min_of x (y ∷ ys)) (omega arith) (y ∷ ys) (min_of-le y ys),
)

times-le-sum : (c : ℕ) (xs : List ℕ) → All (λ y. c ≤ y) xs → c * length xs ≤ sum_by (λ x. x) xs
times-le-sum c [] h = omega arith
times-le-sum c (x ∷ xs) h = omega (arith, times-le-sum c xs h.1)

times_suc-le :
    (c x : ℕ) (xs : List ℕ) → All (λ y. c ≤ y) (x ∷ xs) → c * suc (length xs) ≤ sum_of (x ∷ xs)
times_suc-le c x xs h = omega (arith, foldl-add xs (0 + x), times-le-sum c xs h.1)

le-round_div : (c s k : ℕ) → c * suc k ≤ s → c ≤ round_div s (suc k)
unfolding round_div
le-round_div c s k h = grind arith

least-le-average :
    (x : ℕ) (xs : List ℕ) → min_of x xs ≤ round_div (sum_of (x ∷ xs)) (suc (length xs))
least-le-average x xs =
    le-round_div (min_of x xs) (sum_of (x ∷ xs)) (length xs)
      (times_suc-le (min_of x xs) x xs (min_of-le x xs))

-- No value is below a bound exactly if the least one is not.
none_below :
    (t x : ℕ) (xs : List ℕ) → (length (filter (λ v. ltb v t) (x ∷ xs)) ≡ 0) ↔ (t ≤ min_of x xs)
none_below t x [] = ((λ h. ground arith), (λ h. ground arith))
none_below t x (y ∷ ys) = (
  (λ h. ground (arith, (none_below t y ys).0)),
  (λ h. ground (arith, (none_below t y ys).1 (omega arith))),
)

-- Of one session or more, the changes are one fewer than the sessions; no stay is shorter than the
-- shortest, which is at most the average; and there is no brief stay exactly if the shortest
-- reaches the threshold.
analyze_switching_bounds :
    (s : PositionSessionState) (ss : List PositionSessionState) (now : Instant) (threshold : ℕ)
    → let r = analyze_switching (s ∷ ss) now threshold in
      (r.change_count + 1 ≡ length (s ∷ ss))
      × All (λ stay. r.shortest_stay_seconds ≤ stay) (map (session_seconds now) (s ∷ ss))
      × (r.shortest_stay_seconds ≤ r.average_seconds_per_position)
      × ((r.brief_stay_count ≡ 0) ↔ (threshold ≤ r.shortest_stay_seconds))
unfolding analyze_switching
analyze_switching_bounds s ss now threshold =
    let x = session_seconds now s in
    let xs = map (session_seconds now) ss in
    (
      omega arith,
      min_of-le x xs,
      rw (← length-map (session_seconds now) ss) (least-le-average x xs),
      none_below threshold x xs,
    )
