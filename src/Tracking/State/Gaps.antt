-- ===== src/Tracking/State/Gaps.antt =====
-- What a gap in a stream is.
use aytrackerv.Prelude.{
  ◌+◌, ◌-◌, ◌*◌, ◌≤◌, ◌≡◌, ◌⊎◌, inl, inr, refl, false, not, Option, List, [], ◌∷◌, ◌++◌, arith,
  length, All, Bool-cases, ltb, is_some,
}
use aytrackerv.Prelude.Sort.{sort, le_by, IsSortedBy, sort-IsSortedBy, sort-All, All-sort}
use aytrackerv.Domain.Time.{Instant, end_or, round_seconds}
use aytrackerv.Domain.Time.Rounding.{round_seconds_near}
use aytrackerv.Tracking.State.{
  TrackingGap, TrackingThresholds, PausedInterval, GapRules, gaps_from, gap_between, is_last,
  find_tracking_gaps, overlaps_pause, total_gap_seconds,
}

-- Where a gap ends, in a stream that was looked at until `end`.
abbrev pub gap_end : Instant → TrackingGap → Instant
gap_end end gap = end_or gap.ended_at end

-- The gap is as long as the threshold, its seconds are its length, and no pause reaches into it.
abbrev pub IsGap : GapRules → Instant → TrackingGap → Type 0
IsGap rules end gap =
    (gap.started_at + rules.threshold ≤ gap_end end gap)
    × (gap.seconds ≡ round_seconds (gap_end end gap - gap.started_at))
    × (overlaps_pause gap.started_at (gap_end end gap) rules.pauses ≡ false)

-- The instant does not lie inside the gap.
abbrev pub IsOutside : Instant → TrackingGap → Instant → Type 0
IsOutside end gap at = (at ≤ gap.started_at) ⊎ (gap_end end gap ≤ at)

module _ (rules : GapRules) (end : Instant) where
  abbrev gaps_to_end : Instant → List Instant → List TrackingGap
  gaps_to_end previous xs = gaps_from rules previous (xs ++ (end ∷ []))

  is_last-append : (xs : List Instant) → is_last (xs ++ (end ∷ [])) ≡ false
  is_last-append [] = refl
  is_last-append (x ∷ xs) = refl

  -- A property of every gap between neighbours holds of every gap.
  module _ (P : TrackingGap → Type 0) where
    gaps_from-All :
        (previous : Instant) (x : Instant) (rest : List Instant)
        → All P (gaps_from rules x rest)
        → (previous + rules.threshold ≤ x
            → overlaps_pause previous x rules.pauses ≡ false
            → P (gap_between rules previous x rest))
        → All P (gaps_from rules previous (x ∷ rest))
    unfolding gaps_from
    gaps_from-All previous x rest later h = elim (Bool-cases (ltb x (previous + rules.threshold))) [
      | inl e ↦ rw e later
      | inr e ↦ rw e (elim (Bool-cases (overlaps_pause previous x rules.pauses)) [
        | inl o ↦ rw o later
        | inr o ↦ rw o (h (ground arith) o, later)
      ])
    ]

  gaps-IsGap :
      (previous : Instant) (xs : List Instant) → All (IsGap rules end) (gaps_to_end previous xs)
  unfolding gaps_from
  gaps-IsGap previous [] = gaps_from-All (IsGap rules end) previous end [] tt (λ h o. ground arith)
  gaps-IsGap previous (x ∷ xs) =
      gaps_from-All (IsGap rules end) previous x (xs ++ (end ∷ [])) (gaps-IsGap x xs)
        (λ h o. rw (is_last-append xs) (h, refl, o))

  gaps-above :
      (low previous : Instant) (xs : List Instant)
      → low ≤ previous
      → All (λ x. low ≤ x) xs
      → All (λ gap. low ≤ gap.started_at) (gaps_to_end previous xs)
  unfolding gaps_from
  gaps-above low previous [] l h =
      gaps_from-All (λ gap. low ≤ gap.started_at) previous end [] tt (λ _ o. l)
  gaps-above low previous (x ∷ xs) l h =
      gaps_from-All (λ gap. low ≤ gap.started_at) previous x (xs ++ (end ∷ []))
        (gaps-above low x xs h.0 h.1) (λ _ o. l)

  IsOutside-later :
      (x : Instant) (xs : List Instant) (gaps : List TrackingGap)
      → All (λ gap. x ≤ gap.started_at) gaps
      → All (λ gap. All (IsOutside end gap) xs) gaps
      → All (λ gap. All (IsOutside end gap) (x ∷ xs)) gaps
  IsOutside-later x xs [] h k = tt
  IsOutside-later x xs (gap ∷ gaps) h k = ((inl h.0, k.0), IsOutside-later x xs gaps h.1 k.1)

  above-IsOutside :
      (gap : TrackingGap) (xs : List Instant)
      → All (λ x. gap_end end gap ≤ x) xs
      → All (IsOutside end gap) xs
  above-IsOutside gap [] h = tt
  above-IsOutside gap (x ∷ xs) h = (inr h.0, above-IsOutside gap xs h.1)

  gaps-IsOutside :
      (previous : Instant) (xs : List Instant)
      → IsSortedBy (λ x. x) xs
      → All (λ gap. All (IsOutside end gap) xs) (gaps_to_end previous xs)
  unfolding gaps_from
  gaps-IsOutside previous [] h =
      gaps_from-All (λ gap. All (IsOutside end gap) []) previous end [] tt (λ _ o. tt)
  gaps-IsOutside previous (x ∷ xs) h =
      gaps_from-All (λ gap. All (IsOutside end gap) (x ∷ xs)) previous x (xs ++ (end ∷ []))
        (IsOutside-later x xs (gaps_to_end x xs) (gaps-above x x xs (omega arith) h.0)
          (gaps-IsOutside x xs h.1))
        (λ _ o. rw (is_last-append xs) (
          inr (omega arith),
          above-IsOutside (gap_between rules previous x (xs ++ (end ∷ []))) xs
              (rw (is_last-append xs) h.0),
        ))

  sum-gaps :
      (previous : Instant) (xs : List Instant)
      → IsSortedBy (λ x. x) (previous ∷ xs)
      → All (λ x. x ≤ end) xs
      → previous ≤ end
      → total_gap_seconds (gaps_to_end previous xs) * 1000
        ≤ end - previous + 500 * length (gaps_to_end previous xs)
  unfolding gaps_from total_gap_seconds
  sum-gaps previous [] s h e = ground (arith, round_seconds_near (end - previous))
  sum-gaps previous (x ∷ xs) s h e =
      ground (arith, round_seconds_near (x - previous), sum-gaps x xs s.1 h.1 h.0)

All-zip {ℓ κ μ} :
    {A : Type ℓ} (P : A → Type κ) (Q : A → Type μ) (xs : List A)
    → All P xs
    → All Q xs
    → All (λ x. P x × Q x) xs
All-zip P Q [] p q = tt
All-zip P Q (x ∷ xs) p q = ((p.0, q.0), All-zip P Q xs p.1 q.1)

All-unsorted :
    (end : Instant) (points : List Instant) (gaps : List TrackingGap)
    → All (λ gap. All (IsOutside end gap) (sort (le_by (λ at. at)) points)) gaps
    → All (λ gap. All (IsOutside end gap) points) gaps
All-unsorted end points [] h = tt
All-unsorted end points (gap ∷ gaps) h =
    (All-sort (le_by (λ at. at)) (IsOutside end gap) points h.0, All-unsorted end points gaps h.1)

module _ (start now : Instant) (ended_at : Option Instant) (pauses : List PausedInterval)
    (thresholds : TrackingThresholds) where
  abbrev pub rules_of : GapRules
  rules_of = record {
    threshold = thresholds.stale_after_seconds * 1000;
    runs_on = not (is_some ended_at);
    pauses = pauses;
  }

  -- Each gap that is found is at least as long as the threshold, its seconds are its length, no
  -- pause reaches into it, and no point of the trip lies inside it, in whatever order the points
  -- arrived.
  pub find_tracking_gaps-IsGap :
      (points : List Instant)
      → All
          (λ gap.
            IsGap rules_of (end_or ended_at now) gap
            × All (IsOutside (end_or ended_at now) gap) points)
          (find_tracking_gaps points start ended_at now pauses thresholds)
  unfolding find_tracking_gaps
  find_tracking_gaps-IsGap points =
      let end = end_or ended_at now in
      let xs = sort (le_by (λ at. at)) points in
      All-zip (IsGap rules_of end) (λ gap. All (IsOutside end gap) points) _
        (gaps-IsGap rules_of end start xs)
        (All-unsorted end points _
          (gaps-IsOutside rules_of end start xs (sort-IsSortedBy (λ at. at) points)))

  -- Of points that lie between the start and the end of a trip, the gaps together are no longer
  -- than the trip, but for half a second for each gap that was rounded.
  total_gap_seconds_bounds :
      (points : List Instant)
      → start ≤ end_or ended_at now
      → All (λ x. start ≤ x) points
      → All (λ x. x ≤ end_or ended_at now) points
      → let gaps = find_tracking_gaps points start ended_at now pauses thresholds in
        total_gap_seconds gaps * 1000 ≤ end_or ended_at now - start + 500 * length gaps
  unfolding find_tracking_gaps
  total_gap_seconds_bounds points e l h =
      let le = le_by (λ at. at) in
      sum-gaps rules_of (end_or ended_at now) start (sort le points)
        (sort-All le (λ x. start ≤ x) points l, sort-IsSortedBy (λ at. at) points)
        (sort-All le (λ x. x ≤ end_or ended_at now) points h) e
