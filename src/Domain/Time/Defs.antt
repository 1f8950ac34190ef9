-- ===== src/Domain/Time/Defs.antt =====
-- packages/domain/src/time.ts. An instant is its `getTime()`, counted in milliseconds from the
-- earliest instant that a JavaScript `Date` holds, so that every instant is a natural number; the
-- code only compares and subtracts instants.
use aytrackerv.Prelude.{
  ℕ, ◌+◌, ◌-◌, ◌/◌, Bool, Option, none, some, List, [], ◌∷◌, max, ltb, leb, if◌then◌else◌, filter,
}
use aytrackerv.Prelude.Sort.{sort, le_by}

abbrev pub Instant : Type 0
Instant = ℕ

-- `Math.round(ms / 1000)` for a span that is not negative.
unfoldable pub round_seconds : ℕ → ℕ
round_seconds ms = (ms + 500) / 1000

-- `Math.max(0, Math.round((to - from) / 1000))`: a negative span rounds to 0 or below.
unfoldable pub seconds_between : Instant → Instant → ℕ
unfolding round_seconds
seconds_between from to = round_seconds (to - from)

-- `end ?? otherwise`
abbrev pub end_or : Option Instant → Instant → Instant
end_or none otherwise = otherwise
end_or (some at) _ = at

pub record Interval : Type 0 where
  pub start : Instant
  pub end : Instant

-- `i.end.getTime() > i.start.getTime()`
abbrev pub is_positive : Interval → Bool
is_positive i = ltb i.start i.end

-- The loop of `mergedIntervalSeconds`, with the total and the interval that is being extended.
unfoldable pub merge_loop : List Interval → ℕ → Instant → Instant → ℕ
merge_loop [] total current_start current_end = total + (current_end - current_start)
merge_loop (interval ∷ rest) total current_start current_end =
    let joins = leb interval.start current_end in
    merge_loop rest (if joins then total else total + (current_end - current_start))
      (if joins then current_start else interval.start)
      (if joins then max current_end interval.end else interval.end)

-- The milliseconds that the loop adds up, of intervals already sorted.
unfoldable pub merge_sorted : List Interval → ℕ
unfolding merge_loop
merge_sorted [] = 0
merge_sorted (first ∷ rest) = merge_loop rest 0 first.start first.end

unfoldable pub merged_interval_seconds : List Interval → ℕ
unfolding merge_sorted round_seconds
merged_interval_seconds intervals =
    round_seconds (merge_sorted (sort (le_by (λ i. i.start)) (filter is_positive intervals)))

-- `clampInstant`, and the private `clamp` of shift.ts.
unfoldable pub clamp_instant : Instant → Instant → Instant → Instant
clamp_instant instant min max =
    if ltb instant min then min else if ltb max instant then max else instant
