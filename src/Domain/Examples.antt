-- ===== src/Domain/Examples.antt =====
-- Runs of the time arithmetic, and its theorems at concrete inputs.
use aytrackerv.Prelude.{◌≡◌, refl, List, [], ◌∷◌, arith}
use aytrackerv.Prelude.Sort.{sort}
use aytrackerv.Domain.Time.{Interval, merged_interval_seconds, round_seconds}
use aytrackerv.Domain.Time.Coverage.{count_below, covered, merged_interval_seconds-coverage}

-- Out of order, one overlapping, one empty.
abbrev intervals : List Interval
intervals =
    record { start = 6_000; end = 9_000 }
    ∷ record { start = 1_000; end = 3_000 }
    ∷ record { start = 2_000; end = 4_000 }
    ∷ record { start = 5_000; end = 5_000 }
    ∷ []

six_seconds : merged_interval_seconds intervals ≡ 6
unfolding merged_interval_seconds sort
six_seconds = refl

merged_interval_seconds-coverage_example :
    merged_interval_seconds intervals ≡ round_seconds (count_below 9_000 (covered intervals))
merged_interval_seconds-coverage_example =
    merged_interval_seconds-coverage 9_000 intervals (omega arith)
