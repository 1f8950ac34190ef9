-- ===== src/Drivers/Trip/Totals.antt =====
-- What the totals of a trip add up to.
use aytrackerv.Prelude.{
  ℕ, ◌+◌, ◌-◌, ◌*◌, ◌≤◌, ◌≡◌, refl, List, [], ◌∷◌, foldl, min, max, arith, length, sum_by,
}
use aytrackerv.Domain.Errors.{ok}
use aytrackerv.Domain.Time.{Instant, end_or, round_seconds, seconds_between}
use aytrackerv.Domain.Time.Rounding.{round_seconds_near}
use aytrackerv.Drivers.Trip.Defs.{PauseInterval, TripTotals, add_pause, compute_trip_totals}

module _ (start end : Instant) where
  -- The milliseconds of the trip that lie in a pause.
  abbrev pub paused_ms : PauseInterval → ℕ
  paused_ms p = min (end_or p.ended_at end) end - max p.started_at start

  foldl-add_pause :
      (ps : List PauseInterval) (acc : ℕ)
      → foldl (add_pause start end) acc ps ≡ acc + sum_by (λ p. round_seconds (paused_ms p)) ps
  unfolding add_pause seconds_between
  foldl-add_pause [] acc = omega arith
  foldl-add_pause (p ∷ ps) acc = omega (arith, foldl-add_pause ps (add_pause start end acc p))

  -- The pauses follow one another, from `cursor` on; one that has no end is the last.
  abbrev pub AreApart : Instant → List PauseInterval → Type 0
  AreApart cursor [] = Unit
  AreApart cursor (p ∷ ps) =
      (cursor ≤ p.started_at)
      × (p.started_at ≤ end_or p.ended_at end)
      × AreApart (end_or p.ended_at end) ps

  sum-paused_ms :
      (cursor : Instant) (ps : List PauseInterval)
      → AreApart cursor ps
      → sum_by paused_ms ps ≤ end - max cursor start
  sum-paused_ms cursor [] h = omega arith
  sum-paused_ms cursor (p ∷ ps) h = omega (arith, sum-paused_ms (end_or p.ended_at end) ps h.2)

  rounded_pauses :
      (ps : List PauseInterval)
      → sum_by (λ p. round_seconds (paused_ms p)) ps * 1000 ≤ sum_by paused_ms ps + 500 * length ps
  rounded_pauses [] = omega arith
  rounded_pauses (p ∷ ps) = omega (arith, round_seconds_near (paused_ms p), rounded_pauses ps)

  rounded_pauses_above :
      (ps : List PauseInterval)
      → sum_by paused_ms ps ≤ sum_by (λ p. round_seconds (paused_ms p)) ps * 1000 + 500 * length ps
  rounded_pauses_above [] = omega arith
  rounded_pauses_above (p ∷ ps) =
      omega (arith, round_seconds_near (paused_ms p), rounded_pauses_above ps)

  -- Of a trip that does not end before it starts, with pauses that follow one another, totals are
  -- returned. The paused time differs from the milliseconds of the trip that lie in pauses by at
  -- most half a second for each pause, and these milliseconds are at most the trip's. Duration and
  -- paused time make up the elapsed time, or the duration is 0 where the paused time is more. The
  -- untracked time is the lesser of the gaps that were measured and the duration.
  pub compute_trip_totals_bounds :
      (ps : List PauseInterval) (gap_seconds : ℕ)
      → start ≤ end
      → AreApart start ps
      → (d : TripTotals) × (compute_trip_totals start end ps gap_seconds ≡ ok d)
        × (d.elapsed_seconds ≡ round_seconds (end - start))
        × (d.paused_seconds * 1000 ≤ sum_by paused_ms ps + 500 * length ps)
        × (sum_by paused_ms ps ≤ d.paused_seconds * 1000 + 500 * length ps)
        × (sum_by paused_ms ps ≤ end - start)
        × (d.duration_seconds + min d.paused_seconds d.elapsed_seconds ≡ d.elapsed_seconds)
        × (d.untracked_seconds ≡ min gap_seconds d.duration_seconds)
  unfolding compute_trip_totals
  compute_trip_totals_bounds ps gap_seconds h apart =
      let paused = foldl (add_pause start end) 0 ps in
      let elapsed = round_seconds (end - start) in
      let d : TripTotals = record {
        elapsed_seconds = elapsed;
        paused_seconds = paused;
        duration_seconds = elapsed - paused;
        untracked_seconds = min gap_seconds (elapsed - paused);
      } in
      (
        d,
        ground arith,
        refl,
        omega (arith, foldl-add_pause ps 0, rounded_pauses ps),
        omega (arith, foldl-add_pause ps 0, rounded_pauses_above ps),
        omega (arith, sum-paused_ms start ps apart),
        omega arith,
        refl,
      )
