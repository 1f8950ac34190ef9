-- ===== src/Shifts/Shift/Duration.antt =====
-- `computeShiftDuration` against the milliseconds that the breaks cover.
use aytrackerv.Prelude.{
  ℕ, ◌+◌, ◌-◌, ◌≤◌, ◌<◌, ◌≡◌, refl, sym, ap, ◌∙◌, fun_ext, inl, inr, Bool-cases, leb→le, Bool, true,
  ◌&&◌, Option, none, some, List, [], ◌∷◌, map, arith, leb, ltb, any, filter, All,
}
use aytrackerv.Prelude.Members.{SameMembers, any-SameMembers, any-filter}
use aytrackerv.Domain.Errors.{ok, is_ok}
use aytrackerv.Domain.Time.{Instant, Interval, round_seconds, merged_interval_seconds}
use aytrackerv.Domain.Time.Coverage.{
  covers, covered, count_below, count_below_ext, count_below_mono, covers_length,
  merged_interval_seconds-coverage,
}
use aytrackerv.Domain.Time.Rounding.{round_seconds_mono}
use aytrackerv.Shifts.Shift.Defs.{
  BreakInterval, ShiftDuration, is_deductible, close_break, as_interval, compute_shift_duration,
}

abbrev ends_after : Option Instant → ℕ → Bool
ends_after none t = true
ends_after (some at) t = ltb t at

-- The break runs at `t`; one with no end runs on.
abbrev pub runs_at : ℕ → BreakInterval → Bool
runs_at t b = leb b.started_at t && ends_after b.ended_at t

-- A break of the list runs at `t`, within a shift that starts at `start`.
abbrev pub on_break_at : Instant → List BreakInterval → ℕ → Bool
on_break_at start bs t = leb start t && any (runs_at t) bs

abbrev pub deductible : List BreakInterval → List BreakInterval
deductible = filter (λ b. is_deductible b.type)

module _ (start end : Instant) where
  close_break-covers :
      (b : BreakInterval) (t : ℕ)
      → t < end
      → covers (as_interval (close_break start end b)) t ≡ (leb start t && runs_at t b)
  unfolding close_break
  close_break-covers b t h = ground arith

  abbrev closed_intervals : List BreakInterval → List Interval
  closed_intervals bs = map as_interval (map (close_break start end) bs)

  closed_intervals-covered :
      (bs : List BreakInterval) (t : ℕ)
      → t < end
      → covered (closed_intervals bs) t ≡ on_break_at start bs t
  closed_intervals-covered [] t h = ground arith
  closed_intervals-covered (b ∷ bs) t h =
      ground (arith, close_break-covers b t h, closed_intervals-covered bs t h)

  close_break-end : (b : BreakInterval) → start ≤ end → (close_break start end b).end ≤ end
  unfolding close_break
  close_break-end b h = ground arith

  closed_intervals-end :
      (bs : List BreakInterval) → start ≤ end → All (λ i. i.end ≤ end) (closed_intervals bs)
  closed_intervals-end [] h = tt
  closed_intervals-end (b ∷ bs) h = (close_break-end b h, closed_intervals-end bs h)

  filter-close_break :
      (bs : List BreakInterval)
      → filter (λ e. is_deductible e.type) (map (close_break start end) bs)
        ≡ map (close_break start end) (deductible bs)
  unfolding close_break
  filter-close_break [] = refl
  filter-close_break (b ∷ bs) = ground (arith, filter-close_break bs)

  closed_seconds :
      (bs : List BreakInterval)
      → start ≤ end
      → merged_interval_seconds (closed_intervals bs)
        ≡ round_seconds (count_below end (on_break_at start bs))
  closed_seconds bs h =
      merged_interval_seconds-coverage end (closed_intervals bs) (closed_intervals-end bs h)
      ∙ ap round_seconds (
          count_below_ext end (covered (closed_intervals bs)) (on_break_at start bs)
            (closed_intervals-covered bs))

  -- The duration that the milliseconds on a break and on a deductible break call for.
  abbrev pub expected_duration : List BreakInterval → ShiftDuration
  expected_duration bs =
      let elapsed = round_seconds (end - start) in
      let unpaid = round_seconds (count_below end (on_break_at start (deductible bs))) in
      record {
        elapsed_seconds = elapsed;
        break_seconds = round_seconds (count_below end (on_break_at start bs));
        unpaid_break_seconds = unpaid;
        worked_seconds = elapsed - unpaid;
      }

  -- Of a shift that does not end before it starts, the break time is the number of milliseconds of
  -- the shift at which some break runs, and the unpaid time that at which some unpaid or meal break
  -- runs, each counted once and rounded to seconds; a break with no end runs to the end of the
  -- shift. The worked time is the elapsed time less the unpaid time.
  pub compute_shift_duration-coverage :
      (bs : List BreakInterval)
      → start ≤ end
      → compute_shift_duration start end bs ≡ ok (expected_duration bs)
  unfolding compute_shift_duration
  compute_shift_duration-coverage bs h =
      rw (filter-close_break bs)
        (ground (arith, closed_seconds bs h, closed_seconds (deductible bs) h))

  on_break_count :
      (bs : List BreakInterval) → start ≤ end → count_below end (on_break_at start bs) ≤ end - start
  on_break_count bs h =
      let whole : Interval = record { start = start; end = end } in
      omega (
        arith,
        count_below_mono end (on_break_at start bs) (covers whole) (λ t k e. ground arith),
        covers_length end whole h (omega arith),
      )

  deductible-any :
      (bs : List BreakInterval) (t : ℕ)
      → any (runs_at t) (deductible bs) ≡ true
      → any (runs_at t) bs ≡ true
  deductible-any [] t h = h
  deductible-any (b ∷ bs) t h = ground (arith, deductible-any bs t)

  deductible_count :
      (bs : List BreakInterval)
      → count_below end (on_break_at start (deductible bs)) ≤ count_below end (on_break_at start bs)
  deductible_count bs =
      count_below_mono end (on_break_at start (deductible bs)) (on_break_at start bs)
        (λ t k e. ground (arith, deductible-any bs t))

  -- Of a shift that does not end before it starts a duration is returned. Its elapsed time is the
  -- rounded span, its unpaid time is at most its break time, its break time at most its elapsed
  -- time, and worked and unpaid time add up to the elapsed time.
  pub compute_shift_duration_bounds :
      (bs : List BreakInterval)
      → start ≤ end
      → (d : ShiftDuration) × (compute_shift_duration start end bs ≡ ok d)
        × (d.elapsed_seconds ≡ round_seconds (end - start))
        × (d.unpaid_break_seconds ≤ d.break_seconds)
        × (d.break_seconds ≤ d.elapsed_seconds)
        × (d.worked_seconds + d.unpaid_break_seconds ≡ d.elapsed_seconds)
  compute_shift_duration_bounds bs h =
      let unpaid_le = round_seconds_mono _ _ (deductible_count bs) in
      let break_le = round_seconds_mono _ _ (on_break_count bs h) in
      (
        expected_duration bs,
        compute_shift_duration-coverage bs h,
        refl,
        unpaid_le,
        break_le,
        omega arith,
      )

  -- A shift is refused exactly if it ends before it starts.
  pub compute_shift_duration-is_ok :
      (bs : List BreakInterval) → is_ok (compute_shift_duration start end bs) ≡ leb start end
  unfolding compute_shift_duration
  compute_shift_duration-is_ok bs = ground arith

module _ (start : Instant) (xs ys : List BreakInterval) (same : SameMembers xs ys) where
  on_break_at_same : on_break_at start xs ≡ on_break_at start ys
  on_break_at_same =
      fun_ext λ t. ap (λ b. leb start t && b) (any-SameMembers (runs_at t) xs ys same)

  deductible_same : on_break_at start (deductible xs) ≡ on_break_at start (deductible ys)
  deductible_same = fun_ext λ t.
      ap (λ b. leb start t && b)
        (any-filter (runs_at t) (λ b. is_deductible b.type) xs
          ∙ any-SameMembers (λ b. is_deductible b.type && runs_at t b) xs ys same
          ∙ sym (any-filter (runs_at t) (λ b. is_deductible b.type) ys))

-- The duration depends only on which break rows there are: neither their order nor a row that
-- stands twice changes it.
pub compute_shift_duration-SameMembers :
    (start end : Instant) (xs ys : List BreakInterval)
    → SameMembers xs ys
    → compute_shift_duration start end xs ≡ compute_shift_duration start end ys
unfolding compute_shift_duration
compute_shift_duration-SameMembers start end xs ys same = elim (Bool-cases (leb start end)) [
  | inl runs ↦
      let h = leb→le start end runs in
      compute_shift_duration-coverage start end xs h
      ∙ rw (on_break_at_same start xs ys same, deductible_same start xs ys same)
          (sym (compute_shift_duration-coverage start end ys h))
  | inr ends_early ↦ ground arith
]
