-- ===== src/Domain/Time/Coverage.antt =====
-- The merging loop against the set of milliseconds that the intervals cover.
use aytrackerv.Prelude.{
  ℕ, zero, suc, ◌+◌, ◌-◌, ◌≤◌, ◌<◌, ◌≡◌, refl, sym, ap, ◌∙◌, Bool, true, false, ◌&&◌, ◌||◌, inl,
  inr, List, [], ◌∷◌, max, arith, ltb, leb, if◌then◌else◌, any, filter, All, Bool-cases, leb→le,
}
use aytrackerv.Prelude.Sort.{sort, le_by, any-sort, sort-All, IsSortedBy, sort-IsSortedBy}
use aytrackerv.Domain.Time.Defs.{
  Interval, is_positive, merge_loop, merge_sorted, merged_interval_seconds, round_seconds,
}

-- The millisecond that begins at `t` lies in the interval.
abbrev pub covers : Interval → ℕ → Bool
covers i t = leb i.start t && ltb t i.end

abbrev pub covered : List Interval → ℕ → Bool
covered is t = any (λ i. covers i t) is

-- How many numbers below `n` satisfy a test.
unfoldable pub count_below : ℕ → (ℕ → Bool) → ℕ
count_below zero p = 0
count_below (suc n) p = (if p n then 1 else 0) + count_below n p

pub count_below_ext :
    (n : ℕ) (p q : ℕ → Bool) → ((t : ℕ) → t < n → p t ≡ q t) → count_below n p ≡ count_below n q
unfolding count_below
count_below_ext zero p q h = refl
count_below_ext (suc n) p q h =
    rw (h n (omega arith)) (omega (arith, count_below_ext n p q (λ t k. h t (omega arith))))

pub count_below_mono :
    (n : ℕ) (p q : ℕ → Bool)
    → ((t : ℕ) → t < n → p t ≡ true → q t ≡ true)
    → count_below n p ≤ count_below n q
unfolding count_below
count_below_mono zero p q h = omega arith
count_below_mono (suc n) p q h =
    ground (arith, h n, count_below_mono n p q (λ t k. h t (omega arith)))

count_below_disjoint :
    (n : ℕ) (p q : ℕ → Bool)
    → ((t : ℕ) → p t ≡ true → q t ≡ false)
    → count_below n (λ t. p t || q t) ≡ count_below n p + count_below n q
unfolding count_below
count_below_disjoint zero p q h = omega arith
count_below_disjoint (suc n) p q h = ground (arith, h n, count_below_disjoint n p q h)

-- Of the milliseconds below `n`, those in one interval, cut off at `n`.
count_below-covers :
    (n : ℕ) (i : Interval)
    → i.start ≤ i.end
    → count_below n (covers i)
      ≡ (if leb n i.start then 0 else if leb n i.end then n - i.start else i.end - i.start)
unfolding count_below
count_below-covers zero i h = ground arith
count_below-covers (suc n) i h = ground (arith, count_below-covers n i h)

pub covers_length :
    (n : ℕ) (i : Interval)
    → i.start ≤ i.end
    → i.end ≤ n
    → count_below n (covers i) ≡ i.end - i.start
covers_length n i h k = ground (arith, count_below-covers n i h)

-- Nothing is covered before the first start.
covered_before :
    (b t : ℕ) (is : List Interval) → All (λ i. b ≤ i.start) is → t < b → covered is t ≡ false
covered_before b t [] h k = refl
covered_before b t (i ∷ is) h k = ground (arith, covered_before b t is h.1 k)

abbrev IsWithin : ℕ → Interval → Type 0
IsWithin n i = (i.start < i.end) × (i.end ≤ n)

abbrev span : ℕ → ℕ → Interval
span s e = record { start = s; end = e }

join_covers :
    (cs ce : ℕ) (i : Interval) (b : Bool) (t : ℕ)
    → cs ≤ i.start
    → i.start ≤ ce
    → (covers (span cs ce) t || (covers i t || b)) ≡ (covers (span cs (max ce i.end)) t || b)
join_covers cs ce i b t h k = ground arith

or_false : (b : Bool) → (b || false) ≡ b
or_false b = ground arith

single_count : (n : ℕ) (i : Interval) → count_below n (covered (i ∷ [])) ≡ count_below n (covers i)
single_count n i = count_below_ext n (covered (i ∷ [])) (covers i) (λ t _. or_false (covers i t))

joined_count :
    (n cs ce : ℕ) (i : Interval) (is : List Interval)
    → cs ≤ i.start
    → i.start ≤ ce
    → count_below n (covered (span cs ce ∷ i ∷ is))
      ≡ count_below n (covered (span cs (max ce i.end) ∷ is))
joined_count n cs ce i is h k =
    count_below_ext n (covered (span cs ce ∷ i ∷ is)) (covered (span cs (max ce i.end) ∷ is))
      (λ t _. join_covers cs ce i (covered is t) t h k)

apart_count :
    (n cs ce : ℕ) (i : Interval) (is : List Interval)
    → ce < i.start
    → All (λ j. i.start ≤ j.start) is
    → count_below n (covered (span cs ce ∷ i ∷ is))
      ≡ count_below n (covers (span cs ce)) + count_below n (covered (i ∷ is))
apart_count n cs ce i is h l =
    count_below_disjoint n (covers (span cs ce)) (covered (i ∷ is))
      (λ t c. covered_before i.start t (i ∷ is) (omega arith, l) (ground arith))

count_below_none : (n : ℕ) → count_below n (λ t. false) ≡ 0
unfolding count_below
count_below_none zero = refl
count_below_none (suc n) = omega (arith, count_below_none n)

-- The loop adds what the open interval and the rest cover together.
merge_loop-count :
    (n : ℕ) (is : List Interval) (total cs ce : ℕ)
    → cs ≤ ce
    → ce ≤ n
    → All (IsWithin n) is
    → All (λ i. cs ≤ i.start) is
    → IsSortedBy (λ i. i.start) is
    → merge_loop is total cs ce ≡ total + count_below n (covered (span cs ce ∷ is))
unfolding merge_loop
merge_loop-count n [] total cs ce h k w l s =
    omega (arith, single_count n (span cs ce), covers_length n (span cs ce) h k)
merge_loop-count n (i ∷ is) total cs ce h k w l s = elim (Bool-cases (leb i.start ce)) [
  | inl joins ↦ rw joins (
      merge_loop-count n is total cs (max ce i.end) (omega arith) (omega arith) w.1 l.1 s.1
      ∙ ap (λ (c : ℕ). total + c) (sym (joined_count n cs ce i is l.0 (leb→le _ _ joins))))
  | inr apart ↦ rw apart (
      merge_loop-count n is (total + (ce - cs)) i.start i.end (omega arith) w.0.1 w.1 s.0 s.1
      ∙ omega
          (arith, apart_count n cs ce i is (ground arith) s.0, covers_length n (span cs ce) h k))
]

filter-IsWithin :
    (n : ℕ) (is : List Interval)
    → All (λ i. i.end ≤ n) is
    → All (IsWithin n) (filter is_positive is)
filter-IsWithin n [] h = tt
filter-IsWithin n (i ∷ is) h = ground (arith, filter-IsWithin n is h.1)

covered-filter : (is : List Interval) (t : ℕ) → covered (filter is_positive is) t ≡ covered is t
covered-filter [] t = refl
covered-filter (i ∷ is) t = ground (arith, covered-filter is t)

merge_sorted-count :
    (n : ℕ) (is : List Interval)
    → All (IsWithin n) is
    → IsSortedBy (λ i. i.start) is
    → merge_sorted is ≡ count_below n (covered is)
unfolding merge_sorted
merge_sorted-count n [] w s = sym (count_below_none n)
merge_sorted-count n (i ∷ is) w s =
    merge_loop-count n is 0 i.start i.end (omega arith) w.0.1 w.1 s.0 s.1 ∙ omega arith

-- The merged total is the number of milliseconds that at least one interval covers, rounded to
-- seconds, for any bound `n` on the ends of the intervals.
pub merged_interval_seconds-coverage :
    (n : ℕ) (is : List Interval)
    → All (λ i. i.end ≤ n) is
    → merged_interval_seconds is ≡ round_seconds (count_below n (covered is))
unfolding merged_interval_seconds
merged_interval_seconds-coverage n is h =
    let sorted : List Interval = sort (le_by (λ i. i.start)) (filter is_positive is) in
    ap round_seconds (
      merge_sorted-count n sorted
        (sort-All (le_by (λ i. i.start)) (IsWithin n) (filter is_positive is)
          (filter-IsWithin n is h))
        (sort-IsSortedBy (λ i. i.start) (filter is_positive is))
      ∙ count_below_ext n (covered sorted) (covered is) (λ t _.
        any-sort (le_by (λ i. i.start)) (λ i. covers i t) (filter is_positive is)
        ∙ covered-filter is t))
