-- ===== src/Fleet/Expiration/Urgency.antt =====
-- The urgency of a document, and the order of the list.
use aytrackerv.Prelude.{
  ℕ, ◌+◌, ◌*◌, ◌≤◌, ◌≡◌, refl, sym, ◌∙◌, Bool, true, false, not, inl, inr, Option, none, some, List,
  [], ◌∷◌, Perm, map, filter, arith, ltb, max, ◌==◌, if◌then◌else◌, Bool-cases, All,
}
use aytrackerv.Prelude.Int.{ℤ, pos, negsuc, is_negative}
use aytrackerv.Prelude.Sort.{IsSorted, IsComparator, sort, sort-All, sort-IsSorted, sort-perm}
use aytrackerv.Domain.Time.{Instant}
use aytrackerv.Fleet.Expiration.{
  ExpirableItem, ExpirationStatus, day, days_between, status_in, status_until, evaluate_expiration,
  severity_order, days_or_zero, is_fine, is_as_urgent, pending_expirations, le_ℤ,
}

le_ℤ-days_between :
    (now later at : Instant)
    → now ≤ later
    → le_ℤ (days_between later at) (days_between now at) ≡ true
unfolding days_between
le_ℤ-days_between now later at h = ground arith

status_in_mono :
    (item : ExpirableItem) (a b : ℤ)
    → le_ℤ a b ≡ true
    → severity_order (status_in item a).severity ≤ severity_order (status_in item b).severity
status_in_mono item (pos a) (pos b) h = ground arith
status_in_mono item (pos a) (negsuc b) h = ground arith
status_in_mono item (negsuc a) (pos b) h = ground arith
status_in_mono item (negsuc a) (negsuc b) h = ground arith

status_until_mono :
    (item : ExpirableItem) (now later : Instant) (ends : Option Instant)
    → now ≤ later
    → severity_order (status_until item later ends).severity
      ≤ severity_order (status_until item now ends).severity
status_until_mono item now later none h = omega arith
status_until_mono item now later (some at) h =
    status_in_mono item (days_between later at) (days_between now at)
      (le_ℤ-days_between now later at h)

-- As time passes, a document only becomes more urgent.
pub evaluate_expiration_mono :
    (item : ExpirableItem) (now later : Instant)
    → now ≤ later
    → severity_order (evaluate_expiration item later).severity
      ≤ severity_order (evaluate_expiration item now).severity
unfolding evaluate_expiration
evaluate_expiration_mono item now later h = status_until_mono item now later item.expires_at h

is_as_urgent-IsComparator : IsComparator is_as_urgent
is_as_urgent-IsComparator = record {
  total = λ x y h. ground arith;
  trans = λ x y z h k. ground arith;
}

-- The document has an end, and it comes before the day after the last one on which it is reported:
-- a week, or the days that are configured where these are more.
abbrev pub ends_before : Instant → ℕ → Option Instant → Bool
ends_before now days none = false
ends_before now days (some at) = ltb at (now + (days + 1) * day)

abbrev pub is_pending : Instant → ExpirableItem → Bool
is_pending now item = ends_before now (max 7 item.reminder_days) item.expires_at

-- Both have a number of days left, the first no more than the second.
abbrev pub IsNoLater : Option ℤ → Option ℤ → Type 0
IsNoLater none other = ⊥
IsNoLater (some a) none = ⊥
IsNoLater (some a) (some b) = le_ℤ a b ≡ true

-- The days that are left ascend.
abbrev pub IsByDays : List ExpirationStatus → Type 0
IsByDays [] = Unit
IsByDays (s ∷ statuses) =
    All (λ t. IsNoLater s.days_remaining t.days_remaining) statuses × IsByDays statuses

-- The severity by the days alone, of a document that is not fine.
abbrev rank : ℤ → ℕ
rank days = if is_negative days then 0 else if le_ℤ days (pos 7) then 1 else 2

IsJudged : ExpirationStatus → Type 0
IsJudged s = (days : ℤ) × (s.days_remaining ≡ some days) × (severity_order s.severity ≡ rank days)

is_pending-status :
    (item : ExpirableItem) (now : Instant) (ends : Option Instant)
    → not (is_fine (status_until item now ends).severity)
      ≡ ends_before now (max 7 item.reminder_days) ends
unfolding days_between
is_pending-status item now none = refl
is_pending-status item now (some at) = ground arith

status_in-rank :
    (item : ExpirableItem) (days : ℤ)
    → not (is_fine (status_in item days).severity) ≡ true
    → (severity_order (status_in item days).severity ≡ rank days)
      × ((status_in item days).days_remaining ≡ some days)
status_in-rank item days h = (ground arith, ground arith)

status_until-IsJudged :
    (item : ExpirableItem) (now : Instant) (ends : Option Instant)
    → not (is_fine (status_until item now ends).severity) ≡ true
    → IsJudged (status_until item now ends)
unfolding IsJudged
status_until-IsJudged item now none h = cc
status_until-IsJudged item now (some at) h =
    let days = days_between now at in let (r, d) = status_in-rank item days h in (days, d, r)

filter-IsJudged :
    (items : List ExpirableItem) (now : Instant)
    → All IsJudged (
        filter
          (λ status. not (is_fine status.severity))
          (map (λ item. evaluate_expiration item now) items))
unfolding evaluate_expiration
filter-IsJudged [] now = tt
filter-IsJudged (item ∷ items) now =
    elim (Bool-cases (not (is_fine (evaluate_expiration item now).severity))) [
      | inl e ↦ rw e (status_until-IsJudged item now item.expires_at e, filter-IsJudged items now)
      | inr e ↦ rw e (filter-IsJudged items now)
    ]

rank_mono :
    (a b : ℤ)
    → (if rank a == rank b then le_ℤ a b else ltb (rank a) (rank b)) ≡ true
    → le_ℤ a b ≡ true
rank_mono (pos a) (pos b) h = ground arith
rank_mono (pos a) (negsuc b) h = ground arith
rank_mono (negsuc a) (pos b) h = ground arith
rank_mono (negsuc a) (negsuc b) h = ground arith

-- The comparator, of two severities and two numbers of days.
abbrev urgent_by : ℕ → ℕ → Option ℤ → Option ℤ → Bool
urgent_by m n x y = if m == n then le_ℤ (days_or_zero x) (days_or_zero y) else ltb m n

urgent_by-le_ℤ :
    (m n : ℕ) (x y : Option ℤ) (a b : ℤ)
    → x ≡ some a
    → y ≡ some b
    → m ≡ rank a
    → n ≡ rank b
    → urgent_by m n x y ≡ true
    → le_ℤ a b ≡ true
urgent_by-le_ℤ m n x y a b ea eb em en h =
    let e : urgent_by m n x y ≡ urgent_by (rank a) (rank b) (some a) (some b) =
      rw (ea, eb, em, en) refl in
    rank_mono a b (sym e ∙ h)

is_as_urgent-IsNoLater :
    (s t : ExpirationStatus)
    → IsJudged s
    → IsJudged t
    → is_as_urgent s t ≡ true
    → IsNoLater s.days_remaining t.days_remaining
unfolding IsJudged
is_as_urgent-IsNoLater s t (a, left_a, rank_a) (b, left_b, rank_b) h =
    rw (left_a, left_b)
      (urgent_by-le_ℤ (severity_order s.severity) (severity_order t.severity) s.days_remaining
        t.days_remaining a b left_a left_b rank_a rank_b h)

All-IsNoLater :
    (s : ExpirationStatus) (statuses : List ExpirationStatus)
    → IsJudged s
    → All IsJudged statuses
    → All (λ t. is_as_urgent s t ≡ true) statuses
    → All (λ t. IsNoLater s.days_remaining t.days_remaining) statuses
All-IsNoLater s [] j js h = tt
All-IsNoLater s (t ∷ statuses) j js h =
    (is_as_urgent-IsNoLater s t j js.0 h.0, All-IsNoLater s statuses j js.1 h.1)

sorted-IsByDays :
    (statuses : List ExpirationStatus)
    → All IsJudged statuses
    → IsSorted is_as_urgent statuses
    → IsByDays statuses
sorted-IsByDays [] js h = tt
sorted-IsByDays (s ∷ statuses) js h =
    (All-IsNoLater s statuses js.0 js.1 h.0, sorted-IsByDays statuses js.1 h.1)

filter-is_pending :
    (items : List ExpirableItem) (now : Instant)
    → filter
        (λ status. not (is_fine status.severity))
        (map (λ item. evaluate_expiration item now) items)
      ≡ map (λ item. evaluate_expiration item now) (filter (is_pending now) items)
unfolding evaluate_expiration
filter-is_pending [] now = refl
filter-is_pending (item ∷ items) now =
    ground (arith, filter-is_pending items now, is_pending-status item now item.expires_at)

-- The list has the statuses of exactly the documents that end within a week, or within the days
-- that are configured where these are more, those that have ended among them, each as often as the
-- document is given. The days that are left ascend along it.
pub pending_expirations-IsSorted :
    (items : List ExpirableItem) (now : Instant)
    → IsByDays (pending_expirations items now)
      × Perm
          (pending_expirations items now)
          (map (λ item. evaluate_expiration item now) (filter (is_pending now) items))
unfolding pending_expirations
pending_expirations-IsSorted items now =
    let listed =
      filter (λ status. not (is_fine status.severity))
        (map (λ item. evaluate_expiration item now) items) in
    (
      sorted-IsByDays (sort is_as_urgent listed)
          (sort-All is_as_urgent IsJudged listed (filter-IsJudged items now))
          (sort-IsSorted is_as_urgent is_as_urgent-IsComparator listed),
      rw (← filter-is_pending items now) (sort-perm is_as_urgent listed),
    )
