-- ===== src/Shifts/PositionSession/Summary.antt =====
-- What the totals per position add up to: `summarizeByPosition` of
-- modules/shifts/src/domain/position-session.ts.
use aytrackerv.Prelude.{
  ℕ, ◌+◌, ◌≤◌, ◌≡◌, refl, ◌∙◌, List, [], ◌∷◌, map, foldl, arith, ltb, ◌==◌, if◌then◌else◌, All,
  length, filter, sum_by, none, is_some, ◌||◌, true,
}
use aytrackerv.Prelude.Maps.{IdMap, get, set, IsIdMap, get-set, set-IsIdMap, entries-All}
use aytrackerv.Prelude.Sort.{sort, sort-All, IsSorted, IsComparator, sort-IsSorted, sum_by-sort}
use aytrackerv.Domain.Time.{Instant}
use aytrackerv.Shifts.PositionSession.Defs.{
  PositionSessionState, PositionTotal, Tally, tally_or_zero, add_session, to_total, longest_first,
  session_seconds, summarize_by_position,
}

-- The time and the number of the sessions at one position.
abbrev pub at_position : ℕ → List PositionSessionState → List PositionSessionState
at_position p = filter (λ s. p == s.position_id)

abbrev pub seconds_at : Instant → ℕ → List PositionSessionState → ℕ
seconds_at now p ss = sum_by (session_seconds now) (at_position p ss)

abbrev pub count_at : ℕ → List PositionSessionState → ℕ
count_at p ss = length (at_position p ss)

abbrev entries_seconds : IdMap Tally → ℕ
entries_seconds = sum_by (λ e. e.1.seconds)

abbrev entries_count : IdMap Tally → ℕ
entries_count = sum_by (λ e. e.1.session_count)

entries-set :
    (k : ℕ) (v : Tally) (d : IdMap Tally)
    → let old = tally_or_zero (get k d) in
      (entries_seconds (set k v d) + old.seconds ≡ entries_seconds d + v.seconds)
      × (entries_count (set k v d) + old.session_count ≡ entries_count d + v.session_count)
entries-set k v [] = omega arith
entries-set k v (e ∷ d) = ground (arith, entries-set k v d)

module _ (now : Instant) where
  abbrev totals_from : IdMap Tally → List PositionSessionState → IdMap Tally
  totals_from = foldl (add_session now)

  add_session-get :
      (p : ℕ) (d : IdMap Tally) (s : PositionSessionState)
      → tally_or_zero (get p (add_session now d s)) ≡ (
          if p == s.position_id
          then record {
            seconds = (tally_or_zero (get p d)).seconds + session_seconds now s;
            session_count = (tally_or_zero (get p d)).session_count + 1;
          }
          else tally_or_zero (get p d))
  unfolding add_session
  add_session-get p d s =
      let existing = tally_or_zero (get s.position_id d) in
      let value : Tally = record {
        seconds = existing.seconds + session_seconds now s;
        session_count = existing.session_count + 1;
      } in
      ground (arith, get-set p s.position_id value d)

  totals_from-get :
      (p : ℕ) (ss : List PositionSessionState) (d : IdMap Tally)
      → let before = tally_or_zero (get p d) in
        tally_or_zero (get p (totals_from d ss)) ≡ record {
          seconds = before.seconds + seconds_at now p ss;
          session_count = before.session_count + count_at p ss;
        }
  totals_from-get p [] d = ground arith
  totals_from-get p (s ∷ ss) d =
      ground (arith, totals_from-get p ss (add_session now d s), add_session-get p d s)

  totals_from-IsIdMap :
      (ss : List PositionSessionState) (d : IdMap Tally) → IsIdMap d → IsIdMap (totals_from d ss)
  unfolding add_session
  totals_from-IsIdMap [] d h = h
  totals_from-IsIdMap (s ∷ ss) d h =
      totals_from-IsIdMap ss (add_session now d s) (set-IsIdMap s.position_id _ d h)

  totals_from-entries :
      (ss : List PositionSessionState) (d : IdMap Tally)
      → (entries_seconds (totals_from d ss) ≡ entries_seconds d + sum_by (session_seconds now) ss)
        × (entries_count (totals_from d ss) ≡ entries_count d + length ss)
  unfolding add_session
  totals_from-entries [] d = omega arith
  totals_from-entries (s ∷ ss) d =
      let existing = tally_or_zero (get s.position_id d) in
      let value : Tally = record {
        seconds = existing.seconds + session_seconds now s;
        session_count = existing.session_count + 1;
      } in
      omega (
        arith,
        entries-set s.position_id value d,
        totals_from-entries ss (set s.position_id value d),
      )

abbrev pub sum_seconds : List PositionTotal → ℕ
sum_seconds = sum_by (λ r. r.seconds)

abbrev pub sum_count : List PositionTotal → ℕ
sum_count = sum_by (λ r. r.session_count)

map-entries :
    (d : IdMap Tally)
    → (sum_seconds (map to_total d) ≡ entries_seconds d)
      × (sum_count (map to_total d) ≡ entries_count d)
map-entries [] = (refl, refl)
map-entries (e ∷ d) = omega (arith, map-entries d)

-- The row holds the time and the number of the sessions at its position.
abbrev pub IsTotalOf : Instant → List PositionSessionState → PositionTotal → Type 0
IsTotalOf now ss row =
    (row.seconds ≡ seconds_at now row.position_id ss)
    × (row.session_count ≡ count_at row.position_id ss)

map-IsTotalOf :
    (now : Instant) (ss : List PositionSessionState) (d : IdMap Tally)
    → All (λ e. IsTotalOf now ss (to_total e)) d
    → All (IsTotalOf now ss) (map to_total d)
map-IsTotalOf now ss [] h = tt
map-IsTotalOf now ss (e ∷ d) h = (h.0, map-IsTotalOf now ss d h.1)

longest_first-IsComparator : IsComparator longest_first
longest_first-IsComparator = record {
  total = λ x y h. ground arith;
  trans = λ x y z h k. ground arith;
}

-- Each row has at least the time of all that stand behind it.
abbrev pub IsDescending : List PositionTotal → Type 0
IsDescending [] = Unit
IsDescending (r ∷ rows) = All (λ q. q.seconds ≤ r.seconds) rows × IsDescending rows

longest-All :
    (r : PositionTotal) (rows : List PositionTotal)
    → All (λ q. longest_first r q ≡ true) rows
    → All (λ q. q.seconds ≤ r.seconds) rows
longest-All r [] h = tt
longest-All r (q ∷ rows) h = (ground (arith, h.0), longest-All r rows h.1)

sorted-IsDescending : (rows : List PositionTotal) → IsSorted longest_first rows → IsDescending rows
sorted-IsDescending [] h = tt
sorted-IsDescending (r ∷ rows) h = (longest-All r rows h.0, sorted-IsDescending rows h.1)

-- The rows of one position.
abbrev pub rows_at : ℕ → List PositionTotal → ℕ
rows_at p = sum_by (λ r. if p == r.position_id then 1 else 0)

absent_row : (p : ℕ) (d : IdMap Tally) → get p d ≡ none → rows_at p (map to_total d) ≡ 0
absent_row p [] h = refl
absent_row p (e ∷ d) h = ground (arith, absent_row p d)

rows_at-get :
    (p : ℕ) (d : IdMap Tally)
    → IsIdMap d
    → rows_at p (map to_total d) ≡ (if is_some (get p d) then 1 else 0)
rows_at-get p [] h = refl
rows_at-get p (e ∷ d) h = ground (arith, rows_at-get p d h.1, absent_row e.0 d h.0)

some-get :
    (now : Instant) (p : ℕ) (ss : List PositionSessionState) (d : IdMap Tally)
    → is_some (get p (totals_from now d ss)) ≡ (is_some (get p d) || ltb 0 (count_at p ss))
unfolding add_session
some-get now p [] d = ground arith
some-get now p (s ∷ ss) d =
    let existing = tally_or_zero (get s.position_id d) in
    let value : Tally = record {
      seconds = existing.seconds + session_seconds now s;
      session_count = existing.session_count + 1;
    } in
    ground (arith, some-get now p ss (add_session now d s), get-set p s.position_id value d)

-- The summary has one row for each position that has a session, and none for any other. The row
-- holds the time and the number of the sessions at its position, the rows stand in descending order
-- of time, and together they hold the time of all sessions, and as many sessions as there are.
pub summarize_by_position_totals :
    (ss : List PositionSessionState) (now : Instant)
    → let rows = summarize_by_position ss now in
      ((p : ℕ) → rows_at p rows ≡ (if ltb 0 (count_at p ss) then 1 else 0))
      × All (IsTotalOf now ss) rows
      × IsDescending rows
      × (sum_seconds rows ≡ sum_by (session_seconds now) ss)
      × (sum_count rows ≡ length ss)
unfolding summarize_by_position
summarize_by_position_totals ss now =
    let totals = totals_from now [] ss in
    let rows = map to_total totals in
    (
      (λ p.
          sum_by-sort longest_first (λ r. if p == r.position_id then 1 else 0) rows
          ∙ ground (
            arith,
            rows_at-get p totals (totals_from-IsIdMap now ss [] tt),
            some-get now p ss [],
          )),
      sort-All longest_first (IsTotalOf now ss) rows (
          map-IsTotalOf now ss totals (
            entries-All (λ k v. IsTotalOf now ss (to_total (k, v))) totals
              (totals_from-IsIdMap now ss [] tt)
              (λ k v found. ground (arith, totals_from-get now k ss [])))),
      sorted-IsDescending (sort longest_first rows)
          (sort-IsSorted longest_first longest_first-IsComparator rows),
      sum_by-sort longest_first (λ r. r.seconds) rows
          ∙ omega (arith, map-entries totals, totals_from-entries now ss []),
      sum_by-sort longest_first (λ r. r.session_count) rows
          ∙ omega (arith, map-entries totals, totals_from-entries now ss []),
    )
