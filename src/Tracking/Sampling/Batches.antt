-- ===== src/Tracking/Sampling/Batches.antt =====
-- What a server keeps of a batch that arrives too fast.
use aytrackerv.Prelude.{
  ℕ, ◌+◌, ◌*◌, ◌≤◌, ◌≡◌, sym, subst, inl, inr, Bool, true, false, ◌||◌, ◌&&◌, Option, none, some,
  List, [], ◌∷◌, arith, ltb, leb, ◌==◌, any, length, Bool-cases, All,
}
use aytrackerv.Prelude.Sort.{
  sort, le_by, length-sort, All-sort, IsSorted, sort-IsSorted, le_by-IsComparator,
}
use aytrackerv.Domain.Time.{Instant}
use aytrackerv.Tracking.Sampling.{is_due, accept_due, admit_points}

-- At least a number of seconds behind an instant, if there is one.
abbrev pub IsBehind : ℕ → Option Instant → Instant → Type 0
IsBehind seconds none at = Unit
IsBehind seconds (some before) at = before + seconds * 1000 ≤ at

-- Less than a number of seconds behind an instant, if there is one, or before it.
abbrev pub is_early : ℕ → Option Instant → Instant → Bool
is_early seconds none at = false
is_early seconds (some before) at = ltb at (before + seconds * 1000)

-- At an instant, or behind it by less than a number of seconds.
abbrev pub is_close : ℕ → Instant → Instant → Bool
is_close seconds at before = (before == at) || (leb before at && ltb at (before + seconds * 1000))

module _ {ℓ} {A : Type ℓ} (timestamp : A → Instant) (seconds : ℕ) where
  -- Each point lies at least the interval behind the one before it, the first behind the cursor.
  abbrev pub IsSpaced : Option Instant → List A → Type 0
  IsSpaced cursor [] = Unit
  IsSpaced cursor (p ∷ ps) =
      IsBehind seconds cursor (timestamp p) × IsSpaced (some (timestamp p)) ps

  -- The point comes too early behind the cursor, or a kept point stands for it.
  abbrev pub IsDealtWith : Option Instant → List A → A → Type 0
  IsDealtWith cursor kept p =
      (is_early seconds cursor (timestamp p)
        || any (λ k. is_close seconds (timestamp p) (timestamp k)) kept)
      ≡ true

  due_lem :
      (cursor : Option Instant) (at : Instant)
      → is_due seconds cursor at ≡ true
      → IsBehind seconds cursor at
  due_lem none at h = tt
  due_lem (some c) at h = ground arith

  not_due_lem :
      (cursor : Option Instant) (at : Instant)
      → is_due seconds cursor at ≡ false
      → is_early seconds cursor at ≡ true
  not_due_lem none at h = cc
  not_due_lem (some c) at h = ground arith

  accept_due-IsSpaced :
      (cursor : Option Instant) (ps : List A)
      → IsSpaced cursor (accept_due timestamp seconds cursor ps)
  unfolding accept_due
  accept_due-IsSpaced cursor [] = tt
  accept_due-IsSpaced cursor (p ∷ ps) = elim (Bool-cases (is_due seconds cursor (timestamp p))) [
    | inl e ↦ rw e (due_lem cursor (timestamp p) e, accept_due-IsSpaced (some (timestamp p)) ps)
    | inr e ↦ rw e (accept_due-IsSpaced cursor ps)
  ]

  -- What is dealt with from a kept point on is dealt with once that point is kept.
  kept_before :
      (cursor : Option Instant) (p : A) (kept qs : List A)
      → All (λ q. le_by timestamp p q ≡ true) qs
      → All (IsDealtWith (some (timestamp p)) kept) qs
      → All (IsDealtWith cursor (p ∷ kept)) qs
  kept_before cursor p kept [] b h = tt
  kept_before cursor p kept (q ∷ qs) b h =
      (ground (arith, h.0, b.0), kept_before cursor p kept qs b.1 h.1)

  accept_due_taken :
      (c : Option Instant) (p : A) (ps : List A)
      → is_due seconds c (timestamp p) ≡ true
      → accept_due timestamp seconds c (p ∷ ps)
        ≡ p ∷ accept_due timestamp seconds (some (timestamp p)) ps
  unfolding accept_due
  accept_due_taken c p ps e = rw e

  accept_due_skipped :
      (c : Option Instant) (p : A) (ps : List A)
      → is_due seconds c (timestamp p) ≡ false
      → accept_due timestamp seconds c (p ∷ ps) ≡ accept_due timestamp seconds c ps
  unfolding accept_due
  accept_due_skipped c p ps e = rw e

  accept_due-IsDealtWith :
      (cursor : Option Instant) (ps : List A)
      → IsSorted (le_by timestamp) ps
      → All (IsDealtWith cursor (accept_due timestamp seconds cursor ps)) ps
  accept_due-IsDealtWith cursor [] s = tt
  accept_due-IsDealtWith cursor (p ∷ ps) s =
      elim (Bool-cases (is_due seconds cursor (timestamp p))) [
        | inl e ↦
            subst (λ kept. All (IsDealtWith cursor kept) (p ∷ ps))
              (sym (accept_due_taken cursor p ps e))
              (
                ground arith,
                kept_before cursor p (accept_due timestamp seconds (some (timestamp p)) ps) ps s.0
                    (accept_due-IsDealtWith (some (timestamp p)) ps s.1),
              )
        | inr e ↦
            subst (λ kept. All (IsDealtWith cursor kept) (p ∷ ps))
              (sym (accept_due_skipped cursor p ps e))
              (
                ground (arith, not_due_lem cursor (timestamp p) e),
                accept_due-IsDealtWith cursor ps s.1,
              )
      ]

  length-accept_due :
      (cursor : Option Instant) (ps : List A)
      → length (accept_due timestamp seconds cursor ps) ≤ length ps
  unfolding accept_due
  length-accept_due cursor [] = omega arith
  length-accept_due cursor (p ∷ ps) =
      ground (arith, length-accept_due (some (timestamp p)) ps, length-accept_due cursor ps)

  -- Of a batch in any order, each accepted point lies at least the minimum interval behind the one
  -- accepted before it, and the first one behind the cursor; every point of the batch lies less
  -- than the interval behind the cursor, or before it, or has the instant of an accepted point or
  -- lies less than the interval behind one; accepted and dropped points make up the batch.
  pub admit_points-IsSpaced :
      (cursor : Option Instant) (ps : List A)
      → let admission = admit_points timestamp seconds cursor ps in
        IsSpaced cursor admission.accepted
        × All (IsDealtWith cursor admission.accepted) ps
        × (length admission.accepted + admission.dropped ≡ length ps)
  unfolding admit_points
  admit_points-IsSpaced cursor ps =
      let ordered = sort (le_by timestamp) ps in
      (
        accept_due-IsSpaced cursor ordered,
        All-sort (le_by timestamp)
            (IsDealtWith cursor (accept_due timestamp seconds cursor ordered)) ps
            (accept_due-IsDealtWith cursor ordered
              (sort-IsSorted (le_by timestamp) (le_by-IsComparator timestamp) ps)),
        omega (arith, length-accept_due cursor ordered, length-sort (le_by timestamp) ps),
      )
