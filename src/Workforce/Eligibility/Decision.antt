-- ===== src/Workforce/Eligibility/Decision.antt =====
-- The decision against the rules that it stands for.
use aytrackerv.Prelude.{
  ℕ, ◌≡◌, inl, inr, refl, ◌∙◌, Bool, true, false, not, ◌&&◌, ◌||◌, Option, none, some, List, [],
  ◌∷◌, foldl, arith, ◌==◌, if◌then◌else◌, any, all, Option-cases,
}
use aytrackerv.Prelude.Maps.{IdMap, get, get-set}
use aytrackerv.Prelude.Members.{any-filter}
use aytrackerv.Domain.Time.{Instant}
use aytrackerv.Workforce.Eligibility.Defs.{
  PositionChangeMode, instant, qualification_required, supervisor_approval, Holding, Effect, allow,
  deny, EligibilityOverride, EligibilityInput, is_in_force, starts_after, over_by,
  effective_change_mode, QualificationCheck, satisfied, missing, expired, add_holding, held_by_id,
  check_each, check_qualifications, is_effect, active_overrides, is_active, at_capacity,
  decide_by_mode, resolve_eligibility, is_allowed, approval_of,
}

abbrev pub or_else : Option Holding → Option Holding → Option Holding
or_else (some h) _ = some h
or_else none o = o

-- The holding that counts: the last one of a qualification.
abbrev pub last_holding : ℕ → List Holding → Option Holding
last_holding q [] = none
last_holding q (h ∷ hs) =
    or_else (last_holding q hs) (if q == h.qualification_id then some h else none)

-- There is a holding, and it is not over.
abbrev pub is_valid : Option Holding → Instant → Bool
is_valid none now = false
is_valid (some h) now = not (over_by h.expires_at now)

-- Every required qualification is held and is not over.
abbrev pub is_qualified : List ℕ → List Holding → Instant → Bool
is_qualified required held now = all (λ q. is_valid (last_holding q held) now) required

-- An override of the given effect is for this position and in force.
abbrev pub applies : Effect → EligibilityInput → EligibilityOverride → Bool
applies effect input o =
    (o.position_id == input.position.position_id)
    && (not (starts_after o.valid_from input.now) && not (over_by o.valid_to input.now))
    && is_effect effect o

abbrev pub is_instant : PositionChangeMode → Bool
is_instant instant = true
is_instant qualification_required = false
is_instant supervisor_approval = false

-- The rules: no denial, an active position with room, and a reason to admit the worker.
abbrev pub may_work : EligibilityInput → Bool
may_work input =
    not (any (applies deny input) input.overrides)
    && is_active input.position.status
    && not (at_capacity input.position.capacity input.position.current_occupancy)
    && (any (applies allow input) input.overrides
        || is_instant input.position.change_mode
        || is_qualified input.position.required_qualification_ids input.held_qualifications
            input.now)

abbrev is_satisfied : QualificationCheck → Bool
is_satisfied satisfied = true
is_satisfied missing = false
is_satisfied expired = false

held-get :
    (q : ℕ) (hs : List Holding) (d : IdMap Holding)
    → get q (foldl add_holding d hs) ≡ or_else (last_holding q hs) (get q d)
held-get q [] d = refl
held-get q (h ∷ hs) d =
    ground (arith, held-get q hs (add_holding d h), get-set q h.qualification_id h d)

check_each-satisfied :
    (d : IdMap Holding) (now : Instant) (saw : Bool) (required : List ℕ)
    → is_satisfied (check_each d now saw required)
      ≡ (not saw && all (λ q. is_valid (get q d) now) required)
unfolding check_each
check_each-satisfied d now saw [] = ground arith
check_each-satisfied d now saw (q ∷ required) = elim (Option-cases (get q d)) [
  | inl missed ↦ rw missed (ground arith)
  | inr (h, found) ↦
      rw found
        (ground (arith, check_each-satisfied d now (over_by h.expires_at now || saw) required))
]

all_valid :
    (hs : List Holding) (now : Instant) (required : List ℕ)
    → all (λ q. is_valid (get q (held_by_id hs)) now) required ≡ is_qualified required hs now
unfolding held_by_id
all_valid hs now [] = refl
all_valid hs now (q ∷ required) = ground (arith, held-get q hs [], all_valid hs now required)

check_qualifications-satisfied :
    (required : List ℕ) (held : List Holding) (now : Instant)
    → is_satisfied (check_qualifications required held now) ≡ is_qualified required held now
unfolding check_qualifications
check_qualifications-satisfied [] held now = refl
check_qualifications-satisfied (q ∷ required) held now =
    check_each-satisfied (held_by_id held) now false (q ∷ required)
    ∙ all_valid held now (q ∷ required)

in_force :
    (effect : Effect) (input : EligibilityInput) (os : List EligibilityOverride)
    → any
        (λ o.
          ((o.position_id == input.position.position_id) && is_in_force o input.now)
          && is_effect effect o)
        os
      ≡ any (applies effect input) os
unfolding is_in_force
in_force effect input [] = refl
in_force effect input (o ∷ os) = ground (arith, in_force effect input os)

active_overrides-applies :
    (effect : Effect) (input : EligibilityInput)
    → any (is_effect effect) (active_overrides input) ≡ any (applies effect input) input.overrides
unfolding active_overrides
active_overrides-applies effect input =
    any-filter (is_effect effect) _ input.overrides ∙ in_force effect input input.overrides

decide_by_mode-is_allowed :
    (mode : PositionChangeMode) (by_default : Bool) (check : QualificationCheck)
    → is_allowed (decide_by_mode (effective_change_mode mode by_default) check)
      ≡ (is_instant mode || is_satisfied check)
unfolding decide_by_mode effective_change_mode
decide_by_mode-is_allowed mode by_default check = ground arith

-- A worker is allowed at a position exactly if no denial for it is in force, the position is active
-- and below its capacity, and an allowance is in force, the position is instant, or the worker
-- holds every required qualification, by the last holding of each, none of them over.
pub resolve_eligibility-is_allowed :
    (input : EligibilityInput) → is_allowed (resolve_eligibility input) ≡ may_work input
unfolding resolve_eligibility
resolve_eligibility-is_allowed input = ground (
  arith,
  active_overrides-applies deny input,
  active_overrides-applies allow input,
  check_qualifications-satisfied input.position.required_qualification_ids input.held_qualifications
      input.now,
)

abbrev pub is_supervised : PositionChangeMode → Bool
is_supervised supervisor_approval = true
is_supervised instant = false
is_supervised qualification_required = false

-- A worker is sent through a supervisor's approval exactly if the worker is allowed, no allowance
-- for the position is in force and the position asks for approval.
resolve_eligibility-approval_of :
    (input : EligibilityInput)
    → approval_of (resolve_eligibility input) ≡ (
        may_work input
        && not (any (applies allow input) input.overrides)
        && is_supervised input.position.change_mode)
unfolding resolve_eligibility
resolve_eligibility-approval_of input = ground (
  arith,
  active_overrides-applies deny input,
  active_overrides-applies allow input,
  check_qualifications-satisfied input.position.required_qualification_ids input.held_qualifications
      input.now,
)
