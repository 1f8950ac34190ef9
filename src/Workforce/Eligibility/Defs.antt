-- ===== src/Workforce/Eligibility/Defs.antt =====
-- modules/workforce/src/domain/eligibility.ts. Identifiers are only compared, so they are numbers.
use aytrackerv.Prelude.{
  ℕ, Bool, true, false, not, ◌&&◌, ◌||◌, Option, none, some, List, [], ◌∷◌, map, foldl, String, leb,
  ltb, ◌==◌, if◌then◌else◌, any, filter,
}
use aytrackerv.Prelude.Maps.{IdMap, get, set}
use aytrackerv.Domain.Time.{Instant}

pub data PositionChangeMode : Type 0 where
  instant qualification_required supervisor_approval : PositionChangeMode

pub data PositionKind : Type 0 where
  standard driving : PositionKind

pub data PositionStatus : Type 0 where
  active inactive archived : PositionStatus

pub record PositionRule : Type 0 where
  pub position_id : ℕ
  pub change_mode : PositionChangeMode
  pub kind : PositionKind
  pub status : PositionStatus
  pub required_qualification_ids : List ℕ
  pub capacity : Option ℕ
  pub current_occupancy : ℕ

pub record Holding : Type 0 where
  pub qualification_id : ℕ
  pub expires_at : Option Instant

pub data Effect : Type 0 where
  allow deny : Effect

pub record EligibilityOverride : Type 0 where
  pub position_id : ℕ
  pub effect : Effect
  pub valid_from : Option Instant
  pub valid_to : Option Instant

-- The worker's identifier is not read.
pub record EligibilityInput : Type 0 where
  pub position : PositionRule
  pub held_qualifications : List Holding
  pub overrides : List EligibilityOverride
  pub now : Instant
  pub require_qualification_by_default : Bool

pub data EligibilityReason : Type 0 where
  explicit_deny explicit_allow position_inactive position_at_capacity : EligibilityReason
  qualification_missing qualification_expired qualification_satisfied : EligibilityReason
  instant_position supervisor_approval_required : EligibilityReason

pub data EligibilityDecision : Type 0 where
  allowed : Bool → EligibilityReason → EligibilityDecision
  refused : EligibilityReason → EligibilityDecision

unfoldable pub eligibility_error_code : EligibilityReason → String
eligibility_error_code explicit_deny = "position.not_eligible"
eligibility_error_code explicit_allow = "position.not_eligible"
eligibility_error_code position_inactive = "position.inactive"
eligibility_error_code position_at_capacity = "position.at_capacity"
eligibility_error_code qualification_missing = "position.qualification_required"
eligibility_error_code qualification_expired = "position.qualification_expired"
eligibility_error_code qualification_satisfied = "position.not_eligible"
eligibility_error_code instant_position = "position.not_eligible"
eligibility_error_code supervisor_approval_required = "position.supervisor_approval_required"

-- `at && at.getTime() > now`
abbrev pub starts_after : Option Instant → Instant → Bool
starts_after none now = false
starts_after (some at) now = ltb now at

-- `at && at.getTime() <= now`
abbrev pub over_by : Option Instant → Instant → Bool
over_by none now = false
over_by (some at) now = leb at now

unfoldable pub is_in_force : EligibilityOverride → Instant → Bool
is_in_force override now =
    if starts_after override.valid_from now
    then false
    else if over_by override.valid_to now
    then false
    else true

unfoldable pub effective_change_mode : PositionChangeMode → Bool → PositionChangeMode
effective_change_mode instant true = instant
effective_change_mode mode _ = mode

pub data QualificationCheck : Type 0 where
  satisfied missing expired : QualificationCheck

abbrev pub add_holding : IdMap Holding → Holding → IdMap Holding
add_holding by_id holding = set holding.qualification_id holding by_id

-- `new Map(held.map((holding) => [holding.qualificationId, holding]))`
unfoldable pub held_by_id : List Holding → IdMap Holding
held_by_id = foldl add_holding []

-- The loop over the requirements, with `sawExpired`.
unfoldable pub check_each : IdMap Holding → Instant → Bool → List ℕ → QualificationCheck
check_each by_id now saw_expired [] = if saw_expired then expired else satisfied
check_each by_id now saw_expired (requirement ∷ required) = elim (get requirement by_id) [
  | none ↦ missing
  | some holding ↦ check_each by_id now (over_by holding.expires_at now || saw_expired) required
]

unfoldable pub check_qualifications : List ℕ → List Holding → Instant → QualificationCheck
unfolding held_by_id check_each
check_qualifications [] held now = satisfied
check_qualifications (r ∷ required) held now = check_each (held_by_id held) now false (r ∷ required)

abbrev pub is_allow : Effect → Bool
is_allow allow = true
is_allow deny = false

abbrev pub is_effect : Effect → EligibilityOverride → Bool
is_effect allow override = is_allow override.effect
is_effect deny override = not (is_allow override.effect)

unfoldable pub active_overrides : EligibilityInput → List EligibilityOverride
unfolding is_in_force
active_overrides input =
    filter
      (λ override.
        override.position_id == input.position.position_id && is_in_force override input.now)
      input.overrides

abbrev pub is_active : PositionStatus → Bool
is_active active = true
is_active inactive = false
is_active archived = false

-- `capacity !== null && currentOccupancy >= capacity`
abbrev pub at_capacity : Option ℕ → ℕ → Bool
at_capacity none occupancy = false
at_capacity (some capacity) occupancy = leb capacity occupancy

-- The tail of `resolveEligibility`, once the qualifications have been checked.
unfoldable pub decide_qualified : PositionChangeMode → QualificationCheck → EligibilityDecision
decide_qualified mode missing = refused qualification_missing
decide_qualified mode expired = refused qualification_expired
decide_qualified supervisor_approval satisfied = allowed true supervisor_approval_required
decide_qualified _ satisfied = allowed false qualification_satisfied

unfoldable pub decide_by_mode : PositionChangeMode → QualificationCheck → EligibilityDecision
unfolding decide_qualified
decide_by_mode instant check = allowed false instant_position
decide_by_mode qualification_required check = decide_qualified qualification_required check
decide_by_mode supervisor_approval check = decide_qualified supervisor_approval check

unfoldable pub resolve_eligibility : EligibilityInput → EligibilityDecision
unfolding effective_change_mode decide_by_mode
resolve_eligibility input =
    let overrides = active_overrides input in
    let position = input.position in
    if any (is_effect deny) overrides
    then refused explicit_deny
    else if not (is_active position.status)
    then refused position_inactive
    else if at_capacity position.capacity position.current_occupancy
    then refused position_at_capacity
    else if any (is_effect allow) overrides
    then allowed false explicit_allow
    else decide_by_mode
        (effective_change_mode position.change_mode input.require_qualification_by_default)
        (check_qualifications position.required_qualification_ids input.held_qualifications
          input.now)

pub record EligiblePosition : Type 0 where
  pub position : PositionRule
  pub requires_approval : Bool

abbrev pub is_allowed : EligibilityDecision → Bool
is_allowed (allowed _ _) = true
is_allowed (refused _) = false

-- `entry.decision.allowed ? entry.decision.requiresApproval : false`
abbrev pub approval_of : EligibilityDecision → Bool
approval_of (allowed requires_approval _) = requires_approval
approval_of (refused _) = false

-- The positions, and then the input of `resolveEligibility` but for its position.
unfoldable pub eligible_positions :
    List PositionRule
    → List Holding
    → List EligibilityOverride
    → Instant
    → Bool
    → List EligiblePosition
eligible_positions positions held overrides now by_default =
    let entries =
      map {B = PositionRule × EligibilityDecision}
        (λ position. (
          position,
          resolve_eligibility (record {
            position = position;
            held_qualifications = held;
            overrides = overrides;
            now = now;
            require_qualification_by_default = by_default;
          }),
        ))
        positions in
    map {B = EligiblePosition}
      (λ entry. record { position = entry.0; requires_approval = approval_of entry.1 })
      (filter (λ entry. is_allowed entry.1) entries)
