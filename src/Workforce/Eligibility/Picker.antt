-- ===== src/Workforce/Eligibility/Picker.antt =====
-- The list that a worker sees in the position picker.
use aytrackerv.Prelude.{◌≡◌, refl, Bool, List, [], ◌∷◌, map, arith, filter}
use aytrackerv.Domain.Time.{Instant}
use aytrackerv.Workforce.Eligibility.Defs.{
  PositionRule, Holding, EligibilityOverride, EligibilityInput, EligiblePosition,
  resolve_eligibility, approval_of, eligible_positions,
}
use aytrackerv.Workforce.Eligibility.Decision.{may_work, resolve_eligibility-is_allowed}

module _ (held : List Holding) (overrides : List EligibilityOverride) (now : Instant)
    (by_default : Bool) where
  -- The question that the position picker asks of a position.
  abbrev pub question : PositionRule → EligibilityInput
  question position = record {
    position = position;
    held_qualifications = held;
    overrides = overrides;
    now = now;
    require_qualification_by_default = by_default;
  }

  abbrev pub picked : PositionRule → EligiblePosition
  picked position = record {
    position = position;
    requires_approval = approval_of (resolve_eligibility (question position));
  }

  -- The picker holds the positions at which the worker may work, in their order, each with the
  -- approval that the decision asks for; no other position is sent.
  eligible_positions-filter :
      (ps : List PositionRule)
      → eligible_positions ps held overrides now by_default
        ≡ map picked (filter (λ p. may_work (question p)) ps)
  unfolding eligible_positions
  eligible_positions-filter [] = refl
  eligible_positions-filter (p ∷ ps) =
      ground (arith, resolve_eligibility-is_allowed (question p), eligible_positions-filter ps)
