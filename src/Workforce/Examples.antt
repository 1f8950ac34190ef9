-- ===== src/Workforce/Examples.antt =====
-- Runs of the eligibility rules, and their theorems at concrete inputs.
use aytrackerv.Prelude.{◌≡◌, refl, true, false, none, some, List, [], ◌∷◌}
use aytrackerv.Workforce.Eligibility.{
  PositionRule, supervisor_approval, instant, standard, active, Holding, deny, EligibilityOverride,
  EligibilityInput, allowed, refused, explicit_deny, qualification_expired,
  supervisor_approval_required, resolve_eligibility, is_allowed, active_overrides,
  check_qualifications,
}
use aytrackerv.Workforce.Eligibility.Decision.{may_work, resolve_eligibility-is_allowed}

abbrev press : PositionRule
press = record {
  position_id = 1;
  change_mode = supervisor_approval;
  kind = standard;
  status = active;
  required_qualification_ids = 7 ∷ 8 ∷ [];
  capacity = some 2;
  current_occupancy = 1;
}

abbrev desk : PositionRule
desk = record press { position_id = 2; change_mode = instant; capacity = none }

-- Qualification 7 was renewed: the later row counts.
abbrev held : List Holding
held =
    record { qualification_id = 7; expires_at = some 10 }
    ∷ record { qualification_id = 8; expires_at = none }
    ∷ record { qualification_id = 7; expires_at = some 90 }
    ∷ []

abbrev barred : EligibilityOverride
barred = record { position_id = 2; effect = deny; valid_from = some 20; valid_to = some 60 }

abbrev at_50 : EligibilityInput
at_50 = record {
  position = press;
  held_qualifications = held;
  overrides = barred ∷ [];
  now = 50;
  require_qualification_by_default = false;
}

press_needs_approval : resolve_eligibility at_50 ≡ allowed true supervisor_approval_required
unfolding resolve_eligibility active_overrides check_qualifications
press_needs_approval = refl

press_at_90 : resolve_eligibility (record at_50 { now = 90 }) ≡ refused qualification_expired
unfolding resolve_eligibility active_overrides check_qualifications
press_at_90 = refl

desk_denied : resolve_eligibility (record at_50 { position = desk }) ≡ refused explicit_deny
unfolding resolve_eligibility active_overrides check_qualifications
desk_denied = refl

resolve_eligibility-is_allowed_example : is_allowed (resolve_eligibility at_50) ≡ may_work at_50
resolve_eligibility-is_allowed_example = resolve_eligibility-is_allowed at_50
