-- ===== src/Recommendations.antt =====
-- modules/recommendations/src/domain/recommendation.ts. Identifiers are only compared, so they are
-- numbers. The limits on the length of a title and a description are on trimmed texts, and left out.
pub mod Merging
mod Examples
use aytrackerv.Prelude.{ℕ, Bool, not, Option, List, [], ◌∷◌, any, eqb, is_some, ◌==◌, ◌&&◌}
use aytrackerv.Domain.Errors.{Result, ◌>>◌, throw_if, validation_error, forbidden_error}

pub data RecommendationStatus : Type 0 where
  submitted under_review planned in_development released declined : RecommendationStatus
  duplicate : RecommendationStatus

RecommendationStatus-discrete : Discrete RecommendationStatus
RecommendationStatus-discrete = hlevel

abbrev pub allowed_statuses : RecommendationStatus → List RecommendationStatus
allowed_statuses submitted = under_review ∷ planned ∷ declined ∷ duplicate ∷ []
allowed_statuses under_review = planned ∷ declined ∷ duplicate ∷ in_development ∷ []
allowed_statuses planned = in_development ∷ declined ∷ duplicate ∷ []
allowed_statuses in_development = released ∷ planned ∷ declined ∷ []
allowed_statuses released = []
allowed_statuses declined = []
allowed_statuses duplicate = []

unfoldable pub assert_status_transition :
    RecommendationStatus → RecommendationStatus → Result (Unit {0})
unfolding RecommendationStatus-discrete
assert_status_transition from to =
    throw_if (not (any (eqb RecommendationStatus-discrete to) (allowed_statuses from)))
      (validation_error "recommendation.invalid_transition")

-- `assertCanRead`, of the two organizations and of whether the actor is of the platform's staff.
unfoldable pub assert_can_read : ℕ → ℕ → Bool → Result (Unit {0})
assert_can_read actor_organization_id organization_id is_platform_admin =
    throw_if (not is_platform_admin && not (actor_organization_id == organization_id))
      (forbidden_error "recommendation.not_own_organization")

unfoldable pub assert_can_merge : ℕ → ℕ → Option ℕ → Result (Unit {0})
assert_can_merge source_id target_id target_duplicate_of_id =
    throw_if (source_id == target_id) (validation_error "recommendation.self_merge")
    >> throw_if (is_some target_duplicate_of_id)
        (validation_error "recommendation.merge_into_duplicate")
