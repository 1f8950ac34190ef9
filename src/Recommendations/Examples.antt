-- ===== src/Recommendations/Examples.antt =====
-- Runs of the rules on recommendations, and their theorem at a concrete input.
use aytrackerv.Prelude.{ℕ, ◌≡◌, refl, true, none, some}
use aytrackerv.Domain.Errors.{ok, err, validation_error}
use aytrackerv.Recommendations.{
  submitted, released, planned, assert_status_transition, assert_can_read, assert_can_merge,
}
use aytrackerv.Recommendations.Merging.{
  Duplicates, Merged, merge, merged, unmerged, original, Merged-original,
}

released_stays :
    assert_status_transition released planned
    ≡ err (validation_error "recommendation.invalid_transition")
unfolding assert_status_transition
released_stays = refl

review_is_skipped : assert_status_transition submitted planned ≡ ok tt
unfolding assert_status_transition
review_is_skipped = refl

staff_read : assert_can_read 1 2 true ≡ ok tt
unfolding assert_can_read
staff_read = refl

-- Recommendation 1 became a duplicate of 2, and then 2 one of 3: a chain.
abbrev first_merge : Duplicates
first_merge = merge 1 2 (λ _. none)

abbrev chain : Duplicates
chain = merge 2 3 first_merge

first_is_allowed : assert_can_merge 1 2 none ≡ ok tt
unfolding assert_can_merge
first_is_allowed = refl

second_is_allowed : assert_can_merge 2 3 (first_merge 3) ≡ ok tt
unfolding assert_can_merge
second_is_allowed = refl

end_of_chain : original 3 chain 1 ≡ some 3
end_of_chain = refl

chain-Merged : Merged chain
chain-Merged =
    merged first_merge 2 3 (merged (λ _. none) 1 2 unmerged first_is_allowed) second_is_allowed

Merged-original_example : (fuel o : ℕ) × (original fuel chain 1 ≡ some o) × (chain o ≡ none)
Merged-original_example = Merged-original chain 1 chain-Merged
