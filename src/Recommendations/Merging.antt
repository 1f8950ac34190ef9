-- ===== src/Recommendations/Merging.antt =====
-- Merges of duplicates that `assertCanMerge` of
-- modules/recommendations/src/domain/recommendation.ts allows, one after another.
use aytrackerv.Prelude.{
  ℕ, zero, suc, ◌<◌, ◌≡◌, refl, false, Option, none, some, arith, ◌==◌, if◌then◌else◌, inl, inr,
  Bool-cases, Option-cases, subst,
}
use aytrackerv.Domain.Errors.{ok}
use aytrackerv.Recommendations.{assert_can_merge}

-- Of each recommendation, the one that it duplicates: `duplicateOfId`.
abbrev pub Duplicates : Type 0
Duplicates = ℕ → Option ℕ

-- The source becomes a duplicate of the target.
abbrev pub merge : ℕ → ℕ → Duplicates → Duplicates
merge source_id target_id duplicate_of id =
    if id == source_id then some target_id else duplicate_of id

-- The states that merges reach which `assertCanMerge` does not refuse.
pub data Merged : Duplicates → Type 0 where
  unmerged : Merged (λ _. none)
  merged :
      (duplicate_of : Duplicates) (source_id target_id : ℕ)
      → Merged duplicate_of
      → assert_can_merge source_id target_id (duplicate_of target_id) ≡ ok tt
      → Merged (merge source_id target_id duplicate_of)

-- The recommendation at the end of the links from one, within a number of links.
abbrev pub original : ℕ → Duplicates → ℕ → Option ℕ
original zero duplicate_of id = none
original (suc fuel) duplicate_of id = elim (duplicate_of id) [
  | none ↦ some id
  | some next ↦ original fuel duplicate_of next
]

-- A number for each recommendation that falls along its link.
abbrev Falls : (ℕ → ℕ) → Duplicates → Type 0
Falls rank duplicate_of = (i j : ℕ) → duplicate_of i ≡ some j → rank j < rank i

abbrev merge_rank : ℕ → (ℕ → ℕ) → ℕ → ℕ
merge_rank target_id rank id = if id == target_id then 0 else suc (rank id)

-- What `assertCanMerge` does not refuse.
assert_can_merge-allowed :
    (source_id target_id : ℕ) (link : Option ℕ)
    → assert_can_merge source_id target_id link ≡ ok tt
    → ((source_id == target_id) ≡ false) × (link ≡ none)
unfolding assert_can_merge
assert_can_merge-allowed source_id target_id none h = ground arith
assert_can_merge-allowed source_id target_id (some next) h = ground arith

merge-Falls :
    (duplicate_of : Duplicates) (source_id target_id : ℕ) (rank : ℕ → ℕ)
    → Falls rank duplicate_of
    → assert_can_merge source_id target_id (duplicate_of target_id) ≡ ok tt
    → Falls (merge_rank target_id rank) (merge source_id target_id duplicate_of)
merge-Falls duplicate_of source_id target_id rank falls allowed i j link =
    let (apart, root) =
      assert_can_merge-allowed source_id target_id (duplicate_of target_id) allowed in
    elim (Bool-cases (i == source_id)) [
      | inl e ↦ ground arith
      | inr e ↦
          let kept : duplicate_of i ≡ some j = ground arith in
          let below = falls i j kept in
          elim (Bool-cases (i == target_id)) [
            | inl t ↦
                let same : i ≡ target_id = ground arith in
                let linked : duplicate_of target_id ≡ some j =
                  subst (λ x. duplicate_of x ≡ some j) same kept in
                ground arith
            | inr t ↦ ground arith
          ]
    ]

Merged-Falls :
    (duplicate_of : Duplicates) → Merged duplicate_of → (rank : ℕ → ℕ) × Falls rank duplicate_of
Merged-Falls _ unmerged = ((λ _. 0), (λ i j link. cc))
Merged-Falls _ (merged duplicate_of source_id target_id before allowed) =
    let (rank, falls) = Merged-Falls duplicate_of before in
    (merge_rank target_id rank, merge-Falls duplicate_of source_id target_id rank falls allowed)

original-Falls :
    (duplicate_of : Duplicates) (rank : ℕ → ℕ) (fuel id : ℕ)
    → Falls rank duplicate_of
    → rank id < fuel
    → (o : ℕ) × (original fuel duplicate_of id ≡ some o) × (duplicate_of o ≡ none)
original-Falls duplicate_of rank zero id falls l = absurd (omega arith)
original-Falls duplicate_of rank (suc fuel) id falls l = elim (Option-cases (duplicate_of id)) [
  | inl e ↦ (id, rw (original, e) refl, e)
  | inr (next, e) ↦
      let below = falls id next e in
      let (o, found, root) = original-Falls duplicate_of rank fuel next falls (omega arith) in
      (o, rw (original, e) found, root)
]

-- After merges from an empty set of duplicates that assertCanMerge allows, the links from any
-- recommendation end, at one that is no duplicate.
pub Merged-original :
    (duplicate_of : Duplicates) (id : ℕ)
    → Merged duplicate_of
    → (fuel o : ℕ) × (original fuel duplicate_of id ≡ some o) × (duplicate_of o ≡ none)
Merged-original duplicate_of id m =
    let (rank, falls) = Merged-Falls duplicate_of m in
    let (o, found, root) =
      original-Falls duplicate_of rank (suc (rank id)) id falls (omega arith) in
    (suc (rank id), o, found, root)
