-- ===== src/Billing/Rollout.antt =====
-- `isInRollout` of packages/billing/src/entitlements.ts. A text is the list of its UTF-16 codes, and
-- the percentage a whole number that is not negative.
use Prim.Native.Nat.{bit_xor}
use aytrackerv.Prelude.{
  ℕ, ◌*◌, ◌%◌, ◌^◌, ◌≤◌, ◌≡◌, Bool, true, false, List, [], ◌∷◌, ◌++◌, arith, ltb, leb,
  if◌then◌else◌,
}

-- The loop over the codes of the input; `Math.imul` keeps 32 bits.
unfoldable pub fnv_hash : ℕ → List ℕ → ℕ
fnv_hash hash [] = hash
fnv_hash hash (code ∷ input) = fnv_hash (bit_xor hash code * 16777619 % 2 ^ 32) input

-- `(hash >>> 0) % 100` of `${flagKey}:${organizationId}`.
unfoldable pub bucket : List ℕ → List ℕ → ℕ
unfolding fnv_hash
bucket flag_key organization_id =
    fnv_hash 2166136261 (flag_key ++ (b':' ∷ organization_id)) % 2 ^ 32 % 100

unfoldable pub is_in_rollout : List ℕ → List ℕ → ℕ → Bool
unfolding bucket
is_in_rollout flag_key organization_id percent =
    if leb percent 0
    then false
    else if leb 100 percent
    then true
    else ltb (bucket flag_key organization_id) percent

-- An organization that is in a rollout stays in it when the rollout grows.
pub is_in_rollout_mono :
    (flag_key organization_id : List ℕ) (p q : ℕ)
    → p ≤ q
    → is_in_rollout flag_key organization_id p ≡ true
    → is_in_rollout flag_key organization_id q ≡ true
unfolding is_in_rollout
is_in_rollout_mono flag_key organization_id p q l h = ground arith
