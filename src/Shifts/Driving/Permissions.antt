-- ===== src/Shifts/Driving/Permissions.antt =====
-- What a worker's session may do while driving, and afterwards.
use text.Mathlib.Text.{◌==◌ as str_eq}
use text.Mathlib.TextEquality.{eq_iff}
use aytrackerv.Prelude.{
  ◌≡◌, refl, ◌∙◌, Bool, not, ◌&&◌, ◌||◌, String, List, [], ◌∷◌, ◌++◌, arith, filter,
}
use aytrackerv.Prelude.Sort.{any-sort}
use aytrackerv.Shifts.Driving.Defs.{
  driving_session_permissions, includes, dedupe, with_driving_permissions,
  without_driving_permissions,
}

includes-filter :
    (keep : String → Bool) (p : String) (ps : List String)
    → includes (filter keep ps) p ≡ (keep p && includes ps p)
includes-filter keep p [] = ground arith
includes-filter keep p (q ∷ ps) = ground (arith, eq_iff p q, includes-filter keep p ps)

includes-dedupe : (p : String) (ps : List String) → includes (dedupe ps) p ≡ includes ps p
unfolding dedupe
includes-dedupe p [] = refl
includes-dedupe p (q ∷ ps) =
    ground (arith, includes-filter (λ r. not (str_eq r q)) p (dedupe ps), includes-dedupe p ps)

includes-append :
    (p : String) (ps qs : List String) → includes (ps ++ qs) p ≡ (includes ps p || includes qs p)
includes-append p [] qs = refl
includes-append p (r ∷ ps) qs = ground (arith, includes-append p ps qs)

module _ (code_le : String → String → Bool) where
  includes-with :
      (base : List String) (p : String)
      → includes (with_driving_permissions code_le base) p
        ≡ (includes base p || includes driving_session_permissions p)
  unfolding with_driving_permissions
  includes-with base p =
      any-sort code_le (str_eq p) (dedupe (base ++ driving_session_permissions))
      ∙ includes-dedupe p (base ++ driving_session_permissions)
      ∙ includes-append p base driving_session_permissions

  -- While driving a session has the permissions that it had and the driving ones, and no more.
  -- Leaving the driving position takes all driving permissions away, also those that the session
  -- had before, and every other permission is then as it was.
  driving_permissions_round_trip :
      (base : List String) (p : String)
      → (includes (with_driving_permissions code_le base) p
          ≡ (includes base p || includes driving_session_permissions p))
        × (includes (without_driving_permissions (with_driving_permissions code_le base)) p
            ≡ (includes base p && not (includes driving_session_permissions p)))
  unfolding without_driving_permissions
  driving_permissions_round_trip base p = (
    includes-with base p,
    ground (
      arith,
      includes-with base p,
      includes-filter (λ q. not (includes driving_session_permissions q)) p
          (with_driving_permissions code_le base),
    ),
  )
