-- ===== src/Auth/Authorization.antt =====
-- packages/auth/src/authorization.ts. Identifiers are only compared, so they are numbers. An error's
-- details are left out.
use text.Mathlib.Text.{◌==◌ as str_eq}
use aytrackerv.Prelude.{ℕ, Bool, true, not, String, Option, none, some, List, any, all, ◌==◌, eqb}
use aytrackerv.Domain.Errors.{
  Result, ok, err, ◌>>◌, throw_if, forbidden_error, unauthenticated_error,
}

pub data ActorType : Type 0 where
  user worker driver : ActorType

ActorType-discrete : Discrete ActorType
ActorType-discrete = hlevel

pub record ActorContext : Type 0 where
  pub actor_type : ActorType
  pub organization_id : ℕ
  pub user_id : Option ℕ
  pub worker_id : Option ℕ
  pub driver_id : Option ℕ
  pub permissions : List String
  pub session_id : ℕ
  pub is_platform_admin : Bool

unfoldable pub has_permission : ActorContext → String → Bool
has_permission actor permission = any (str_eq permission) actor.permissions

unfoldable pub has_any_permission : ActorContext → List String → Bool
has_any_permission actor permissions = any (has_permission actor) permissions

unfoldable pub has_all_permissions : ActorContext → List String → Bool
has_all_permissions actor permissions = all (has_permission actor) permissions

unfoldable pub assert_authenticated : Option ActorContext → Result ActorContext
assert_authenticated none = err unauthenticated_error
assert_authenticated (some actor) = ok actor

unfoldable pub assert_permission : ActorContext → String → Result (Unit {0})
assert_permission actor permission =
    throw_if (not (has_permission actor permission)) (forbidden_error "auth.permission_denied")

unfoldable pub assert_any_permission : ActorContext → List String → Result (Unit {0})
assert_any_permission actor permissions =
    throw_if (not (has_any_permission actor permissions)) (forbidden_error "auth.permission_denied")

unfoldable pub assert_same_tenant : ActorContext → ℕ → Result (Unit {0})
assert_same_tenant actor resource_organization_id =
    throw_if (not (actor.organization_id == resource_organization_id))
      (forbidden_error "auth.cross_tenant")

-- `id !== own` of an identifier that may be missing.
abbrev pub is_other : Option ℕ → ℕ → Bool
is_other none id = true
is_other (some own) id = not (own == id)

unfoldable pub assert_own_worker : ActorContext → ℕ → Result (Unit {0})
unfolding ActorType-discrete
assert_own_worker actor worker_id =
    throw_if (not (eqb ActorType-discrete actor.actor_type worker))
      (forbidden_error "auth.not_worker_session")
    >> throw_if (is_other actor.worker_id worker_id) (forbidden_error "auth.not_own_worker")

unfoldable pub assert_own_driver : ActorContext → ℕ → Result (Unit {0})
unfolding ActorType-discrete
assert_own_driver actor driver_id =
    throw_if (not (eqb ActorType-discrete actor.actor_type driver))
      (forbidden_error "auth.not_driver_session")
    >> throw_if (is_other actor.driver_id driver_id) (forbidden_error "auth.not_own_driver")

unfoldable pub assert_actor_type : ActorContext → List ActorType → Result (Unit {0})
unfolding ActorType-discrete
assert_actor_type actor allowed =
    throw_if (not (any (eqb ActorType-discrete actor.actor_type) allowed))
      (forbidden_error "auth.wrong_actor_type")
