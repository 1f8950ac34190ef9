-- ===== src/Auth/Session.antt =====
-- packages/auth/src/session.ts, of it the checks of a session that was loaded. Tokens and their
-- hashes are calls of the platform.
use aytrackerv.Prelude.{
  ℕ, ◌+◌, ◌*◌, ◌<◌, ◌≡◌, ◌⊎◌, ◌↔◌, Bool, true, false, not, ◌&&◌, Option, none, List, String, arith,
  leb, is_some, if◌then◌else◌,
}
use aytrackerv.Domain.Time.{Instant}
use aytrackerv.Auth.Authorization.{ActorType, user, worker, driver}

abbrev pub default_session_ttl_seconds : ActorType → ℕ
default_session_ttl_seconds user = 12 * 60 * 60
default_session_ttl_seconds worker = 16 * 60 * 60
default_session_ttl_seconds driver = 16 * 60 * 60

pub record SessionRecord : Type 0 where
  pub id : ℕ
  pub actor_type : ActorType
  pub organization_id : Option ℕ
  pub user_id : Option ℕ
  pub worker_id : Option ℕ
  pub driver_id : Option ℕ
  pub permissions : List String
  pub expires_at : Instant
  pub revoked_at : Option Instant

pub data SessionRejectionReason : Type 0 where
  expired revoked no_tenant : SessionRejectionReason

pub data SessionValidation : Type 0 where
  valid : SessionValidation
  invalid : SessionRejectionReason → SessionValidation

abbrev pub is_user : ActorType → Bool
is_user user = true
is_user worker = false
is_user driver = false

unfoldable pub validate_session : SessionRecord → Instant → SessionValidation
validate_session session now =
    if is_some session.revoked_at
    then invalid revoked
    else if leb session.expires_at now
    then invalid expired
    else if not (is_user session.actor_type) && not (is_some session.organization_id)
    then invalid no_tenant
    else valid

unfoldable pub should_touch_session : Instant → Instant → ℕ → Bool
should_touch_session last_seen_at now threshold_seconds =
    leb (last_seen_at + threshold_seconds * 1000) now

-- A session is valid exactly if it was not revoked, expires later, and names an organization unless
-- it is a user's.
validate_session_iff :
    (session : SessionRecord) (now : Instant)
    → (validate_session session now ≡ valid) ↔ (
        (session.revoked_at ≡ none)
        × (now < session.expires_at)
        × ((session.actor_type ≡ user) ⊎ (is_some session.organization_id ≡ true)))
unfolding validate_session
validate_session_iff session now = ((λ h. ground arith), (λ h. ground arith))
