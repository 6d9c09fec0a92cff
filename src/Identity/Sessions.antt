-- ===== src/Identity/Sessions.antt =====
-- backend/app/modules/identity/application/session_service.py: sessions from login to logout.
-- Fresh identifiers, tokens and the clock are arguments; so is the keyed hash of a token. The
-- lifetime is the setting of that name.
mod Tests
pub mod Lifecycle
use smart_logistics_accessib.Base.{
  String, Bool, true, false, Option, none, some, Uuid, DateTime, ℕ, ◌+◌, hours, Result, ok, err,
  if◌then◌else◌,
}
use smart_logistics_accessib.Identity.Enums.{Role, manage_identity}
use smart_logistics_accessib.Identity.Entities.{Session, CsrfToken}
use smart_logistics_accessib.Identity.Principal.{PrincipalContext, can}
use smart_logistics_accessib.Identity.Store.{
  IdentityStore, session_created, session_revoked, session_revoked_all, create_session,
  create_csrf_token, emit_audit_event, revoke_session, delete_csrf_tokens_for_session,
  revoke_all_user_sessions,
}

-- what `uuid4` and `generate_raw_token` hand to one login
pub record Fresh : Type 0 where
  pub new_session_id : Uuid
  pub new_csrf_id : Uuid
  pub raw_session_token : String
  pub raw_csrf_token : String

unfoldable pub new_session :
    (String → String)
    → ℕ
    → DateTime
    → Fresh
    → Uuid
    → Uuid
    → Role
    → Option String
    → Option String
    → Session
new_session digest lifetime_hours now fresh user_id org_id role ip_address user_agent = record {
  id = fresh.new_session_id;
  user_id = user_id;
  org_id = org_id;
  role = role;
  token_digest = digest fresh.raw_session_token;
  ip_address = ip_address;
  user_agent = user_agent;
  created_at = now;
  last_seen_at = now;
  expires_at = now + hours lifetime_hours;
  revoked_at = none;
  revocation_reason = none;
}

new_csrf_token : (String → String) → ℕ → DateTime → Fresh → CsrfToken
new_csrf_token digest lifetime_hours now fresh = record {
  id = fresh.new_csrf_id;
  session_id = fresh.new_session_id;
  token_digest = digest fresh.raw_csrf_token;
  created_at = now;
  expires_at = now + hours lifetime_hours;
}

-- CreateSessionUseCase.execute: the session and the two raw tokens, and the tables.
pub create_session_use_case :
    (String → String)
    → ℕ
    → DateTime
    → Fresh
    → Uuid
    → Uuid
    → Role
    → Option String
    → Option String
    → IdentityStore
    → (Session × String × String) × IdentityStore
unfolding new_csrf_token
create_session_use_case digest lifetime now fresh user_id org_id role ip_address user_agent s =
    let session = new_session digest lifetime now fresh user_id org_id role ip_address user_agent in
    let s₁ = create_session session s in
    let s₂ = create_csrf_token (new_csrf_token digest lifetime now fresh) s₁ in
    (
      (session, fresh.raw_session_token, fresh.raw_csrf_token),
      emit_audit_event session_created (some user_id) (some session.id) s₂,
    )

-- RevokeCurrentSessionUseCase.execute
pub revoke_current_session : DateTime → Uuid → Uuid → String → IdentityStore → IdentityStore
revoke_current_session now session_id user_id reason s =
    emit_audit_event session_revoked (some user_id) (some session_id)
      (delete_csrf_tokens_for_session session_id (revoke_session session_id reason now s))

-- RevokeAllUserSessionsUseCase.execute
pub revoke_all_sessions : DateTime → Uuid → String → IdentityStore → ℕ × IdentityStore
revoke_all_sessions now user_id reason s =
    let (revoked, s') = revoke_all_user_sessions user_id reason now s in
    (revoked, emit_audit_event session_revoked_all (some user_id) (some user_id) s')

pub data AdminError : Type 0 where
  manage_identity_required : AdminError

-- AdminRevokeSessionUseCase.execute; the reason is stored with a prefix, which the caller adds here
pub admin_revoke_session :
    DateTime → PrincipalContext → Uuid → String → IdentityStore → Result AdminError IdentityStore
admin_revoke_session now admin target_session_id reason s =
    if can admin manage_identity
    then ok (
        emit_audit_event session_revoked (some admin.user_id) (some target_session_id) (
          delete_csrf_tokens_for_session target_session_id
            (revoke_session target_session_id reason now s)))
    else err manage_identity_required
