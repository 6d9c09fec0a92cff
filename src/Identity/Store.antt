-- ===== src/Identity/Store.antt =====
-- backend/app/modules/identity/infrastructure/repository.py: the tables and the queries on them.
-- Identifiers and token digests are unique columns. The instant that a query takes from the clock
-- is its argument `now`. Audit events go to a log, without their payload.
use smart_logistics_accessib.Base.{
  String, Bool, false, ◌&&◌, ◌||◌, not, Option, none, some, List, [], ◌∷◌, ◌++◌, Uuid, DateTime, ℕ,
  ◌==◌, str_eq, ltb, is_some, find, select, update_where, count_if,
}
use smart_logistics_accessib.Identity.Enums.{MembershipStatus}
use smart_logistics_accessib.Identity.Entities.{
  User, Organization, Membership, Grant, SharingGrant, Session, CsrfToken, AuthTransaction,
}

-- domain/audit_events.py
pub data IdentityAuditEvent : Type 0 where
  user_created membership_created membership_suspended membership_revoked : IdentityAuditEvent
  grant_created grant_revoked sharing_grant_created sharing_grant_revoked : IdentityAuditEvent
  session_created session_revoked session_revoked_all session_idle_timeout : IdentityAuditEvent
  auth_failed authz_denied csrf_validation_failed origin_validation_failed : IdentityAuditEvent
  oidc_flow_failed grant_authority_denied org_selected_multi_member : IdentityAuditEvent

pub record AuditEntry : Type 0 where
  pub event : IdentityAuditEvent
  pub actor_id : Option Uuid
  pub resource_id : Option Uuid

pub record IdentityStore : Type 0 where
  pub users : List User
  pub organizations : List Organization
  pub memberships : List Membership
  pub sessions : List Session
  pub csrf_tokens : List CsrfToken
  pub auth_transactions : List AuthTransaction
  pub grants : List Grant
  pub sharing_grants : List SharingGrant
  pub audit_log : List AuditEntry

unfoldable pub get_user_by_id : Uuid → IdentityStore → Option User
get_user_by_id id s = find (λ u. u.id == id) s.users

unfoldable pub get_organization_by_id : Uuid → IdentityStore → Option Organization
get_organization_by_id id s = find (λ o. o.id == id) s.organizations

unfoldable pub get_membership : Uuid → Uuid → IdentityStore → Option Membership
get_membership user_id org_id s =
    find (λ m. m.user_id == user_id && m.org_id == org_id) s.memberships

unfoldable pub create_membership : Membership → IdentityStore → IdentityStore
create_membership m s = record s { memberships = s.memberships ++ m ∷ [] }

abbrev pub set_membership_status : MembershipStatus → DateTime → Membership → Membership
set_membership_status status now m = record m { status = status; updated_at = some now }

unfoldable pub update_membership_status :
    Uuid → MembershipStatus → DateTime → IdentityStore → IdentityStore
update_membership_status id status now s = record s {
  memberships = update_where (λ m. m.id == id) (set_membership_status status now) s.memberships;
}

unfoldable pub create_session : Session → IdentityStore → IdentityStore
create_session x s = record s { sessions = s.sessions ++ x ∷ [] }

unfoldable pub get_session_by_token_digest : String → IdentityStore → Option Session
get_session_by_token_digest digest s = find (λ x. str_eq x.token_digest digest) s.sessions

unfoldable pub touch_session : Uuid → DateTime → IdentityStore → IdentityStore
touch_session id now s = record s {
  sessions = update_where (λ x. x.id == id) (λ x. record x { last_seen_at = now }) s.sessions;
}

abbrev pub revoke : DateTime → String → Session → Session
revoke now reason x = record x { revoked_at = some now; revocation_reason = some reason }

unfoldable pub revoke_session : Uuid → String → DateTime → IdentityStore → IdentityStore
revoke_session id reason now s = record s {
  sessions = update_where (λ x. x.id == id) (revoke now reason) s.sessions;
}

abbrev pub is_live_session_of : Uuid → Session → Bool
is_live_session_of user_id x = x.user_id == user_id && not (is_some x.revoked_at)

-- The number of rows changed comes back beside the tables.
unfoldable pub revoke_all_user_sessions :
    Uuid → String → DateTime → IdentityStore → ℕ × IdentityStore
revoke_all_user_sessions user_id reason now s = (
  count_if (is_live_session_of user_id) s.sessions,
  record s { sessions = update_where (is_live_session_of user_id) (revoke now reason) s.sessions },
)

unfoldable pub create_csrf_token : CsrfToken → IdentityStore → IdentityStore
create_csrf_token t s = record s { csrf_tokens = s.csrf_tokens ++ t ∷ [] }

unfoldable pub get_valid_csrf_token : Uuid → String → DateTime → IdentityStore → Option CsrfToken
get_valid_csrf_token session_id digest now s =
    find (λ t. t.session_id == session_id && str_eq t.token_digest digest && ltb now t.expires_at)
      s.csrf_tokens

unfoldable pub delete_csrf_tokens_for_session : Uuid → IdentityStore → IdentityStore
delete_csrf_tokens_for_session session_id s = record s {
  csrf_tokens = select (λ t. not (t.session_id == session_id)) s.csrf_tokens;
}

unfoldable pub create_auth_transaction : AuthTransaction → IdentityStore → IdentityStore
create_auth_transaction t s = record s { auth_transactions = s.auth_transactions ++ t ∷ [] }

unfoldable pub get_valid_auth_transaction :
    String → DateTime → IdentityStore → Option AuthTransaction
get_valid_auth_transaction state now s =
    find (λ t. str_eq t.state state && not (is_some t.consumed_at) && ltb now t.expires_at)
      s.auth_transactions

unfoldable pub consume_auth_transaction : String → DateTime → IdentityStore → IdentityStore
consume_auth_transaction state now s = record s {
  auth_transactions =
      update_where (λ t. str_eq t.state state) (λ t. record t { consumed_at = some now })
        s.auth_transactions;
}

abbrev pub is_id : Option Uuid → Uuid → Bool
is_id none id = false
is_id (some x) id = x == id

abbrev pub is_granted_to : Uuid → Uuid → Grant → Bool
is_granted_to user_id org_id g =
    not (is_some g.revoked_at) && (is_id g.grantee_user_id user_id || is_id g.grantee_org_id org_id)

unfoldable pub get_effective_grants_for_principal : Uuid → Uuid → IdentityStore → List Grant
get_effective_grants_for_principal user_id org_id s =
    select (λ g. g.is_active && is_granted_to user_id org_id g) s.grants

unfoldable pub get_grant_by_id : Uuid → IdentityStore → Option Grant
get_grant_by_id id s = find (λ g. g.id == id) s.grants

unfoldable pub create_grant : Grant → IdentityStore → IdentityStore
create_grant g s = record s { grants = s.grants ++ g ∷ [] }

abbrev pub take_back : Uuid → String → DateTime → Grant → Grant
take_back by reason now g = record g {
  is_active = false;
  revoked_at = some now;
  revoked_by = some by;
  revocation_reason = some reason;
}

unfoldable pub revoke_grant : Uuid → Uuid → String → DateTime → IdentityStore → IdentityStore
revoke_grant id revoked_by reason now s = record s {
  grants = update_where (λ g. g.id == id) (take_back revoked_by reason now) s.grants;
}

unfoldable pub get_active_sharing_grants_for_org : Uuid → IdentityStore → List SharingGrant
get_active_sharing_grants_for_org org s =
    select (λ g. g.recipient_org_id == org && g.is_active) s.sharing_grants

unfoldable pub create_sharing_grant : SharingGrant → IdentityStore → IdentityStore
create_sharing_grant g s = record s { sharing_grants = s.sharing_grants ++ g ∷ [] }

unfoldable pub revoke_sharing_grant : Uuid → IdentityStore → IdentityStore
revoke_sharing_grant id s = record s {
  sharing_grants =
      update_where (λ g. g.id == id) (λ g. record g { is_active = false }) s.sharing_grants;
}

unfoldable pub emit_audit_event :
    IdentityAuditEvent → Option Uuid → Option Uuid → IdentityStore → IdentityStore
emit_audit_event e actor resource s = record s {
  audit_log = s.audit_log ++ record { event = e; actor_id = actor; resource_id = resource } ∷ [];
}
