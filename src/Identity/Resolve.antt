-- ===== src/Identity/Resolve.antt =====
-- backend/app/modules/identity/application/resolve_principal.py: from a session token to the caller.
-- The token's digest (a keyed hash of the standard library) and the idle timeout of the settings
-- are parameters. What the tables are at an error is what the request's transaction holds there;
-- the request itself ends without a commit.
pub mod Entitled
pub mod Revoked
pub mod Aggregation
mod Tests
use smart_logistics_accessib.Base.{
  String, Bool, true, false, not, ◌&&◌, Option, none, some, List, [], ◌∷◌, ◌++◌, Uuid, DateTime, ℕ,
  ◌+◌, leb, ltb, map, select, if◌then◌else◌, Result, ok, err, minutes,
}
use smart_logistics_accessib.Identity.Enums.{
  Role, Capability, GrantScopeType, capability_scope, jurisdiction_scope,
}
use smart_logistics_accessib.Identity.Entities.{
  User, Organization, Membership, Grant, SharingGrant, Session, membership_is_effective,
  grant_is_effective, sharing_grant_is_effective, session_is_revoked,
}
use smart_logistics_accessib.Identity.Roles.{role_capabilities}
use smart_logistics_accessib.Identity.Principal.{
  AssignmentContext, SharingGrantContext, PrincipalContext,
}
use smart_logistics_accessib.Identity.Store.{
  IdentityStore, session_idle_timeout, get_session_by_token_digest, revoke_session,
  emit_audit_event, touch_session, get_user_by_id, get_organization_by_id, get_membership,
  get_effective_grants_for_principal, get_active_sharing_grants_for_org,
}

pub data AuthenticationError : Type 0 where
  no_session was_revoked has_expired was_idle : AuthenticationError
  no_user no_organization no_membership : AuthenticationError

-- step 10, one grant of the loop
abbrev pub capabilities_of : GrantScopeType → Grant → List Capability
capabilities_of capability_scope g = g.capabilities
capabilities_of jurisdiction_scope g = []

abbrev pub jurisdictions_of : GrantScopeType → Grant → List Uuid
jurisdictions_of capability_scope g = []
jurisdictions_of jurisdiction_scope g = g.jurisdiction_ids

-- The sets are lists here: what is asked of them is membership.
pub add_capabilities : DateTime → List Grant → List Capability → List Capability
add_capabilities now [] cs = cs
add_capabilities now (g ∷ gs) cs =
    add_capabilities now gs
      (if grant_is_effective g now then cs ++ capabilities_of g.scope_type g else cs)

pub add_jurisdictions : DateTime → List Grant → List Uuid → List Uuid
add_jurisdictions now [] js = js
add_jurisdictions now (g ∷ gs) js =
    add_jurisdictions now gs
      (if grant_is_effective g now then js ++ jurisdictions_of g.scope_type g else js)

-- step 11
pub sharing_contexts : DateTime → List SharingGrant → List SharingGrantContext
sharing_contexts now gs =
    map
      (λ g. record {
        owner_org_id = g.owner_org_id;
        resource_kind = g.resource_kind;
        field_names = g.field_names;
      })
      (select (λ g. sharing_grant_is_effective g now) gs)

abbrev no_assignments : AssignmentContext
no_assignments = record {
  assigned_vehicle_ids = [];
  assigned_trip_ids = [];
  assigned_area_jurisdiction_ids = [];
  assigned_asset_ids = [];
}

-- steps 10 and 11 and the return
pub build_principal :
    DateTime → Session → User → Organization → Membership → IdentityStore → PrincipalContext
build_principal now session user org membership s =
    let grants = get_effective_grants_for_principal session.user_id session.org_id s in
    record {
      user_id = user.id;
      org_id = org.id;
      org_name = org.name;
      org_kind = org.kind;
      role = membership.role;
      capabilities = add_capabilities now grants (role_capabilities membership.role);
      jurisdiction_ids = add_jurisdictions now grants [];
      sharing_grants = sharing_contexts now (get_active_sharing_grants_for_org session.org_id s);
      assignment = no_assignments;
      session_id = some session.id;
      email = user.email;
      display_name = some user.display_name;
      dev_mode = false;
    }

abbrev pub Outcome : Type 0
Outcome = Result AuthenticationError PrincipalContext × IdentityStore

-- step 9
with_membership :
    DateTime → Session → User → Organization → Option Membership → IdentityStore → Outcome
with_membership now session user org none s = (err no_membership, s)
with_membership now session user org (some m) s =
    if membership_is_effective m now
    then (ok (build_principal now session user org m s), s)
    else (err no_membership, s)

-- step 8
with_organization : DateTime → Session → User → Option Organization → IdentityStore → Outcome
unfolding with_membership
with_organization now session user none s = (err no_organization, s)
with_organization now session user (some org) s =
    if org.is_active
    then with_membership now session user org (get_membership session.user_id session.org_id s) s
    else (err no_organization, s)

-- step 7
with_user : DateTime → Session → Option User → IdentityStore → Outcome
unfolding with_organization
with_user now session none s = (err no_user, s)
with_user now session (some user) s =
    if user.is_active
    then with_organization now session user (get_organization_by_id session.org_id s) s
    else (err no_user, s)

-- steps 2 to 6
check_session : ℕ → DateTime → Option Session → IdentityStore → Outcome
unfolding with_user
check_session idle now none s = (err no_session, s)
check_session idle now (some x) s =
    if session_is_revoked x
    then (err was_revoked, s)
    else if leb x.expires_at now
    then (err has_expired, s)
    else if ltb (x.last_seen_at + minutes idle) now
    then (
      err was_idle,
      emit_audit_event session_idle_timeout (some x.user_id) (some x.id)
          (revoke_session x.id "idle_timeout" now s),
    )
    else let touched = touch_session x.id now s in
      with_user now x (get_user_by_id x.user_id touched) touched

pub resolve_principal : (String → String) → ℕ → DateTime → String → IdentityStore → Outcome
unfolding check_session
resolve_principal digest idle now raw_token s =
    check_session idle now (get_session_by_token_digest (digest raw_token) s) s
