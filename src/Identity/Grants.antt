-- ===== src/Identity/Grants.antt =====
-- backend/app/modules/identity/application/grant_service.py: grants and sharing grants.
-- A fresh identifier and the clock are arguments. A call that raises has written nothing before.
mod Tests
pub mod Authority
use smart_logistics_accessib.Base.{
  String, Bool, true, false, ◌&&◌, ◌||◌, not, Option, none, some, List, [], ◌∷◌, Uuid, DateTime,
  ◌==◌, leb, is_some, Result, ok, err, ◌>>◌, raise_if,
}
use smart_logistics_accessib.Identity.Enums.{
  Role, Capability, ResourceKind, GrantScopeType, capability_scope, jurisdiction_scope,
  fleet_manager,
}
use smart_logistics_accessib.Identity.Entities.{Grant, SharingGrant}
use smart_logistics_accessib.Identity.Principal.{
  PrincipalContext, can, has_jurisdiction, is_platform_administrator,
}
use smart_logistics_accessib.Identity.Store.{
  IdentityStore, grant_created, grant_revoked, sharing_grant_created, get_grant_by_id, create_grant,
  revoke_grant, create_sharing_grant, emit_audit_event,
}

-- GrantAuthorityError by its messages, and the two exceptions of a revocation
pub data GrantError : Type 0 where
  not_one_grantee capability_lacking jurisdiction_lacking empty_period : GrantError
  not_permitted grant_not_found : GrantError

pub check_capabilities : PrincipalContext → List Capability → Result GrantError (Unit {0})
check_capabilities grantor [] = ok tt
check_capabilities grantor (c ∷ cs) =
    raise_if (not (can grantor c)) capability_lacking >> check_capabilities grantor cs

pub check_jurisdictions : PrincipalContext → List Uuid → Result GrantError (Unit {0})
check_jurisdictions grantor [] = ok tt
check_jurisdictions grantor (j ∷ js) =
    raise_if (not (has_jurisdiction grantor j)) jurisdiction_lacking
    >> check_jurisdictions grantor js

-- ValidateGrantAuthorityUseCase.validate
pub validate :
    PrincipalContext → GrantScopeType → List Capability → List Uuid → Result GrantError (Unit {0})
validate grantor capability_scope capabilities jurisdiction_ids =
    check_capabilities grantor capabilities
validate grantor jurisdiction_scope capabilities jurisdiction_ids =
    check_jurisdictions grantor jurisdiction_ids

-- the arguments of CreateGrantUseCase.execute
pub record GrantRequest : Type 0 where
  pub scope_type : GrantScopeType
  pub grantee_user_id : Option Uuid
  pub grantee_org_id : Option Uuid
  pub capabilities : List Capability
  pub jurisdiction_ids : List Uuid
  pub valid_from : Option DateTime
  pub valid_until : Option DateTime

-- `(a is None and b is None) or (a is not None and b is not None)`
abbrev pub both_or_neither : Option Uuid → Option Uuid → Bool
both_or_neither user_id org_id =
    (not (is_some user_id) && not (is_some org_id)) || (is_some user_id && is_some org_id)

-- `valid_until and valid_until <= effective_valid_from`
abbrev pub ends_by : Option DateTime → DateTime → Bool
ends_by none start = false
ends_by (some stop) start = leb stop start

abbrev pub or_now : Option DateTime → DateTime → DateTime
or_now none now = now
or_now (some start) now = start

abbrev pub new_grant : PrincipalContext → GrantRequest → Uuid → DateTime → Grant
new_grant grantor request new_id now = record {
  id = new_id;
  grantor_user_id = grantor.user_id;
  grantor_org_id = grantor.org_id;
  scope_type = request.scope_type;
  grantee_user_id = request.grantee_user_id;
  grantee_org_id = request.grantee_org_id;
  capabilities = request.capabilities;
  jurisdiction_ids = request.jurisdiction_ids;
  valid_from = some (or_now request.valid_from now);
  valid_until = request.valid_until;
  is_active = true;
  revoked_at = none;
  revoked_by = none;
  revocation_reason = none;
  created_at = some now;
}

-- CreateGrantUseCase.execute
pub create_grant_use_case :
    PrincipalContext
    → GrantRequest
    → Uuid
    → DateTime
    → IdentityStore
    → Result GrantError (Grant × IdentityStore)
create_grant_use_case grantor request new_id now s =
    raise_if (both_or_neither request.grantee_user_id request.grantee_org_id) not_one_grantee
    >> (validate grantor request.scope_type request.capabilities request.jurisdiction_ids
        >> (raise_if (ends_by request.valid_until (or_now request.valid_from now)) empty_period
            >> ok (
              new_grant grantor request new_id now,
              emit_audit_event grant_created (some grantor.user_id) (some new_id)
                  (create_grant (new_grant grantor request new_id now) s),
            )))

-- RevokeGrantUseCase.execute, once the grant is found
abbrev pub revoke_found :
    PrincipalContext
    → Uuid
    → String
    → DateTime
    → Grant
    → IdentityStore
    → Result GrantError IdentityStore
revoke_found p grant_id reason now grant s =
    raise_if (not (is_platform_administrator p.role) && not (grant.grantor_user_id == p.user_id))
      not_permitted
    >> ok (
        emit_audit_event grant_revoked (some p.user_id) (some grant_id)
          (revoke_grant grant_id p.user_id reason now s))

-- RevokeGrantUseCase.execute
pub revoke_grant_use_case :
    PrincipalContext → Uuid → String → DateTime → IdentityStore → Result GrantError IdentityStore
revoke_grant_use_case p grant_id reason now s = elim (get_grant_by_id grant_id s) [
  | none ↦ err grant_not_found
  | some grant ↦ revoke_found p grant_id reason now grant s
]

abbrev pub may_share : Role → Bool
may_share fleet_manager = true
may_share role = is_platform_administrator role

abbrev pub new_sharing_grant :
    PrincipalContext
    → Uuid
    → ResourceKind
    → List String
    → Option DateTime
    → Uuid
    → DateTime
    → SharingGrant
new_sharing_grant p recipient_org_id kind field_names valid_until new_id now = record {
  id = new_id;
  owner_org_id = p.org_id;
  recipient_org_id = recipient_org_id;
  resource_kind = kind;
  field_names = field_names;
  valid_from = some now;
  valid_until = valid_until;
  is_active = true;
  created_at = some now;
}

-- CreateSharingGrantUseCase.execute; a missing list of fields is the empty one
pub create_sharing_grant_use_case :
    PrincipalContext
    → Uuid
    → ResourceKind
    → List String
    → Option DateTime
    → Uuid
    → DateTime
    → IdentityStore
    → Result GrantError (SharingGrant × IdentityStore)
create_sharing_grant_use_case p recipient_org_id kind field_names valid_until new_id now s =
    let g = new_sharing_grant p recipient_org_id kind field_names valid_until new_id now in
    raise_if (not (may_share p.role)) not_permitted
    >> ok (
      g,
      emit_audit_event sharing_grant_created (some p.user_id) (some new_id)
          (create_sharing_grant g s),
    )
