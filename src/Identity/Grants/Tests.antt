-- ===== src/Identity/Grants/Tests.antt =====
-- Instances for grants.
use smart_logistics_accessib.Base.{
  ◌≡◌, ◌≢◌, ◌⊎◌, refl, true, false, none, some, [], ◌∷◌, ◌++◌, Uuid, ok, All,
}
use smart_logistics_accessib.Identity.Enums.{
  government, district_verifier, view_fleet, capability_scope,
}
use smart_logistics_accessib.Identity.Entities.{Grant}
use smart_logistics_accessib.Identity.Roles.{has_capability}
use smart_logistics_accessib.Identity.Principal.{PrincipalContext, can, is_platform_administrator}
use smart_logistics_accessib.Identity.Store.{
  IdentityStore, grant_created, grant_revoked, get_grant_by_id, create_grant, revoke_grant,
  emit_audit_event, get_effective_grants_for_principal,
}
use smart_logistics_accessib.Identity.Grants.{
  GrantRequest, new_grant, check_capabilities, validate, or_now, create_grant_use_case,
  revoke_grant_use_case,
}
use smart_logistics_accessib.Identity.Grants.Authority.{
  WithinAuthority, OneGrantee, Lasting, created-WithinAuthority, revoked_by_grantor,
}
use smart_logistics_accessib.Identity.Samples.{noon, tables, fleet_grant}

abbrev grantor : PrincipalContext
grantor = record {
  user_id = 1;
  org_id = 1;
  org_name = "Authority";
  org_kind = government;
  role = district_verifier;
  capabilities = view_fleet ∷ [];
  jurisdiction_ids = [];
  sharing_grants = [];
  assignment = record {
    assigned_vehicle_ids = [];
    assigned_trip_ids = [];
    assigned_area_jurisdiction_ids = [];
    assigned_asset_ids = [];
  };
  session_id = none;
  email = none;
  display_name = none;
  dev_mode = false;
}

abbrev request : GrantRequest
request = record {
  scope_type = capability_scope;
  grantee_user_id = some 5;
  grantee_org_id = none;
  capabilities = view_fleet ∷ [];
  jurisdiction_ids = [];
  valid_from = none;
  valid_until = none;
}

abbrev granted : Grant
granted = new_grant grantor request 12 noon

abbrev with_grant : IdentityStore
with_grant = emit_audit_event grant_created (some 1) (some 12) (create_grant granted tables)

grant_made : create_grant_use_case grantor request 12 noon tables ≡ ok (granted, with_grant)
unfolding create_grant_use_case validate check_capabilities can has_capability
grant_made = refl

created-WithinAuthority_example :
    WithinAuthority grantor granted
    × OneGrantee granted.grantee_user_id granted.grantee_org_id
    × Lasting granted.valid_until (or_now request.valid_from noon)
    × (granted ≡ new_grant grantor request 12 noon)
    × (with_grant.grants ≡ tables.grants ++ granted ∷ [])
created-WithinAuthority_example =
    created-WithinAuthority grantor request 12 noon tables with_grant granted grant_made

abbrev without_grant : IdentityStore
without_grant =
    emit_audit_event grant_revoked (some 1) (some 11) (revoke_grant 11 1 "ended" noon tables)

grant_known : get_grant_by_id 11 tables ≡ some fleet_grant
unfolding get_grant_by_id
grant_known = refl

grant_ended : revoke_grant_use_case grantor 11 "ended" noon tables ≡ ok without_grant
unfolding revoke_grant_use_case get_grant_by_id
grant_ended = refl

revoked_by_grantor_example :
    ((is_platform_administrator grantor.role ≡ true)
      ⊎ (fleet_grant.grantor_user_id ≡ grantor.user_id))
    × ((user_id org_id : Uuid)
        → All
            (λ (x : Grant). x.id ≢ 11)
            (get_effective_grants_for_principal user_id org_id without_grant))
revoked_by_grantor_example =
    revoked_by_grantor grantor 11 "ended" noon tables without_grant fleet_grant grant_known
      grant_ended
