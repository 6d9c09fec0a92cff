-- ===== src/Identity/Memberships/Tests.antt =====
-- An instance for the end of a membership.
use smart_logistics_accessib.Base.{◌≡◌, refl, inl, false, true, none, some, [], ◌∷◌, ok, hours}
use smart_logistics_accessib.Identity.Enums.{
  government, platform_administrator, suspended, manage_identity,
}
use smart_logistics_accessib.Identity.Roles.{has_capability}
use smart_logistics_accessib.Identity.Principal.{PrincipalContext, can}
use smart_logistics_accessib.Identity.Store.{
  IdentityStore, membership_suspended, get_membership, update_membership_status, emit_audit_event,
}
use smart_logistics_accessib.Identity.Memberships.{suspend_membership}
use smart_logistics_accessib.Identity.Memberships.Ended.{Ineffective, ended-Ineffective}
use smart_logistics_accessib.Identity.Samples.{noon, tables, member}

abbrev administrator : PrincipalContext
administrator = record {
  user_id = 1;
  org_id = 1;
  org_name = "Platform";
  org_kind = government;
  role = platform_administrator;
  capabilities = manage_identity ∷ [];
  jurisdiction_ids = [];
  sharing_grants = [];
  assignment = record {
    assigned_vehicle_ids = [];
    assigned_trip_ids = [];
    assigned_area_jurisdiction_ids = [];
    assigned_asset_ids = [];
  };
  session_id = none;
  email = none;
  display_name = none;
  dev_mode = false;
}

abbrev after_suspension : IdentityStore
after_suspension =
    emit_audit_event membership_suspended (some 1) (some 9)
      (update_membership_status 9 suspended noon tables)

member_known : get_membership 5 2 tables ≡ some member
unfolding get_membership
member_known = refl

member_suspended : suspend_membership administrator 9 noon tables ≡ ok after_suspension
unfolding suspend_membership can has_capability
member_suspended = refl

ended-Ineffective_example :
    (can administrator manage_identity ≡ true) × Ineffective 5 2 (hours 13) after_suspension
ended-Ineffective_example =
    ended-Ineffective administrator 5 2 noon (hours 13) tables after_suspension member member_known
      (inl member_suspended)
