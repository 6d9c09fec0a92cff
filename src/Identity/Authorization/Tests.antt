-- ===== src/Identity/Authorization/Tests.antt =====
-- Tests and instances for the authorization decision.
use smart_logistics_accessib.Base.{◌≡◌, ◌↔◌, refl, ok, err, none, some, [], false, Uuid}
use smart_logistics_accessib.Identity.Enums.{
  logistics, fleet_manager, view_fleet, fleet, same_capability,
}
use smart_logistics_accessib.Identity.Roles.{role_capabilities, has_capability}
use smart_logistics_accessib.Identity.Principal.{PrincipalContext, can, has_sharing_grant}
use smart_logistics_accessib.Identity.Authorization.{
  CapabilityCheckRequest, forbidden, not_found, capability_not_granted, enforce_capability,
}
use smart_logistics_accessib.Identity.Authorization.Decision.{
  Granted, Visible, enforce-ok_iff, enforce_refusals,
}

abbrev manager : PrincipalContext
manager = record {
  user_id = 7;
  org_id = 1;
  org_name = "Carriers";
  org_kind = logistics;
  role = fleet_manager;
  capabilities = unfold role_capabilities in role_capabilities fleet_manager;
  jurisdiction_ids = [];
  sharing_grants = [];
  assignment = record {
    assigned_vehicle_ids = [];
    assigned_trip_ids = [];
    assigned_area_jurisdiction_ids = [];
    assigned_asset_ids = [];
  };
  session_id = none;
  email = none;
  display_name = none;
  dev_mode = false;
}

abbrev ask_for : Uuid → CapabilityCheckRequest
ask_for org = record {
  principal = manager;
  required_capability = view_fleet;
  resource_org_id = some org;
  resource_kind = some fleet;
  resource_id = none;
  jurisdiction_id = none;
}

own_fleet : enforce_capability (ask_for 1) ≡ ok tt
unfolding enforce_capability can has_capability same_capability role_capabilities
own_fleet = refl

foreign_fleet : enforce_capability (ask_for 2) ≡ err not_found
unfolding enforce_capability can has_capability same_capability role_capabilities has_sharing_grant
foreign_fleet = refl

enforce-ok_iff_example :
    (enforce_capability (ask_for 1) ≡ ok tt) ↔ (Granted (ask_for 1) × Visible (ask_for 1))
enforce-ok_iff_example = enforce-ok_iff (ask_for 1)

enforce_refusals_example :
    ((enforce_capability (ask_for 2) ≡ err (forbidden capability_not_granted))
      ↔ ¬ Granted (ask_for 2))
    × ((enforce_capability (ask_for 2) ≡ err not_found)
        ↔ (Granted (ask_for 2) × ¬ Visible (ask_for 2)))
enforce_refusals_example = enforce_refusals (ask_for 2)
