-- ===== src/Identity/Principal.antt =====
-- backend/app/modules/identity/domain/{principal,assignment_context}.py: the caller and its scopes.
use smart_logistics_accessib.Base.{
  String, Bool, true, false, ◌&&◌, ◌||◌, Option, List, [], ◌∷◌, Uuid, ◌==◌, any, elem,
}
use smart_logistics_accessib.Identity.Enums.{
  Role, Capability, ResourceKind, OrgKind, platform_administrator, same_kind,
}
use smart_logistics_accessib.Identity.Roles.{has_capability}

pub record AssignmentContext : Type 0 where
  pub assigned_vehicle_ids : List Uuid
  pub assigned_trip_ids : List Uuid
  pub assigned_area_jurisdiction_ids : List Uuid
  pub assigned_asset_ids : List Uuid

-- `if not ids: return True`, then `id in ids`
abbrev pub is_assigned : List Uuid → Uuid → Bool
is_assigned [] id = true
is_assigned (x ∷ xs) id = elem id (x ∷ xs)

unfoldable pub is_assigned_to_vehicle : AssignmentContext → Uuid → Bool
is_assigned_to_vehicle a vehicle_id = is_assigned a.assigned_vehicle_ids vehicle_id

unfoldable pub is_assigned_to_trip : AssignmentContext → Uuid → Bool
is_assigned_to_trip a trip_id = is_assigned a.assigned_trip_ids trip_id

unfoldable pub is_assigned_to_area : AssignmentContext → Uuid → Bool
is_assigned_to_area a jurisdiction_id = is_assigned a.assigned_area_jurisdiction_ids jurisdiction_id

unfoldable pub is_assigned_to_asset : AssignmentContext → Uuid → Bool
is_assigned_to_asset a asset_id = is_assigned a.assigned_asset_ids asset_id

pub record SharingGrantContext : Type 0 where
  pub owner_org_id : Uuid
  pub resource_kind : ResourceKind
  pub field_names : List String

pub record PrincipalContext : Type 0 where
  pub user_id : Uuid
  pub org_id : Uuid
  pub org_name : String
  pub org_kind : OrgKind
  pub role : Role
  pub capabilities : List Capability
  pub jurisdiction_ids : List Uuid
  pub sharing_grants : List SharingGrantContext
  pub assignment : AssignmentContext
  pub session_id : Option Uuid
  pub email : Option String
  pub display_name : Option String
  pub dev_mode : Bool

unfoldable pub can : PrincipalContext → Capability → Bool
can p capability = has_capability capability p.capabilities

abbrev pub is_platform_administrator : Role → Bool
is_platform_administrator platform_administrator = true
is_platform_administrator _ = false

unfoldable pub has_jurisdiction : PrincipalContext → Uuid → Bool
has_jurisdiction p jurisdiction_id =
    is_platform_administrator p.role || elem jurisdiction_id p.jurisdiction_ids

abbrev pub covers : Uuid → ResourceKind → SharingGrantContext → Bool
covers owner_org_id kind sg = sg.owner_org_id == owner_org_id && same_kind sg.resource_kind kind

unfoldable pub has_sharing_grant : PrincipalContext → Uuid → ResourceKind → Bool
has_sharing_grant p owner_org_id kind = any (covers owner_org_id kind) p.sharing_grants
