-- ===== src/Identity/Authorization.antt =====
-- backend/app/modules/identity/application/check_capability.py: one authorization decision.
pub mod Decision
mod Tests
use smart_logistics_accessib.Base.{
  ◌≡◌, ◌⊎◌, ◌↔◌, refl, inl, inr, Bool, true, false, Option, none, some, Uuid, ◌==◌, arith,
  if◌then◌else◌, Result, ok, err,
}
use smart_logistics_accessib.Identity.Enums.{Capability, ResourceKind, fleet, delivery}
use smart_logistics_accessib.Identity.Principal.{
  PrincipalContext, can, has_jurisdiction, has_sharing_grant, is_assigned_to_vehicle,
  is_assigned_to_trip,
}

pub record CapabilityCheckRequest : Type 0 where
  pub principal : PrincipalContext
  pub required_capability : Capability
  pub resource_org_id : Option Uuid
  pub resource_kind : Option ResourceKind
  pub resource_id : Option Uuid
  pub jurisdiction_id : Option Uuid

pub data Verdict : Type 0 where
  allowed capability_not_granted jurisdiction_not_granted : Verdict
  no_sharing_grant_for_cross_org_resource not_assigned_to_resource : Verdict

-- layer 3
abbrev in_jurisdiction : PrincipalContext → Option Uuid → Bool
in_jurisdiction p none = true
in_jurisdiction p (some j) = has_jurisdiction p j

abbrev shared_with : PrincipalContext → Uuid → Option ResourceKind → Bool
shared_with p org none = false
shared_with p org (some kind) = has_sharing_grant p org kind

-- layers 4 and 5
abbrev in_tenancy : PrincipalContext → Option Uuid → Option ResourceKind → Bool
in_tenancy p none kind = true
in_tenancy p (some org) kind = if org == p.org_id then true else shared_with p org kind

check_assignment : PrincipalContext → Option ResourceKind → Uuid → Bool
check_assignment p (some fleet) id = is_assigned_to_vehicle p.assignment id
check_assignment p (some delivery) id = is_assigned_to_trip p.assignment id
check_assignment p _ id = true

-- layer 6
abbrev is_assignee : PrincipalContext → Option ResourceKind → Option Uuid → Bool
is_assignee p kind none = true
is_assignee p kind (some id) = check_assignment p kind id

pub check_capability : CapabilityCheckRequest → Verdict
check_capability req =
    if can req.principal req.required_capability
    then if in_jurisdiction req.principal req.jurisdiction_id
      then if in_tenancy req.principal req.resource_org_id req.resource_kind
        then if is_assignee req.principal req.resource_kind req.resource_id
          then allowed
          else not_assigned_to_resource
        else no_sharing_grant_for_cross_org_resource
      else jurisdiction_not_granted
    else capability_not_granted

pub data AccessError : Type 0 where
  not_found : AccessError
  forbidden : Verdict → AccessError

raise_for : Verdict → Result AccessError (Unit {0})
raise_for allowed = ok tt
raise_for jurisdiction_not_granted = err not_found
raise_for no_sharing_grant_for_cross_org_resource = err not_found
raise_for not_assigned_to_resource = err not_found
raise_for v = err (forbidden v)

pub enforce_capability : CapabilityCheckRequest → Result AccessError (Unit {0})
unfolding raise_for check_capability
enforce_capability req = raise_for (check_capability req)
