-- ===== src/Identity/Memberships.antt =====
-- backend/app/modules/identity/application/membership_service.py: the life of a membership.
-- A fresh identifier and the clock are arguments. The reasons go to the audit payload only.
mod Tests
pub mod Ended
use smart_logistics_accessib.Base.{
  Bool, not, Option, some, Uuid, DateTime, Result, ok, ◌>>◌, raise_if,
}
use smart_logistics_accessib.Identity.Enums.{
  Role, MembershipStatus, active, suspended, revoked, manage_identity,
}
use smart_logistics_accessib.Identity.Entities.{Membership}
use smart_logistics_accessib.Identity.Principal.{PrincipalContext, can}
use smart_logistics_accessib.Identity.Store.{
  IdentityStore, IdentityAuditEvent, membership_created, membership_suspended, membership_revoked,
  create_membership, update_membership_status, emit_audit_event,
}
use smart_logistics_accessib.Identity.Grants.{ends_by, or_now}

-- ForbiddenError by its messages
pub data MembershipError : Type 0 where
  manage_identity_needed period_is_empty : MembershipError

abbrev pub new_membership :
    Uuid → Uuid → Role → Option DateTime → Option DateTime → Uuid → DateTime → Membership
new_membership user_id org_id role valid_from valid_until new_id now = record {
  id = new_id;
  user_id = user_id;
  org_id = org_id;
  role = role;
  status = active;
  valid_from = some (or_now valid_from now);
  valid_until = valid_until;
  created_at = some now;
  updated_at = some now;
}

-- CreateMembershipUseCase.execute
pub create_membership_use_case :
    PrincipalContext
    → Uuid
    → Uuid
    → Role
    → Option DateTime
    → Option DateTime
    → Uuid
    → DateTime
    → IdentityStore
    → Result MembershipError (Membership × IdentityStore)
create_membership_use_case p user_id org_id role valid_from valid_until new_id now s =
    let m = new_membership user_id org_id role valid_from valid_until new_id now in
    raise_if (not (can p manage_identity)) manage_identity_needed
    >> (raise_if (ends_by valid_until (or_now valid_from now)) period_is_empty
        >> ok (
          m,
          emit_audit_event membership_created (some p.user_id) (some new_id)
              (create_membership m s),
        ))

-- SuspendMembershipUseCase.execute
pub suspend_membership :
    PrincipalContext → Uuid → DateTime → IdentityStore → Result MembershipError IdentityStore
suspend_membership p membership_id now s =
    raise_if (not (can p manage_identity)) manage_identity_needed
    >> ok (
        emit_audit_event membership_suspended (some p.user_id) (some membership_id)
          (update_membership_status membership_id suspended now s))

-- RevokeMembershipUseCase.execute
pub revoke_membership :
    PrincipalContext → Uuid → DateTime → IdentityStore → Result MembershipError IdentityStore
revoke_membership p membership_id now s =
    raise_if (not (can p manage_identity)) manage_identity_needed
    >> ok (
        emit_audit_event membership_revoked (some p.user_id) (some membership_id)
          (update_membership_status membership_id revoked now s))
