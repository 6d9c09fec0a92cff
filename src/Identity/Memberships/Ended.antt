-- ===== src/Identity/Memberships/Ended.antt =====
-- A membership that was suspended or revoked entitles to nothing.
use smart_logistics_accessib.Base.{
  ◌≡◌, refl, ◌⊎◌, inl, inr, true, false, ◌&&◌, some, Uuid, DateTime, ok, ◌==◌, ==_iff, ◌∙◌,
  find-update_where, raise_if-ok, ok-injective,
}
use smart_logistics_accessib.Identity.Enums.{MembershipStatus, suspended, revoked, manage_identity}
use smart_logistics_accessib.Identity.Entities.{
  Membership, membership_is_effective, is_active_status,
}
use smart_logistics_accessib.Identity.Principal.{PrincipalContext, can}
use smart_logistics_accessib.Identity.Store.{
  IdentityStore, IdentityAuditEvent, get_membership, set_membership_status,
  update_membership_status, emit_audit_event,
}
use smart_logistics_accessib.Identity.Grants.Authority.{true_of_not}
use smart_logistics_accessib.Identity.Memberships.{
  MembershipError, suspend_membership, revoke_membership,
}

-- The membership of the user in the organization is found, and it is not effective.
abbrev pub Ineffective : Uuid → Uuid → DateTime → IdentityStore → Type 0
Ineffective user_id org_id later s =
    (m : Membership) × (get_membership user_id org_id s ≡ some m)
    × (membership_is_effective m later ≡ false)

status_changed :
    (user_id org_id : Uuid) (status : MembershipStatus) (now later : DateTime)
    (event : IdentityAuditEvent) (actor : Uuid) (s : IdentityStore) (m : Membership)
    → get_membership user_id org_id s ≡ some m
    → is_active_status status ≡ false
    → Ineffective user_id org_id later (
        emit_audit_event event
          (some actor)
          (some m.id)
          (update_membership_status m.id status now s))
unfolding get_membership membership_is_effective update_membership_status emit_audit_event
status_changed user_id org_id status now later event actor s m found inactive = (
  set_membership_status status now m,
  find-update_where (λ x. x.user_id == user_id && x.org_id == org_id) (λ x. x.id == m.id)
        (set_membership_status status now) (λ x. refl) s.memberships m found
      ∙ rw ((==_iff m.id m.id).1 refl) refl,
  rw inactive refl,
)

-- A suspension or a revocation that returns was asked for with the capability to manage identities,
-- and from then on the membership that is found for that user and organization is not effective.
pub ended-Ineffective :
    (p : PrincipalContext) (user_id org_id : Uuid) (now later : DateTime) (s s' : IdentityStore)
    (m : Membership)
    → get_membership user_id org_id s ≡ some m
    → (suspend_membership p m.id now s ≡ ok s') ⊎ (revoke_membership p m.id now s ≡ ok s')
    → (can p manage_identity ≡ true) × Ineffective user_id org_id later s'
unfolding suspend_membership revoke_membership
ended-Ineffective p user_id org_id now later s s' m found (inl h) =
    let (a, b) = raise_if-ok _ _ _ h in
    (
      true_of_not _ a,
      rw (← ok-injective {E = MembershipError} b)
          (status_changed user_id org_id suspended now later _ _ s m found refl),
    )
ended-Ineffective p user_id org_id now later s s' m found (inr h) =
    let (a, b) = raise_if-ok _ _ _ h in
    (
      true_of_not _ a,
      rw (← ok-injective {E = MembershipError} b)
          (status_changed user_id org_id revoked now later _ _ s m found refl),
    )
