-- ===== src/Identity/Authorization/Decision.antt =====
-- What the authorization decision comes to, layer by layer, and what a refusal raises.
use mathlib.Core.Bool.{false≢true}
use smart_logistics_accessib.Base.{
  ◌≡◌, ◌⊎◌, ◌↔◌, refl, inl, inr, Bool, true, false, Option, none, some, List, [], Uuid, ◌==◌,
  ==_iff, arith, Bool-cases, if◌then◌else◌, ok, err, In, any_iff, Some, elem_iff, ◌||◌, ◌∷◌,
}
use smart_logistics_accessib.Identity.Enums.{
  Role, Capability, ResourceKind, fleet, delivery, platform_administrator, same_capability,
  same_capability_iff, same_kind_iff,
}
use smart_logistics_accessib.Identity.Roles.{has_capability}
use smart_logistics_accessib.Identity.Principal.{
  PrincipalContext, SharingGrantContext, can, has_jurisdiction, has_sharing_grant, is_assigned,
  is_assigned_to_vehicle, is_assigned_to_trip, is_platform_administrator, covers,
}
use smart_logistics_accessib.Identity.Authorization.{
  CapabilityCheckRequest, capability_not_granted, not_found, forbidden, in_jurisdiction, in_tenancy,
  is_assignee, check_assignment, enforce_capability,
}

-- The jurisdiction asked about is the caller's, or the caller administers the platform.
abbrev pub InScope : PrincipalContext → Option Uuid → Type 0
InScope p none = Unit
InScope p (some j) = (p.role ≡ platform_administrator) ⊎ In j p.jurisdiction_ids

abbrev pub Shares : PrincipalContext → Uuid → Option ResourceKind → Type 0
Shares p org none = ⊥
Shares p org (some kind) =
    (g : SharingGrantContext) × In g p.sharing_grants
    × (g.owner_org_id ≡ org)
    × (g.resource_kind ≡ kind)

-- The resource belongs to the caller's organization, or its owner shares that kind with it.
abbrev pub InTenancy : PrincipalContext → Option Uuid → Option ResourceKind → Type 0
InTenancy p none kind = Unit
InTenancy p (some org) kind = (org ≡ p.org_id) ⊎ Shares p org kind

-- No assignments at all, or one of them.
abbrev pub Assigned : List Uuid → Uuid → Type 0
Assigned ids id = (ids ≡ []) ⊎ In id ids

abbrev pub AssignedTo : PrincipalContext → Option ResourceKind → Uuid → Type 0
AssignedTo p (some fleet) id = Assigned p.assignment.assigned_vehicle_ids id
AssignedTo p (some delivery) id = Assigned p.assignment.assigned_trip_ids id
AssignedTo p _ id = Unit

abbrev pub IsAssignee : PrincipalContext → Option ResourceKind → Option Uuid → Type 0
IsAssignee p kind none = Unit
IsAssignee p kind (some id) = AssignedTo p kind id

-- The caller may see the resource that the request is about.
abbrev pub Visible : CapabilityCheckRequest → Type 0
Visible req =
    InScope req.principal req.jurisdiction_id
    × InTenancy req.principal req.resource_org_id req.resource_kind
    × IsAssignee req.principal req.resource_kind req.resource_id

abbrev pub Granted : CapabilityCheckRequest → Type 0
Granted req = In req.required_capability req.principal.capabilities

can_iff : (p : PrincipalContext) (c : Capability) → (can p c ≡ true) ↔ In c p.capabilities
unfolding can has_capability
can_iff p c = (
  (λ h. found ((any_iff _ p.capabilities).0 h)),
  (λ m. (any_iff _ p.capabilities).1 (c, m, (same_capability_iff c c).1 refl)),
)
  where
    found : Some (same_capability c) p.capabilities → In c p.capabilities
    found (d, m, e) = let q : c ≡ d = (same_capability_iff c d).0 e in rw q m

administers : (r : Role) → is_platform_administrator r ≡ true → r ≡ platform_administrator
administers platform_administrator h = refl
administers _ h = absurd (false≢true h)

or_right : (a : Bool) {b : Bool} → b ≡ true → a || b ≡ true
or_right true h = refl
or_right false h = h

has_jurisdiction_iff :
    (p : PrincipalContext) (o : Option Uuid) → (in_jurisdiction p o ≡ true) ↔ InScope p o
unfolding has_jurisdiction
has_jurisdiction_iff p none = ((λ h. tt), (λ h. refl))
has_jurisdiction_iff p (some j) = (
  (λ h. elim (Bool-cases (is_platform_administrator p.role)) [
    | inl admin ↦ inl (administers p.role admin)
    | inr other ↦ inr ((elem_iff j p.jurisdiction_ids).0 (rw other at h))
  ]),
  (λ s. elim s [
    | inl admin ↦ rw admin refl
    | inr m ↦ or_right _ ((elem_iff j p.jurisdiction_ids).1 m)
  ]),
)

Shares-iff :
    (p : PrincipalContext) (org : Uuid) (kind : ResourceKind)
    → (has_sharing_grant p org kind ≡ true) ↔ Shares p org (some kind)
unfolding has_sharing_grant
Shares-iff p org kind = (
  (λ h. found ((any_iff _ p.sharing_grants).0 h)),
  (λ s. (any_iff _ p.sharing_grants).1 (s.0, s.1, covers_of s.0 s.2 s.3)),
)
  where
    found : Some (covers org kind) p.sharing_grants → Shares p org (some kind)
    found (g, m, e) =
        (g, m, ground (arith, e), (same_kind_iff g.resource_kind kind).0 (ground (arith, e)))

    covers_of :
        (g : SharingGrantContext)
        → g.owner_org_id ≡ org
        → g.resource_kind ≡ kind
        → covers org kind g ≡ true
    covers_of g o k = rw ((==_iff g.owner_org_id org).1 o, (same_kind_iff g.resource_kind kind).1 k)

if_true : (a : Bool) {b : Bool} → b ≡ true → (if a then true else b) ≡ true
if_true true h = refl
if_true false h = h

in_tenancy_iff :
    (p : PrincipalContext) (o : Option Uuid) (k : Option ResourceKind)
    → (in_tenancy p o k ≡ true) ↔ InTenancy p o k
in_tenancy_iff p none k = ((λ h. tt), (λ h. refl))
in_tenancy_iff p (some org) none = ((λ h. ground arith), (λ h. ground arith))
in_tenancy_iff p (some org) (some kind) = (
  (λ h. elim (Bool-cases (org == p.org_id)) [
    | inl own ↦ inl ((==_iff org p.org_id).0 own)
    | inr foreign ↦ inr ((Shares-iff p org kind).0 (rw foreign at h))
  ]),
  (λ s. elim s [
    | inl own ↦ let q : (org == p.org_id) ≡ true = (==_iff org p.org_id).1 own in rw q refl
    | inr shared ↦ if_true _ ((Shares-iff p org kind).1 shared)
  ]),
)

is_assigned_iff : (ids : List Uuid) (id : Uuid) → (is_assigned ids id ≡ true) ↔ Assigned ids id
is_assigned_iff [] id = ((λ h. inl refl), (λ h. refl))
is_assigned_iff (x ∷ xs) id = (
  (λ h. inr ((elem_iff id (x ∷ xs)).0 h)),
  (λ s. elim s [ inl none_there ↦ cc | inr m ↦ (elem_iff id (x ∷ xs)).1 m ]),
)

is_assignee_iff :
    (p : PrincipalContext) (k : Option ResourceKind) (o : Option Uuid)
    → (is_assignee p k o ≡ true) ↔ IsAssignee p k o
unfolding check_assignment is_assigned_to_vehicle is_assigned_to_trip
is_assignee_iff p k none = ((λ h. tt), (λ h. refl))
is_assignee_iff p (some fleet) (some id) = is_assigned_iff p.assignment.assigned_vehicle_ids id
is_assignee_iff p (some delivery) (some id) = is_assigned_iff p.assignment.assigned_trip_ids id
is_assignee_iff p _ (some id) = ((λ h. tt), (λ h. refl))

-- The tests, and what they stand for.
sees_iff :
    (req : CapabilityCheckRequest)
    → ((in_jurisdiction req.principal req.jurisdiction_id ≡ true)
        × (in_tenancy req.principal req.resource_org_id req.resource_kind ≡ true)
        × (is_assignee req.principal req.resource_kind req.resource_id ≡ true))
      ↔ Visible req
sees_iff req = ((λ s. (j.0 s.0, t.0 s.1, a.0 s.2)), (λ v. (j.1 v.0, t.1 v.1, a.1 v.2)))
  where
    j :
        (in_jurisdiction req.principal req.jurisdiction_id ≡ true)
        ↔ InScope req.principal req.jurisdiction_id
    j = has_jurisdiction_iff req.principal req.jurisdiction_id

    t :
        (in_tenancy req.principal req.resource_org_id req.resource_kind ≡ true)
        ↔ InTenancy req.principal req.resource_org_id req.resource_kind
    t = in_tenancy_iff req.principal req.resource_org_id req.resource_kind

    a :
        (is_assignee req.principal req.resource_kind req.resource_id ≡ true)
        ↔ IsAssignee req.principal req.resource_kind req.resource_id
    a = is_assignee_iff req.principal req.resource_kind req.resource_id

-- A request is let through exactly when the capability is granted and the resource is visible.
pub enforce-ok_iff :
    (req : CapabilityCheckRequest) → (enforce_capability req ≡ ok tt) ↔ (Granted req × Visible req)
unfolding enforce_capability
enforce-ok_iff req = (
  (λ h. (
    (can_iff req.principal req.required_capability).0 (ground arith),
    (sees_iff req).0 (ground arith, ground arith, ground arith),
  )),
  (λ g.
      let c = (can_iff req.principal req.required_capability).1 g.0 in
      let s = (sees_iff req).1 g.1 in ground (arith, c, s.0, s.1, s.2)),
)

-- A refusal is 403 exactly when the capability is missing, and 404 exactly when it is granted and
-- the resource is not visible.
pub enforce_refusals :
    (req : CapabilityCheckRequest)
    → ((enforce_capability req ≡ err (forbidden capability_not_granted)) ↔ ¬ Granted req)
      × ((enforce_capability req ≡ err not_found) ↔ (Granted req × ¬ Visible req))
unfolding enforce_capability
enforce_refusals req = (
  (
    (λ h g. let c = (can_iff p c').1 g in ground (arith, c)),
    (λ n. let e = not_granted n in ground (arith, e)),
  ),
  (
    (λ h. (
      (can_iff p c').0 (ground arith),
      (λ v. let s = (sees_iff req).1 v in ground (arith, s.0, s.1, s.2)),
    )),
    (λ g. unseen g.0 g.1),
  ),
)
  where
    p : PrincipalContext
    p = req.principal

    c' : Capability
    c' = req.required_capability

    not_granted : ¬ Granted req → can p c' ≡ false
    not_granted n = elim (Bool-cases (can p c')) [
      | inl e ↦ absurd (n ((can_iff p c').0 e))
      | inr e ↦ e
    ]

    unseen : Granted req → ¬ Visible req → enforce_capability req ≡ err not_found
    unseen g n =
        let c = (can_iff p c').1 g in
        elim (Bool-cases (in_jurisdiction p req.jurisdiction_id)) [
          | inr j ↦ ground (arith, c, j)
          | inl j ↦ elim (Bool-cases (in_tenancy p req.resource_org_id req.resource_kind)) [
            | inr t ↦ ground (arith, c, j, t)
            | inl t ↦ elim (Bool-cases (is_assignee p req.resource_kind req.resource_id)) [
              | inr a ↦ ground (arith, c, j, t, a)
              | inl a ↦ absurd (n ((sees_iff req).0 (j, t, a)))
            ]
          ]
        ]
