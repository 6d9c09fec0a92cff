-- ===== src/Identity/Grants/Authority.antt =====
-- What a grantor may pass on, and what a revocation takes back.
use smart_logistics_accessib.Base.{
  ◌≡◌, ◌≢◌, refl, ◌⊎◌, inl, inr, Bool, true, false, not, ◌&&◌, Option, none, some, List, [], ◌∷◌,
  ◌++◌, Uuid, String, DateTime, ◌<◌, arith, Result, ok, In, here, there, In-select, In-update_where,
  raise_if-ok, ok-injective, ap, >>=-eq-ok, ◌==◌, ==_iff, All, All-In,
}
use smart_logistics_accessib.Identity.Enums.{
  Capability, GrantScopeType, capability_scope, jurisdiction_scope,
}
use smart_logistics_accessib.Identity.Entities.{Grant}
use smart_logistics_accessib.Identity.Principal.{
  PrincipalContext, can, has_jurisdiction, is_platform_administrator,
}
use smart_logistics_accessib.Identity.Store.{
  IdentityStore, grant_created, grant_revoked, create_grant, emit_audit_event, get_grant_by_id,
  revoke_grant, get_effective_grants_for_principal, is_granted_to, take_back,
}
use smart_logistics_accessib.Identity.Resolve.{capabilities_of, jurisdictions_of}
use smart_logistics_accessib.Identity.Grants.{
  GrantError, GrantRequest, check_capabilities, check_jurisdictions, validate, both_or_neither,
  ends_by, or_now, new_grant, create_grant_use_case, revoke_grant_use_case,
}

-- What the grant adds to a session of the grantee, the grantor has.
abbrev pub WithinAuthority : PrincipalContext → Grant → Type 0
WithinAuthority p g =
    ((c : Capability) → In c (capabilities_of g.scope_type g) → can p c ≡ true)
    × ((j : Uuid) → In j (jurisdictions_of g.scope_type g) → has_jurisdiction p j ≡ true)

-- One of the two grantees is named and not the other.
pub data OneGrantee : Option Uuid → Option Uuid → Type 0 where
  user_only : {id : Uuid} → OneGrantee (some id) none
  organization_only : {id : Uuid} → OneGrantee none (some id)

pub true_of_not : (b : Bool) → not b ≡ false → b ≡ true
true_of_not true h = refl
true_of_not false h = cc

left_true : (b c : Bool) → (b && c) ≡ true → b ≡ true
left_true true c h = refl
left_true false c h = cc

capabilities_checked :
    (p : PrincipalContext) (cs : List Capability)
    → check_capabilities p cs ≡ ok tt
    → (c : Capability) → In c cs
    → can p c ≡ true
unfolding check_capabilities
capabilities_checked p [] h c m = elim m [ ]
capabilities_checked p (x ∷ xs) h c (here e) =
    let (a, b) = raise_if-ok _ _ _ h in rw e (true_of_not _ a)
capabilities_checked p (x ∷ xs) h c (there m) =
    let (a, b) = raise_if-ok _ _ _ h in capabilities_checked p xs b c m

jurisdictions_checked :
    (p : PrincipalContext) (js : List Uuid)
    → check_jurisdictions p js ≡ ok tt
    → (j : Uuid) → In j js
    → has_jurisdiction p j ≡ true
unfolding check_jurisdictions
jurisdictions_checked p [] h j m = elim m [ ]
jurisdictions_checked p (x ∷ xs) h j (here e) =
    let (a, b) = raise_if-ok _ _ _ h in rw e (true_of_not _ a)
jurisdictions_checked p (x ∷ xs) h j (there m) =
    let (a, b) = raise_if-ok _ _ _ h in jurisdictions_checked p xs b j m

validated :
    (p : PrincipalContext) (request : GrantRequest) (new_id : Uuid) (now : DateTime)
    (scope : GrantScopeType)
    → scope ≡ request.scope_type
    → validate p scope request.capabilities request.jurisdiction_ids ≡ ok tt
    → WithinAuthority p (new_grant p request new_id now)
unfolding validate
validated p request new_id now capability_scope e h =
    rw (← e) (capabilities_checked p request.capabilities h, (λ j m. elim m [ ]))
validated p request new_id now jurisdiction_scope e h =
    rw (← e) ((λ c m. elim m [ ]), jurisdictions_checked p request.jurisdiction_ids h)

one_grantee : (u o : Option Uuid) → both_or_neither u o ≡ false → OneGrantee u o
one_grantee none none h = cc
one_grantee none (some id) h = organization_only
one_grantee (some id) none h = user_only
one_grantee (some id) (some id') h = cc

abbrev pub Lasting : Option DateTime → DateTime → Type 0
Lasting none start = Unit
Lasting (some stop) start = start < stop

lasting : (o : Option DateTime) (start : DateTime) → ends_by o start ≡ false → Lasting o start
lasting none start h = tt
lasting (some stop) start h = ground arith

made :
    (g g' : Grant) (s s' : IdentityStore)
    → ◌≡◌ {A = Result GrantError (Grant × IdentityStore)} (ok (g, s)) (ok (g', s'))
    → (g ≡ g') × (s ≡ s')
made g g' s s' e = let pair = ok-injective e in (ap (λ x. x.0) pair, ap (λ x. x.1) pair)

-- A grant that is created adds for its grantee no capability and no jurisdiction that the grantor
-- lacks, names one grantee, a user or an organization, ends after it starts, and is stored as it was
-- asked for.
pub created-WithinAuthority :
    (p : PrincipalContext) (request : GrantRequest) (new_id : Uuid) (now : DateTime)
    (s s' : IdentityStore) (g : Grant)
    → create_grant_use_case p request new_id now s ≡ ok (g, s')
    → WithinAuthority p g
      × OneGrantee g.grantee_user_id g.grantee_org_id
      × Lasting g.valid_until (or_now request.valid_from now)
      × (g ≡ new_grant p request new_id now)
      × (s'.grants ≡ s.grants ++ g ∷ [])
unfolding create_grant_use_case create_grant emit_audit_event
created-WithinAuthority p request new_id now s s' g h =
    let (a, h₁) = raise_if-ok _ _ _ h in
    let (t, b, h₂) = >>=-eq-ok _ _ h₁ in
    let (c, h₃) = raise_if-ok _ _ _ h₂ in
    let pair =
      made (new_grant p request new_id now) g
        (emit_audit_event grant_created (some p.user_id) (some new_id)
          (create_grant (new_grant p request new_id now) s))
        s' h₃ in
    rw (← pair.0, ← pair.1)
      (
        validated p request new_id now request.scope_type refl b,
        one_grantee _ _ a,
        lasting _ _ c,
        refl,
        refl,
      )

grantor_or_administrator :
    (b : Bool) (m n : Uuid) → (not b && not (m == n)) ≡ false → (b ≡ true) ⊎ (m ≡ n)
grantor_or_administrator true m n h = inl refl
grantor_or_administrator false m n h = inr ((==_iff m n).0 (true_of_not _ h))

not_effective :
    (p : PrincipalContext) (grant_id : Uuid) (reason : String) (now : DateTime) (s : IdentityStore)
    → let s' =
        emit_audit_event grant_revoked
          (some p.user_id)
          (some grant_id)
          (revoke_grant grant_id p.user_id reason now s) in
      (user_id org_id : Uuid) (x : Grant)
      → In x (get_effective_grants_for_principal user_id org_id s')
      → x.id ≢ grant_id
unfolding emit_audit_event revoke_grant get_effective_grants_for_principal
not_effective p grant_id reason now s user_id org_id x m same =
    let s' = revoke_grant grant_id p.user_id reason now s in
    let (n, effective) =
      In-select (λ g. g.is_active && is_granted_to user_id org_id g) s'.grants x m in
    let (y, changed) =
      In-update_where (λ g. g.id == grant_id) (take_back p.user_id reason now) s.grants x n
        ((==_iff x.id grant_id).1 same) in
    let inactive : x.is_active ≡ false = rw changed refl in
    let active : x.is_active ≡ true =
      left_true x.is_active (is_granted_to user_id org_id x) effective in
    cc

-- A revocation that returns was asked for by an administrator of the platform or by the grantor, and
-- afterwards the grant is among the effective grants of no user and no organization.
pub revoked_by_grantor :
    (p : PrincipalContext) (grant_id : Uuid) (reason : String) (now : DateTime)
    (s s' : IdentityStore) (g : Grant)
    → get_grant_by_id grant_id s ≡ some g
    → revoke_grant_use_case p grant_id reason now s ≡ ok s'
    → ((is_platform_administrator p.role ≡ true) ⊎ (g.grantor_user_id ≡ p.user_id))
      × ((user_id org_id : Uuid)
          → All
              (λ (x : Grant). x.id ≢ grant_id)
              (get_effective_grants_for_principal user_id org_id s'))
unfolding revoke_grant_use_case
revoked_by_grantor p grant_id reason now s s' g found h =
    let (a, b) = raise_if-ok _ _ _ (rw (revoke_grant_use_case, found) at h) in
    (
      grantor_or_administrator _ _ _ a,
      (λ user_id org_id.
          All-In (λ (x : Grant). x.id ≢ grant_id)
            (get_effective_grants_for_principal user_id org_id s')
            (rw (← ok-injective {E = GrantError} b)
              (not_effective p grant_id reason now s user_id org_id))),
    )
