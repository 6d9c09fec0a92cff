-- ===== src/Identity/Resolve/Aggregation.antt =====
-- Which capabilities and jurisdictions the resolved caller has.
use mathlib.Core.Path.{subst}
use smart_logistics_accessib.Base.{
  String, ◌≡◌, ◌↔◌, ◌⊎◌, refl, sym, ap, ◌∙◌, inl, inr, Bool, true, false, List, [], ◌∷◌, ◌++◌, Uuid,
  DateTime, ℕ, if◌then◌else◌, ok, In, here, there, In-append, In-append_left, In-append_right,
}
use smart_logistics_accessib.Identity.Enums.{
  Capability, GrantScopeType, capability_scope, jurisdiction_scope,
}
use smart_logistics_accessib.Identity.Entities.{Grant, grant_is_effective}
use smart_logistics_accessib.Identity.Roles.{role_capabilities}
use smart_logistics_accessib.Identity.Principal.{PrincipalContext}
use smart_logistics_accessib.Identity.Store.{
  IdentityStore, get_effective_grants_for_principal, touch_session,
}
use smart_logistics_accessib.Identity.Resolve.{
  add_capabilities, capabilities_of, resolve_principal, build_principal,
}
use smart_logistics_accessib.Identity.Resolve.Entitled.{resolve_parts}

-- A grant of these that is in force and gives the capability.
abbrev pub GivenBy : DateTime → List Grant → Capability → Type 0
GivenBy now gs c =
    (g : Grant) × In g gs
    × (grant_is_effective g now ≡ true)
    × (g.scope_type ≡ capability_scope)
    × In c g.capabilities

capabilities_of_given :
    (t : GrantScopeType) (g : Grant) (c : Capability)
    → In c (capabilities_of t g)
    → (t ≡ capability_scope) × In c g.capabilities
capabilities_of_given capability_scope g c m = (refl, m)
capabilities_of_given jurisdiction_scope g c m = elim m [ ]

given_more :
    (now : DateTime) (g : Grant) (gs : List Grant) (c : Capability)
    → GivenBy now gs c
    → GivenBy now (g ∷ gs) c
given_more now g gs c (h, m, e, t, k) = (h, there m, e, t, k)

from_first :
    (b : Bool) (g : Grant) (cs : List Capability) (c : Capability)
    → In c (if b then cs ++ capabilities_of g.scope_type g else cs)
    → In c cs ⊎ ((b ≡ true) × (g.scope_type ≡ capability_scope) × In c g.capabilities)
from_first false g cs c m = inl m
from_first true g cs c m = elim (In-append c cs _ m) [
  | inl old ↦ inl old
  | inr new ↦ let (t, k) = capabilities_of_given g.scope_type g c new in inr (refl, t, k)
]

add_capabilities_sound :
    (now : DateTime) (gs : List Grant) (cs : List Capability) (c : Capability)
    → In c (add_capabilities now gs cs)
    → In c cs ⊎ GivenBy now gs c
unfolding add_capabilities
add_capabilities_sound now [] cs c m = inl m
add_capabilities_sound now (g ∷ gs) cs c m = elim (add_capabilities_sound now gs _ c m) [
  | inr given ↦ inr (given_more now g gs c given)
  | inl first ↦ elim (from_first (grant_is_effective g now) g cs c first) [
    | inl old ↦ inl old
    | inr (e, t, k) ↦ inr (g, here refl, e, t, k)
  ]
]

keeps_first :
    (b : Bool) (g : Grant) (cs : List Capability) (c : Capability)
    → In c cs
    → In c (if b then cs ++ capabilities_of g.scope_type g else cs)
keeps_first true g cs c m = In-append_left c cs _ m
keeps_first false g cs c m = m

takes_first :
    (g : Grant) (cs : List Capability) (c : Capability) (t : GrantScopeType)
    → t ≡ capability_scope
    → In c g.capabilities
    → In c (cs ++ capabilities_of t g)
takes_first g cs c capability_scope e m = In-append_right c cs g.capabilities m
takes_first g cs c jurisdiction_scope e m = cc

add_capabilities_keeps :
    (now : DateTime) (gs : List Grant) (cs : List Capability) (c : Capability)
    → In c cs
    → In c (add_capabilities now gs cs)
unfolding add_capabilities
add_capabilities_keeps now [] cs c m = m
add_capabilities_keeps now (g ∷ gs) cs c m =
    add_capabilities_keeps now gs _ c (keeps_first (grant_is_effective g now) g cs c m)

module _ (now : DateTime) (c : Capability) where
  add_capabilities_takes :
      (gs : List Grant) (cs : List Capability) (h : Grant)
      → In h gs
      → grant_is_effective h now ≡ true
      → h.scope_type ≡ capability_scope
      → In c h.capabilities
      → In c (add_capabilities now gs cs)
  unfolding add_capabilities
  add_capabilities_takes [] cs h m e t k = elim m [ ]
  add_capabilities_takes (g ∷ gs) cs h (there m) e t k = add_capabilities_takes gs _ h m e t k
  add_capabilities_takes (g ∷ gs) cs h (here q) e t k =
      add_capabilities_keeps now gs _ c (first_taken g h cs q e t k)
    where
      first_taken :
          (g h : Grant) (cs : List Capability)
          → h ≡ g
          → grant_is_effective h now ≡ true
          → h.scope_type ≡ capability_scope
          → In c h.capabilities
          → In c (if grant_is_effective g now then cs ++ capabilities_of g.scope_type g else cs)
      first_taken g h cs q e t k = rw (← q) (rw e (takes_first h cs c h.scope_type t k))

-- The capabilities of the role, and those of the grants in force that name the user or the
-- organization.
abbrev pub Holds : DateTime → IdentityStore → PrincipalContext → Uuid → Uuid → Capability → Type 0
Holds now s p user org c =
    In c (role_capabilities p.role) ⊎ GivenBy now (get_effective_grants_for_principal user org s) c

capabilities-eq :
    (digest : String → String) (idle : ℕ) (now : DateTime) (token : String) (s : IdentityStore)
    (p : PrincipalContext)
    → (resolve_principal digest idle now token s).0 ≡ ok p
    → p.capabilities
      ≡ add_capabilities now
          (get_effective_grants_for_principal p.user_id p.org_id s)
          (role_capabilities p.role)
unfolding build_principal get_effective_grants_for_principal touch_session
capabilities-eq digest idle now token s p h =
    let (x, u, o, m, eu, eo, e) = resolve_parts digest idle now token s h in
    let user : p.user_id ≡ x.user_id = ap (λ (q : PrincipalContext). q.user_id) e ∙ eu in
    let org : p.org_id ≡ x.org_id = ap (λ (q : PrincipalContext). q.org_id) e ∙ eo in
    let role : p.role ≡ m.role = ap (λ (q : PrincipalContext). q.role) e in
    ap (λ (q : PrincipalContext). q.capabilities) e ∙ (λ i.
      add_capabilities now (get_effective_grants_for_principal (sym user i) (sym org i) s)
        (role_capabilities (sym role i)))

-- A resolved caller has a capability exactly when the role gives it, or a grant to the user or to
-- the organization that is stored, unrevoked and in force at that instant does.
pub resolve_capabilities :
    (digest : String → String) (idle : ℕ) (now : DateTime) (token : String) (s : IdentityStore)
    (p : PrincipalContext)
    → (resolve_principal digest idle now token s).0 ≡ ok p
    → (c : Capability) → In c p.capabilities ↔ Holds now s p p.user_id p.org_id c
resolve_capabilities digest idle now token s p h c =
    let e = capabilities-eq digest idle now token s p h in
    (
      (λ m. add_capabilities_sound now _ (role_capabilities p.role) c (subst (In c) e m)),
      (λ held. subst (In c) (sym e) (back held)),
    )
  where
    back :
        Holds now s p p.user_id p.org_id c
        → In c (
            add_capabilities now
              (get_effective_grants_for_principal p.user_id p.org_id s)
              (role_capabilities p.role))
    back (inl r) = add_capabilities_keeps now _ _ c r
    back (inr (g, m, e, t, k)) = add_capabilities_takes now c _ _ g m e t k
