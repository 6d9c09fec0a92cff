-- ===== src/Identity/Resolve/Entitled.antt =====
-- Who `resolve_principal` lets in, and with which capabilities.
use smart_logistics_accessib.Base.{
  String, ◌≡◌, refl, ap, ◌∙◌, ◌&&◌, Bool, true, false, Option, none, some, DateTime, ℕ, ◌+◌, ◌≤◌,
  ◌<◌, arith, ok, minutes, In, find-In, find-holds, eq_iff, guard-ok, refuse-ok, ==_iff, leb, ltb,
}
use smart_logistics_accessib.Identity.Enums.{MembershipStatus, active}
use smart_logistics_accessib.Identity.Entities.{
  User, Organization, Membership, Session, membership_is_effective, session_is_revoked,
  starts_later, has_ended, is_active_status,
}
use smart_logistics_accessib.Identity.Principal.{PrincipalContext}
use smart_logistics_accessib.Identity.Store.{
  IdentityStore, get_session_by_token_digest, get_user_by_id, get_organization_by_id,
  get_membership, touch_session,
}
use smart_logistics_accessib.Identity.Resolve.{
  build_principal, with_membership, with_organization, with_user, check_session, resolve_principal,
}

abbrev pub Started : Option DateTime → DateTime → Type 0
Started none now = Unit
Started (some start) now = start ≤ now

abbrev pub Unended : Option DateTime → DateTime → Type 0
Unended none now = Unit
Unended (some stop) now = now < stop

-- The rows that vouch for a caller.
pub record Entitled (digest : String → String) (idle : ℕ) (now : DateTime) (token : String)
    (s : IdentityStore) (p : PrincipalContext) : Type 0 where
  pub session : Session
  pub session_stored : In session s.sessions
  pub token_matches : session.token_digest ≡ digest token
  pub not_revoked : session.revoked_at ≡ none
  pub not_expired : now < session.expires_at
  pub not_idle : now ≤ session.last_seen_at + minutes idle
  pub user : User
  pub user_stored : In user s.users
  pub user_of_session : user.id ≡ session.user_id
  pub user_active : user.is_active ≡ true
  pub organization : Organization
  pub organization_stored : In organization s.organizations
  pub organization_of_session : organization.id ≡ session.org_id
  pub organization_active : organization.is_active ≡ true
  pub membership : Membership
  pub membership_stored : In membership s.memberships
  pub membership_of_user : membership.user_id ≡ session.user_id
  pub membership_in_organization : membership.org_id ≡ session.org_id
  pub membership_active : membership.status ≡ active
  pub membership_started : Started membership.valid_from now
  pub membership_unended : Unended membership.valid_until now
  pub principal_user : p.user_id ≡ session.user_id
  pub principal_org : p.org_id ≡ session.org_id
  pub principal_role : p.role ≡ membership.role
  pub principal_session : p.session_id ≡ some session.id

started : (o : Option DateTime) (now : DateTime) → starts_later o now ≡ false → Started o now
started none now h = tt
started (some t) now h = ground arith

unended : (o : Option DateTime) (now : DateTime) → has_ended o now ≡ false → Unended o now
unended none now h = tt
unended (some t) now h = ground arith

is_active_lem : (x : MembershipStatus) → is_active_status x ≡ true → x ≡ active
is_active_lem active h = refl
is_active_lem _ h = cc

-- Each stage, read backwards from a success.
module _ (now : DateTime) (x : Session) (s : IdentityStore) (p : PrincipalContext) where
  abbrev Membered : User → Organization → Type 0
  Membered u o =
      (m : Membership) × (get_membership x.user_id x.org_id s ≡ some m)
      × (membership_is_effective m now ≡ true)
      × (p ≡ build_principal now x u o m s)

  with_membership-ok :
      (u : User) (o : Organization) (found : Option Membership)
      → get_membership x.user_id x.org_id s ≡ found
      → (with_membership now x u o found s).0 ≡ ok p
      → Membered u o
  unfolding with_membership
  with_membership-ok u o none e h = cc
  with_membership-ok u o (some m) e h =
      let (v, r) = guard-ok (membership_is_effective m now) _ _ refl h in (m, e, v, cc)

  abbrev Organized : User → Type 0
  Organized u =
      (o : Organization) × (get_organization_by_id x.org_id s ≡ some o)
      × (o.is_active ≡ true)
      × Membered u o

  with_organization-ok :
      (u : User) (found : Option Organization)
      → get_organization_by_id x.org_id s ≡ found
      → (with_organization now x u found s).0 ≡ ok p
      → Organized u
  unfolding with_organization
  with_organization-ok u none e h = cc
  with_organization-ok u (some o) e h =
      let (on, r) = guard-ok o.is_active _ _ refl h in (o, e, on, with_membership-ok u o _ refl r)

  with_user-ok :
      (found : Option User)
      → get_user_by_id x.user_id s ≡ found
      → (with_user now x found s).0 ≡ ok p
      → (u : User) × (get_user_by_id x.user_id s ≡ some u) × (u.is_active ≡ true) × Organized u
  unfolding with_user
  with_user-ok none e h = cc
  with_user-ok (some u) e h =
      let (on, r) = guard-ok u.is_active _ _ refl h in (u, e, on, with_organization-ok u _ refl r)

unrevoked : (x : Session) → session_is_revoked x ≡ false → x.revoked_at ≡ none
unfolding session_is_revoked
unrevoked x h = ground arith

-- The tests of a session that passes.
check_session-ok :
    (idle : ℕ) (now : DateTime) (s : IdentityStore) (p : PrincipalContext) (found : Option Session)
    → (check_session idle now found s).0 ≡ ok p
    → (x : Session) × (found ≡ some x)
      × (x.revoked_at ≡ none)
      × (now < x.expires_at)
      × (now ≤ x.last_seen_at + minutes idle)
      × ((with_user now x
            (get_user_by_id x.user_id (touch_session x.id now s))
            (touch_session x.id now s)).0
          ≡ ok p)
unfolding check_session
check_session-ok idle now s p none h = cc
check_session-ok idle now s p (some x) h =
    let (r, h₁) = refuse-ok (session_is_revoked x) _ _ refl h in
    let (e, h₂) = refuse-ok (leb x.expires_at now) _ _ refl h₁ in
    let (i, h₃) = refuse-ok (ltb (x.last_seen_at + minutes idle) now) _ _ refl h₂ in
    (x, refl, unrevoked x r, ground (arith, e), ground (arith, i), h₃)

split_and : (a b : Bool) → a && b ≡ true → (a ≡ true) × (b ≡ true)
split_and true true h = (refl, refl)
split_and true false h = cc
split_and false b h = cc

effective_parts :
    (m : Membership) (now : DateTime)
    → membership_is_effective m now ≡ true
    → (m.status ≡ active) × Started m.valid_from now × Unended m.valid_until now
unfolding membership_is_effective
effective_parts m now h = (
  is_active_lem m.status (ground arith),
  started m.valid_from now (ground arith),
  unended m.valid_until now (ground arith),
)

-- A caller is let in only on a stored session with the token's digest that is not revoked, not past
-- its end and not idle, of an active user, in an active organization, with an effective membership
-- there, and acts for that user, organization and session in the membership's role.
pub resolve_sound :
    (digest : String → String) (idle : ℕ) (now : DateTime) (token : String) (s : IdentityStore)
    {p : PrincipalContext}
    → (resolve_principal digest idle now token s).0 ≡ ok p
    → Entitled digest idle now token s p
unfolding resolve_principal get_session_by_token_digest get_user_by_id get_organization_by_id
    get_membership touch_session build_principal
resolve_sound digest idle now token s {p} h =
    let (x, found, live, fresh, busy, h₁) = check_session-ok idle now s p _ h in
    let (u, fu, au, h₂) = with_user-ok now x (touch_session x.id now s) p _ refl h₁ in
    let (o, fo, ao, h₃) = h₂ in
    let (m, fm, em, e) = h₃ in
    let (status, from, until) = effective_parts m now em in
    let both = split_and _ _ (find-holds _ s.memberships m fm) in
    let user_matches : u.id ≡ x.user_id = (==_iff _ _).0 (find-holds _ s.users u fu) in
    let org_matches : o.id ≡ x.org_id = (==_iff _ _).0 (find-holds _ s.organizations o fo) in
    record {
      session = x;
      session_stored = find-In _ s.sessions x found;
      token_matches = (eq_iff x.token_digest (digest token)).0 (find-holds _ s.sessions x found);
      not_revoked = live;
      not_expired = fresh;
      not_idle = busy;
      user = u;
      user_stored = find-In _ s.users u fu;
      user_of_session = user_matches;
      user_active = au;
      organization = o;
      organization_stored = find-In _ s.organizations o fo;
      organization_of_session = org_matches;
      organization_active = ao;
      membership = m;
      membership_stored = find-In _ s.memberships m fm;
      membership_of_user = (==_iff _ _).0 both.0;
      membership_in_organization = (==_iff _ _).0 both.1;
      membership_active = status;
      membership_started = from;
      membership_unended = until;
      principal_user = ap (λ (q : PrincipalContext). q.user_id) e ∙ user_matches;
      principal_org = ap (λ (q : PrincipalContext). q.org_id) e ∙ org_matches;
      principal_role = ap (λ (q : PrincipalContext). q.role) e;
      principal_session = ap (λ (q : PrincipalContext). q.session_id) e;
    }

-- The rows that the caller is built from.
pub resolve_parts :
    (digest : String → String) (idle : ℕ) (now : DateTime) (token : String) (s : IdentityStore)
    {p : PrincipalContext}
    → (resolve_principal digest idle now token s).0 ≡ ok p
    → (x : Session) × (u : User) × (o : Organization) × (m : Membership) × (u.id ≡ x.user_id)
      × (o.id ≡ x.org_id)
      × (p ≡ build_principal now x u o m (touch_session x.id now s))
unfolding resolve_principal get_user_by_id get_organization_by_id touch_session
resolve_parts digest idle now token s {p} h =
    let (x, found, live, fresh, busy, h₁) = check_session-ok idle now s p _ h in
    let (u, fu, au, h₂) = with_user-ok now x (touch_session x.id now s) p _ refl h₁ in
    let (o, fo, ao, h₃) = h₂ in
    let (m, fm, em, e) = h₃ in
    (
      x,
      u,
      o,
      m,
      (==_iff _ _).0 (find-holds _ s.users u fu),
      (==_iff _ _).0 (find-holds _ s.organizations o fo),
      e,
    )
