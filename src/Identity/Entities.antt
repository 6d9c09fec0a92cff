-- ===== src/Identity/Entities.antt =====
-- backend/app/modules/identity/domain/entities.py: the records and their rules on time.
use smart_logistics_accessib.Base.{
  String, Bool, true, false, ◌&&◌, ◌||◌, not, Option, none, some, List, Uuid, DateTime, ℕ, ◌+◌, leb,
  ltb, is_some, minutes,
}
use smart_logistics_accessib.Identity.Enums.{
  Role, Capability, ResourceKind, MembershipStatus, OrgKind, GrantScopeType, active,
}

pub record User : Type 0 where
  pub id : Uuid
  pub issuer : String
  pub subject : String
  pub email : Option String
  pub display_name : String
  pub is_active : Bool
  pub created_at : Option DateTime
  pub updated_at : Option DateTime

pub record Organization : Type 0 where
  pub id : Uuid
  pub code : String
  pub name : String
  pub kind : OrgKind
  pub is_active : Bool
  pub created_at : Option DateTime
  pub updated_at : Option DateTime

pub record Membership : Type 0 where
  pub id : Uuid
  pub user_id : Uuid
  pub org_id : Uuid
  pub role : Role
  pub status : MembershipStatus
  pub valid_from : Option DateTime
  pub valid_until : Option DateTime
  pub created_at : Option DateTime
  pub updated_at : Option DateTime

pub record Grant : Type 0 where
  pub id : Uuid
  pub grantor_user_id : Uuid
  pub grantor_org_id : Uuid
  pub scope_type : GrantScopeType
  pub grantee_user_id : Option Uuid
  pub grantee_org_id : Option Uuid
  pub capabilities : List Capability
  pub jurisdiction_ids : List Uuid
  pub valid_from : Option DateTime
  pub valid_until : Option DateTime
  pub is_active : Bool
  pub revoked_at : Option DateTime
  pub revoked_by : Option Uuid
  pub revocation_reason : Option String
  pub created_at : Option DateTime

pub record SharingGrant : Type 0 where
  pub id : Uuid
  pub owner_org_id : Uuid
  pub recipient_org_id : Uuid
  pub resource_kind : ResourceKind
  pub field_names : List String
  pub valid_from : Option DateTime
  pub valid_until : Option DateTime
  pub is_active : Bool
  pub created_at : Option DateTime

pub record Session : Type 0 where
  pub id : Uuid
  pub user_id : Uuid
  pub org_id : Uuid
  pub role : Role
  pub token_digest : String
  pub ip_address : Option String
  pub user_agent : Option String
  pub created_at : DateTime
  pub last_seen_at : DateTime
  pub expires_at : DateTime
  pub revoked_at : Option DateTime
  pub revocation_reason : Option String

pub record CsrfToken : Type 0 where
  pub id : Uuid
  pub session_id : Uuid
  pub token_digest : String
  pub created_at : DateTime
  pub expires_at : DateTime

pub record AuthTransaction : Type 0 where
  pub id : Uuid
  pub state : String
  pub nonce : String
  pub code_verifier : String
  pub ip_address : Option String
  pub created_at : DateTime
  pub expires_at : DateTime
  pub consumed_at : Option DateTime

-- `valid_from and valid_from > now`
abbrev pub starts_later : Option DateTime → DateTime → Bool
starts_later none now = false
starts_later (some start) now = ltb now start

-- `valid_until and valid_until <= now`
abbrev pub has_ended : Option DateTime → DateTime → Bool
has_ended none now = false
has_ended (some stop) now = leb stop now

abbrev pub is_active_status : MembershipStatus → Bool
is_active_status active = true
is_active_status _ = false

unfoldable pub membership_is_effective : Membership → DateTime → Bool
membership_is_effective m now =
    is_active_status m.status
    && not (starts_later m.valid_from now)
    && not (has_ended m.valid_until now)

unfoldable pub grant_is_effective : Grant → DateTime → Bool
grant_is_effective g now =
    g.is_active && not (starts_later g.valid_from now) && not (has_ended g.valid_until now)

unfoldable pub sharing_grant_is_effective : SharingGrant → DateTime → Bool
sharing_grant_is_effective g now =
    g.is_active && not (starts_later g.valid_from now) && not (has_ended g.valid_until now)

unfoldable pub session_is_revoked : Session → Bool
session_is_revoked s = is_some s.revoked_at

unfoldable pub session_is_expired : Session → DateTime → ℕ → Bool
unfolding session_is_revoked
session_is_expired s now idle_timeout_minutes =
    session_is_revoked s
    || leb s.expires_at now
    || ltb (s.last_seen_at + minutes idle_timeout_minutes) now

unfoldable pub csrf_is_valid : CsrfToken → DateTime → Bool
csrf_is_valid t now = ltb now t.expires_at

unfoldable pub auth_transaction_is_valid : AuthTransaction → DateTime → Bool
auth_transaction_is_valid t now = not (is_some t.consumed_at) && ltb now t.expires_at
