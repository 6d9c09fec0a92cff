-- ===== src/Identity/Samples.antt =====
-- Rows that the tests of the identity module share.
use smart_logistics_accessib.Base.{String, none, some, true, [], ◌∷◌, DateTime, hours}
use smart_logistics_accessib.Identity.Enums.{
  active, government, district_verifier, capability_scope, view_fleet,
}
use smart_logistics_accessib.Identity.Entities.{User, Organization, Membership, Grant, Session}
use smart_logistics_accessib.Identity.Store.{IdentityStore}

abbrev pub noon : DateTime
noon = hours 12

abbrev pub officer : User
officer = record {
  id = 5;
  issuer = "idp";
  subject = "officer";
  email = none;
  display_name = "Officer";
  is_active = true;
  created_at = none;
  updated_at = none;
}

abbrev pub authority : Organization
authority = record {
  id = 2;
  code = "DA";
  name = "District";
  kind = government;
  is_active = true;
  created_at = none;
  updated_at = none;
}

abbrev pub member : Membership
member = record {
  id = 9;
  user_id = 5;
  org_id = 2;
  role = district_verifier;
  status = active;
  valid_from = some 0;
  valid_until = none;
  created_at = none;
  updated_at = none;
}

abbrev pub fleet_grant : Grant
fleet_grant = record {
  id = 11;
  grantor_user_id = 1;
  grantor_org_id = 1;
  scope_type = capability_scope;
  grantee_user_id = some 5;
  grantee_org_id = none;
  capabilities = view_fleet ∷ [];
  jurisdiction_ids = [];
  valid_from = some 0;
  valid_until = none;
  is_active = true;
  revoked_at = none;
  revoked_by = none;
  revocation_reason = none;
  created_at = none;
}

abbrev pub signed_in : Session
signed_in = record {
  id = 21;
  user_id = 5;
  org_id = 2;
  role = district_verifier;
  token_digest = "token";
  ip_address = none;
  user_agent = none;
  created_at = noon;
  last_seen_at = noon;
  expires_at = hours 24;
  revoked_at = none;
  revocation_reason = none;
}

abbrev pub tables : IdentityStore
tables = record {
  users = officer ∷ [];
  organizations = authority ∷ [];
  memberships = member ∷ [];
  sessions = signed_in ∷ [];
  csrf_tokens = [];
  auth_transactions = [];
  grants = fleet_grant ∷ [];
  sharing_grants = [];
  audit_log = [];
}

-- A digest for the tests, where the program has a keyed hash.
abbrev pub plain : String → String
plain t = t
