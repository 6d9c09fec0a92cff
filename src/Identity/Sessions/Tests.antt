-- ===== src/Identity/Sessions/Tests.antt =====
-- Instances for the life of a session.
use smart_logistics_accessib.Base.{◌≡◌, refl, err, none, some, hours, ◌+◌}
use smart_logistics_accessib.Identity.Enums.{district_verifier}
use smart_logistics_accessib.Identity.Store.{get_session_by_token_digest, get_valid_csrf_token}
use smart_logistics_accessib.Identity.Resolve.{resolve_principal, was_revoked}
use smart_logistics_accessib.Identity.Sessions.{
  Fresh, revoke_current_session, create_session_use_case,
}
use smart_logistics_accessib.Identity.Sessions.Lifecycle.{logout_refuses, login_found}
use smart_logistics_accessib.Identity.Samples.{noon, signed_in, tables, plain}

token_known : get_session_by_token_digest (plain "token") tables ≡ some signed_in
unfolding get_session_by_token_digest
token_known = refl

logout_refuses_example :
    ((resolve_principal plain 30
        (hours 13)
        "token"
        (revoke_current_session noon 21 5 "user_logout" tables)).0
      ≡ err was_revoked)
    × (get_valid_csrf_token 21 "csrf"
          (hours 13)
          (revoke_current_session noon 21 5 "user_logout" tables)
        ≡ none)
logout_refuses_example =
    logout_refuses plain 30 noon (hours 13) "token" "csrf" "user_logout" tables signed_in
      token_known

abbrev fresh_ids : Fresh
fresh_ids = record {
  new_session_id = 31;
  new_csrf_id = 32;
  raw_session_token = "other";
  raw_csrf_token = "csrf";
}

other_unused : get_session_by_token_digest (plain "other") tables ≡ none
unfolding get_session_by_token_digest
other_unused = refl

login_found_example :
    let (given, after) =
      create_session_use_case plain 12 noon fresh_ids 5 2 district_verifier none none tables in
    (get_session_by_token_digest (plain given.1) after ≡ some given.0)
    × (given.0.user_id ≡ 5)
    × (given.0.org_id ≡ 2)
    × (given.0.role ≡ district_verifier)
    × (given.0.revoked_at ≡ none)
    × (given.0.expires_at ≡ noon + hours 12)
login_found_example =
    login_found plain 12 noon fresh_ids 5 2 district_verifier none none tables other_unused
