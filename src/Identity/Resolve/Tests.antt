-- ===== src/Identity/Resolve/Tests.antt =====
-- Tests and instances for resolving a caller.
use smart_logistics_accessib.Base.{◌≡◌, ◌↔◌, refl, ok, err, In, hours}
use smart_logistics_accessib.Identity.Enums.{view_fleet}
use smart_logistics_accessib.Identity.Entities.{membership_is_effective, session_is_revoked}
use smart_logistics_accessib.Identity.Principal.{PrincipalContext}
use smart_logistics_accessib.Identity.Store.{
  get_session_by_token_digest, touch_session, get_user_by_id, get_organization_by_id,
  get_membership,
}
use smart_logistics_accessib.Identity.Resolve.{resolve_principal, build_principal, was_idle}
use smart_logistics_accessib.Identity.Resolve.Entitled.{Entitled, resolve_sound}
use smart_logistics_accessib.Identity.Resolve.Aggregation.{Holds, resolve_capabilities}
use smart_logistics_accessib.Identity.Samples.{
  noon, officer, authority, member, signed_in, tables, plain,
}

abbrev caller : PrincipalContext
caller =
    build_principal noon signed_in officer authority member
      (unfold touch_session in touch_session 21 noon tables)

resolves : (resolve_principal plain 30 noon "token" tables).0 ≡ ok caller
unfolding resolve_principal get_session_by_token_digest session_is_revoked touch_session
    get_user_by_id get_organization_by_id get_membership membership_is_effective
resolves = refl

idle_is_refused : (resolve_principal plain 30 (hours 13) "token" tables).0 ≡ err was_idle
unfolding resolve_principal get_session_by_token_digest session_is_revoked
idle_is_refused = refl

resolve_sound_example : Entitled plain 30 noon "token" tables caller
resolve_sound_example = resolve_sound plain 30 noon "token" tables {p = caller} resolves

resolve_capabilities_example :
    In view_fleet caller.capabilities
    ↔ Holds noon tables caller caller.user_id caller.org_id view_fleet
resolve_capabilities_example =
    resolve_capabilities plain 30 noon "token" tables caller resolves view_fleet
