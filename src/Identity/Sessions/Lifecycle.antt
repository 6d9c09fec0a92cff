-- ===== src/Identity/Sessions/Lifecycle.antt =====
-- What logging in, logging out and revoking come to for a later request.
use smart_logistics_accessib.Base.{
  String, ◌≡◌, refl, Bool, true, false, Option, none, some, Uuid, DateTime, ℕ, ◌+◌, arith, err,
  find, find-update_where, find-select-none, find-append_new, Option-cases, inl, inr, eq_refl,
  hours, update_where, ◌∙◌, str_eq, ==_iff,
}
use smart_logistics_accessib.Identity.Entities.{Session}
use smart_logistics_accessib.Identity.Store.{
  IdentityStore, get_session_by_token_digest, get_valid_csrf_token, create_session,
  create_csrf_token, emit_audit_event, revoke_session, delete_csrf_tokens_for_session,
  revoke_all_user_sessions, revoke, is_live_session_of,
}
use smart_logistics_accessib.Identity.Enums.{Role}
use smart_logistics_accessib.Identity.Resolve.{was_revoked, resolve_principal}
use smart_logistics_accessib.Identity.Resolve.Revoked.{resolve-revoked}
use smart_logistics_accessib.Identity.Sessions.{
  Fresh, new_session, create_session_use_case, revoke_current_session, revoke_all_sessions,
}

-- The row that the token finds is found revoked, when the update is about it.
revoked_found :
    (digest : String) (now : DateTime) (reason : String) (about : Session → Bool)
    (s : IdentityStore) (x : Session)
    → get_session_by_token_digest digest s ≡ some x
    → about x ≡ true
    → find (λ y. str_eq y.token_digest digest) (update_where about (revoke now reason) s.sessions)
      ≡ some (revoke now reason x)
unfolding get_session_by_token_digest
revoked_found digest now reason about s x found hit =
    find-update_where _ about (revoke now reason) (λ y. refl) s.sessions x found ∙ rw hit

-- After a logout the session's token is refused as revoked, and no CSRF token of the session is
-- valid.
pub logout_refuses :
    (digest : String → String) (idle : ℕ) (now later : DateTime) (token csrf reason : String)
    (s : IdentityStore) (x : Session)
    → get_session_by_token_digest (digest token) s ≡ some x
    → let s' = revoke_current_session now x.id x.user_id reason s in
      ((resolve_principal digest idle later token s').0 ≡ err was_revoked)
      × (get_valid_csrf_token x.id csrf later s' ≡ none)
unfolding revoke_current_session get_session_by_token_digest emit_audit_event revoke_session
    delete_csrf_tokens_for_session get_valid_csrf_token
logout_refuses digest idle now later token csrf reason s x found = (
  resolve-revoked digest idle later token _ (revoke now reason x) now
      (revoked_found (digest token) now reason _ s x found ((==_iff x.id x.id).1 refl)) refl,
  find-select-none _ _ (λ t kept. ground (arith, kept)) s.csrf_tokens,
)

live_of_user : (x : Session) → x.revoked_at ≡ none → is_live_session_of x.user_id x ≡ true
live_of_user x live = ground arith

not_live :
    (x : Session) (at : DateTime) → x.revoked_at ≡ some at → is_live_session_of x.user_id x ≡ false
not_live x at gone = ground arith

-- After a logout from everywhere every token of the user is refused as revoked.
pub logout_all_refuses :
    (digest : String → String) (idle : ℕ) (now later : DateTime) (token reason : String)
    (s : IdentityStore) (x : Session)
    → get_session_by_token_digest (digest token) s ≡ some x
    → (resolve_principal digest idle later token (revoke_all_sessions now x.user_id reason s).1).0
      ≡ err was_revoked
unfolding revoke_all_sessions get_session_by_token_digest emit_audit_event revoke_all_user_sessions
logout_all_refuses digest idle now later token reason s x found = elim (Option-cases x.revoked_at) [
  | inl live ↦
      resolve-revoked digest idle later token _ (revoke now reason x) now
        (revoked_found (digest token) now reason _ s x found (live_of_user x live)) refl
  | inr (at, gone) ↦
      resolve-revoked digest idle later token _ x at
        (find-update_where _ (is_live_session_of x.user_id) (revoke now reason) (λ y. refl)
            s.sessions x found
          ∙ rw (not_live x at gone))
        gone
]

-- A login's raw token finds the new session, which carries the user, the organization and the role,
-- and lasts the set number of hours, when the token's digest was not in use.
pub login_found :
    (digest : String → String) (lifetime : ℕ) (now : DateTime) (fresh : Fresh)
    (user_id org_id : Uuid) (role : Role) (ip agent : Option String) (s : IdentityStore)
    → get_session_by_token_digest (digest fresh.raw_session_token) s ≡ none
    → let (given, s') =
        create_session_use_case digest lifetime now fresh user_id org_id role ip agent s in
      (get_session_by_token_digest (digest given.1) s' ≡ some given.0)
      × (given.0.user_id ≡ user_id)
      × (given.0.org_id ≡ org_id)
      × (given.0.role ≡ role)
      × (given.0.revoked_at ≡ none)
      × (given.0.expires_at ≡ now + hours lifetime)
unfolding create_session_use_case create_session create_csrf_token emit_audit_event
    get_session_by_token_digest new_session
login_found digest lifetime now fresh user_id org_id role ip agent s unused = (
  find-append_new _ s.sessions _ unused (eq_refl (digest fresh.raw_session_token)),
  refl,
  refl,
  refl,
  refl,
  refl,
)
