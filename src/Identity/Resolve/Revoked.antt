-- ===== src/Identity/Resolve/Revoked.antt =====
-- A revoked session admits nobody.
use smart_logistics_accessib.Base.{String, ◌≡◌, some, DateTime, ℕ, arith, err}
use smart_logistics_accessib.Identity.Entities.{Session, session_is_revoked}
use smart_logistics_accessib.Identity.Store.{IdentityStore, get_session_by_token_digest}
use smart_logistics_accessib.Identity.Resolve.{was_revoked, resolve_principal}

pub resolve-revoked :
    (digest : String → String) (idle : ℕ) (now : DateTime) (token : String) (s : IdentityStore)
    (x : Session) (at : DateTime)
    → get_session_by_token_digest (digest token) s ≡ some x
    → x.revoked_at ≡ some at
    → (resolve_principal digest idle now token s).0 ≡ err was_revoked
unfolding resolve_principal session_is_revoked
resolve-revoked digest idle now token s x at found r = rw found (ground arith)
