-- ===== src/Api/AccessLaws.antt =====
-- What a request has shown when it reaches a handler of `/api/*`.
use cool_tunnel_server.Base.{ℕ, ◌≡◌, refl, true, false, Option, some, none, arith}
use cool_tunnel_server.Base.Texts.{Text, text_eq, codes}
use cool_tunnel_server.Base.Results.{ok}
use cool_tunnel_server.Security.Platform.{Platform}
use cool_tunnel_server.Security.Validate.{constant_time_equal}
use cool_tunnel_server.Shared.Roles.{Permission, has_permission}
use cool_tunnel_server.Config.{AdminConfig}
use cool_tunnel_server.Store.Tokens.{or_empty}
use cool_tunnel_server.Api.Session.{
  RawSession, CurrentSession, get_current_session, csrf_token_for_session, is_too_old, require_role,
  role_or_viewer,
}
use cool_tunnel_server.Api.Access.{
  Request, is_safe_method, is_csrf_exempt, is_untrusted_origin, is_cross_site, csrf_protection,
  require_session, require_api_csrf, is_allowed_path, require_fresh_password, require_permission,
  authorize,
}

-- The session is one that the auth library found, of a user that is not disabled, at most thirty
-- days old where its age is known.
pub record IsSessionOf (now : ℕ) (found : Option RawSession) (session : CurrentSession)
    : Type 0 where
  pub raw : RawSession
  pub was_found : found ≡ some raw
  pub young : is_too_old now raw.created_at ≡ false
  pub not_disabled : text_eq raw.status (codes "disabled") ≡ false
  pub same_user : session.user_id ≡ raw.user_id
  pub same_role : require_role (role_or_viewer raw.role) ≡ ok session.role
  pub same_flag : session.must_change_password ≡ raw.must_change_password

get_current_session-ok :
    (now : ℕ) (raw : RawSession) (session : CurrentSession)
    → get_current_session now (some raw) ≡ ok (some session)
    → (is_too_old now raw.created_at ≡ false)
      × (text_eq raw.status (codes "disabled") ≡ false)
      × (session.user_id ≡ raw.user_id)
      × (require_role (role_or_viewer raw.role) ≡ ok session.role)
      × (session.must_change_password ≡ raw.must_change_password)
unfolding get_current_session
get_current_session-ok now raw session e = ground arith

require_session-found :
    (now : ℕ) (request : Request) (session : CurrentSession)
    → require_session now request ≡ ok session
    → get_current_session now request.session ≡ ok (some session)
unfolding require_session
require_session-found now request session e = ground arith

IsSessionOf-found :
    (now : ℕ) (found : Option RawSession) (session : CurrentSession)
    → get_current_session now found ≡ ok (some session)
    → IsSessionOf now found session
unfolding get_current_session
IsSessionOf-found now none session e = cc
IsSessionOf-found now (some raw) session e =
    let (young, live, user, role, flag) = get_current_session-ok now raw session e in
    record {
      raw = raw;
      was_found = refl;
      young = young;
      not_disabled = live;
      same_user = user;
      same_role = role;
      same_flag = flag;
    }

-- What has been checked of a request that a handler gets.
pub record IsAuthorized (platform : Platform) (config : AdminConfig) (now : ℕ)
    (permission : Option Permission) (request : Request) (session : CurrentSession) : Type 0 where
  pub signed_in : IsSessionOf now request.session session
  pub same_origin :
      is_safe_method request.method ≡ false
      → is_csrf_exempt request.path ≡ false
      → (is_untrusted_origin config request.origin ≡ false)
        × (is_cross_site platform request.sec_fetch_site ≡ false)
  pub token :
      is_safe_method request.method ≡ false
      → (token : Text) × (csrf_token_for_session platform config.auth_secret session ≡ ok token)
        × (constant_time_equal (or_empty request.x_csrf_token) token ≡ true)
  pub fresh_password : session.must_change_password ≡ true → is_allowed_path request.path ≡ true
  pub permitted :
      (p : Permission) → permission ≡ some p → has_permission session.role session.status p ≡ true

module _ (platform : Platform) (config : AdminConfig) where
  authorize-parts :
      (now : ℕ) (permission : Option Permission) (request : Request) (session : CurrentSession)
      → authorize platform config now permission request ≡ ok session
      → (csrf_protection platform config request ≡ ok tt)
        × (require_session now request ≡ ok session)
        × (require_api_csrf platform config request session ≡ ok tt)
        × (require_fresh_password request session ≡ ok tt)
        × (require_permission permission session ≡ ok tt)
  unfolding authorize
  authorize-parts now permission request session e = ground arith

  csrf_protection-ok :
      (request : Request)
      → csrf_protection platform config request ≡ ok tt
      → is_safe_method request.method ≡ false
      → is_csrf_exempt request.path ≡ false
      → (is_untrusted_origin config request.origin ≡ false)
        × (is_cross_site platform request.sec_fetch_site ≡ false)
  unfolding csrf_protection
  csrf_protection-ok request e method path = ground arith

  require_api_csrf-ok :
      (request : Request) (session : CurrentSession)
      → require_api_csrf platform config request session ≡ ok tt
      → is_safe_method request.method ≡ false
      → (token : Text) × (csrf_token_for_session platform config.auth_secret session ≡ ok token)
        × (constant_time_equal (or_empty request.x_csrf_token) token ≡ true)
  unfolding require_api_csrf
  require_api_csrf-ok request session e method = ground arith

require_fresh_password-ok :
    (request : Request) (session : CurrentSession)
    → require_fresh_password request session ≡ ok tt
    → session.must_change_password ≡ true
    → is_allowed_path request.path ≡ true
unfolding require_fresh_password
require_fresh_password-ok request session e flag = ground arith

require_permission-ok :
    (permission : Option Permission) (session : CurrentSession)
    → require_permission permission session ≡ ok tt
    → (p : Permission) → permission ≡ some p
    → has_permission session.role session.status p ≡ true
unfolding require_permission
require_permission-ok permission session e p h = ground arith

-- A request that reaches a handler of `/api/*` has a session that the auth library found, of a user
-- who is not disabled, at most thirty days old where its age is known. Where its method writes, it
-- carries the CSRF token of the session, and outside the exempt paths an origin and a fetch site
-- that it names are trusted. A user who has to change the password reaches the three paths for that
-- only. The user holds the permission of the route.
pub authorize-IsAuthorized :
    (platform : Platform) (config : AdminConfig) (now : ℕ) (permission : Option Permission)
    (request : Request) (session : CurrentSession)
    → authorize platform config now permission request ≡ ok session
    → IsAuthorized platform config now permission request session
authorize-IsAuthorized platform config now permission request session e =
    let (origin, found, token, fresh, permitted) =
      authorize-parts platform config now permission request session e in
    record {
      signed_in =
          IsSessionOf-found now request.session session
            (require_session-found now request session found);
      same_origin = csrf_protection-ok platform config request origin;
      token = require_api_csrf-ok platform config request session token;
      fresh_password = require_fresh_password-ok request session fresh;
      permitted = require_permission-ok permission session permitted;
    }
