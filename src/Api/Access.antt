-- ===== src/Api/Access.antt =====
-- apps/api/src/app.ts: the middleware in front of the handlers of `/api/*`, in its order.
use cool_tunnel_server.Base.{
  ℕ, Bool, false, not, ◌&&◌, ◌||◌, Option, some, none, [], ◌∷◌, ◌==◌, if◌then◌else◌,
}
use cool_tunnel_server.Base.Texts.{Text, text_eq, codes, is_empty}
use cool_tunnel_server.Base.Tables.{any}
use cool_tunnel_server.Base.Results.{
  Result, ok, throw, throw_if, ◌>>=◌, ◌>>◌, http_error, csrf, unauthorized, forbidden,
  password_change_required,
}
use cool_tunnel_server.Security.Platform.{Platform}
use cool_tunnel_server.Security.Texts.{starts_with}
use cool_tunnel_server.Security.Validate.{constant_time_equal}
use cool_tunnel_server.Shared.Roles.{Permission, has_permission}
use cool_tunnel_server.Config.{AdminConfig}
use cool_tunnel_server.Store.Tokens.{or_empty}
use cool_tunnel_server.Api.Session.{
  RawSession, CurrentSession, get_current_session, csrf_token_for_session,
}

-- What the middleware reads of a request; `session` is the auth library's answer for its cookies.
pub record Request : Type 0 where
  pub method : Text
  pub path : Text
  pub origin : Option Text
  pub sec_fetch_site : Option Text
  pub x_csrf_token : Option Text
  pub session : Option RawSession

-- `["GET", "HEAD", "OPTIONS"].includes(method)`
unfoldable pub is_safe_method : Text → Bool
is_safe_method method = any (text_eq method) (codes "GET" ∷ codes "HEAD" ∷ codes "OPTIONS" ∷ [])

-- The paths that `csrfProtection` lets through.
unfoldable pub is_csrf_exempt : Text → Bool
is_csrf_exempt path =
    starts_with (codes "/api/auth/") path
    || text_eq path (codes "/login")
    || text_eq path (codes "/setup")

-- `origin && !config.trustedOrigins.includes(origin)`
unfoldable pub is_untrusted_origin : AdminConfig → Option Text → Bool
is_untrusted_origin config none = false
is_untrusted_origin config (some origin) =
    not (is_empty origin) && not (any (text_eq origin) config.trusted_origins)

-- `secFetchSite && secFetchSite !== "same-origin" && secFetchSite !== "none"`
unfoldable pub is_cross_site : Platform → Option Text → Bool
is_cross_site platform none = false
is_cross_site platform (some header) =
    let site = platform.lower header in
    not (is_empty site)
    && not (text_eq site (codes "same-origin"))
    && not (text_eq site (codes "none"))

unfoldable pub csrf_protection : Platform → AdminConfig → Request → Result (Unit {0})
csrf_protection platform config request =
    if is_safe_method request.method || is_csrf_exempt request.path
    then ok tt
    else if is_untrusted_origin config request.origin
    then throw (http_error csrf 403)
    else throw_if (is_cross_site platform request.sec_fetch_site) (http_error csrf 403)

unfoldable pub require_session : ℕ → Request → Result CurrentSession
require_session now request = do
  found ← get_current_session now request.session
  elim found [ none ↦ throw (http_error unauthorized 401) | some session ↦ ok session ]

unfoldable pub require_api_csrf :
    Platform → AdminConfig → Request → CurrentSession → Result (Unit {0})
require_api_csrf platform config request session =
    if is_safe_method request.method then ok tt else (do
      token ← csrf_token_for_session platform config.auth_secret session
      throw_if (not (constant_time_equal (or_empty request.x_csrf_token) token))
          (http_error csrf 403))

-- `path.replace(/\/+$/, "")`
unfoldable pub strip_slashes : Text → Text
strip_slashes [] = []
strip_slashes (c ∷ path) =
    let rest = strip_slashes path in if c == b'/' && is_empty rest then [] else c ∷ rest

-- `PASSWORD_CHANGE_ALLOWED_PATHS.has(…)`; the path "/" is not among them.
unfoldable pub is_allowed_path : Text → Bool
unfolding strip_slashes
is_allowed_path path =
    any (text_eq (strip_slashes path))
      (codes "/api/me" ∷ codes "/api/logout" ∷ codes "/api/me/password" ∷ [])

-- The gate of an account that has to change its password.
unfoldable pub require_fresh_password : Request → CurrentSession → Result (Unit {0})
require_fresh_password request session =
    throw_if (session.must_change_password && not (is_allowed_path request.path))
      (http_error password_change_required 403)

unfoldable pub require_permission : Option Permission → CurrentSession → Result (Unit {0})
require_permission none session = ok tt
require_permission (some permission) session =
    throw_if (not (has_permission session.role session.status permission))
      (http_error forbidden 403)

module _ (platform : Platform) (config : AdminConfig) where
  -- The middleware of `/api/*` up to the handler of a route that requires the permission.
  unfoldable pub authorize : (now : ℕ) → Option Permission → Request → Result CurrentSession
  authorize now permission request = do
    csrf_protection platform config request
    session ← require_session now request
    require_api_csrf platform config request session
    require_fresh_password request session
    require_permission permission session
    ok session
