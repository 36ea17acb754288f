-- ===== src/Api/Session.antt =====
-- apps/api/src/auth.ts: `getCurrentSession`; apps/api/src/app.ts: `csrfTokenForSession`.
use cool_tunnel_server.Base.{
  ℕ, ◌+◌, ◌*◌, Bool, false, Option, some, none, ◌∷◌, ◌++◌, ltb, if◌then◌else◌,
}
use cool_tunnel_server.Base.Texts.{Text, text_eq, codes, is_empty, take}
use cool_tunnel_server.Base.Results.{Result, ok, throw, http_error, plain, unauthorized}
use cool_tunnel_server.Security.Platform.{Platform}
use cool_tunnel_server.Shared.Roles.{AdminRole, owner, admin, operator, viewer, UserStatus}

-- What `auth.api.getSession` of the auth library returns; `created_at` is `none` where `Date.parse`
-- makes NaN of it, and an absent token is empty.
pub record RawSession : Type 0 where
  pub created_at : Option ℕ
  pub token : Text
  pub user_id : Text
  pub role : Option Text
  pub status : Text
  pub must_change_password : Bool

pub record CurrentSession : Type 0 where
  pub token : Text
  pub user_id : Text
  pub role : AdminRole
  pub status : UserStatus
  pub must_change_password : Bool

-- Thirty days.
abbrev pub session_absolute_max_ms : ℕ
session_absolute_max_ms = 1000 * 60 * 60 * 24 * 30

-- `requireRole`
unfoldable pub require_role : Text → Result AdminRole
require_role value =
    if text_eq value (codes "owner")
    then ok owner
    else if text_eq value (codes "admin")
    then ok admin
    else if text_eq value (codes "operator")
    then ok operator
    else if text_eq value (codes "viewer")
    then ok viewer
    else throw plain

-- `Number.isFinite(createdAt) && Date.now() - createdAt > SESSION_ABSOLUTE_MAX_MS`
unfoldable pub is_too_old : (now : ℕ) → Option ℕ → Bool
is_too_old now none = false
is_too_old now (some created_at) = ltb (created_at + session_absolute_max_ms) now

abbrev pub role_or_viewer : Option Text → Text
role_or_viewer none = codes "viewer"
role_or_viewer (some role) = role

-- A null is `none`.
unfoldable pub get_current_session : ℕ → Option RawSession → Result (Option CurrentSession)
unfolding is_too_old require_role
get_current_session now none = ok none
get_current_session now (some raw) =
    if is_too_old now raw.created_at
    then ok none
    else if text_eq raw.status (codes "disabled")
    then ok none
    else elim (require_role (role_or_viewer raw.role)) [
      | throw e ↦ throw e
      | ok role ↦ ok (
          some (record {
            token = raw.token;
            user_id = raw.user_id;
            role = role;
            status = UserStatus.active;
            must_change_password = raw.must_change_password;
          }))
    ]

-- `csrfTokenForSession`
unfoldable pub csrf_token_for_session : Platform → Text → CurrentSession → Result Text
csrf_token_for_session platform auth_secret session =
    if is_empty session.token
    then throw (http_error unauthorized 401)
    else ok (take 32 (platform.hmac_hex auth_secret (session.user_id ++ (b':' ∷ session.token))))
