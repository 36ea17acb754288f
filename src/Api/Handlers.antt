-- ===== src/Api/Handlers.antt =====
-- apps/api/src/app.ts: the handlers of `/api/*` on users, settings, status, audit and the actions.
-- The password functions of the runtime are arguments.
use cool_tunnel_server.Shared.Roles.{can_create_role}
use cool_tunnel_server.Security.Validate.{validate_password}
use cool_tunnel_server.Store.Settings.{row_to_settings}
use cool_tunnel_server.Api.Headers.{ProxyHeaders, client_ip}
use cool_tunnel_server.Api.Boundary.{Outside}
use cool_tunnel_server.Store.Audit.{list_audit, Limit, floor}
use cool_tunnel_server.Store.Update.{enable_user, disable_user, update_user}
use cool_tunnel_server.Store.Accounts.{
  delete_user, list_users, ip_detail, create_user, reset_password, change_own_password,
}
use cool_tunnel_server.Api.Inputs.{
  safe_json, text_or_empty, parse_role_of, parse_user_patch, parse_settings_input,
}
use cool_tunnel_server.Api.Session.{CurrentSession, csrf_token_for_session}
use cool_tunnel_server.Config.{AdminConfig}
use cool_tunnel_server.Security.Platform.{Platform}
use cool_tunnel_server.Api.Replies.{
  Payload, Reply, ok_reply, settings, me, users, user, nothing, audit, permissions_for,
}
use cool_tunnel_server.Security.Json.{null, Fields, Json, str, bool, find_field}
use cool_tunnel_server.Base.Texts.{Text, is_empty, codes}
use cool_tunnel_server.Store.Users.{get_user, Actor, or_current, get_own_password_hash}
use cool_tunnel_server.Base.{ℕ, Bool, true, false, not, Option, some, none, if◌then◌else◌}
use cool_tunnel_server.Store.Monad.{
  M, ◌>>=◌, ◌>>◌, return, fail, fail_if, read, write, Host, Env, audit_row,
}
use cool_tunnel_server.Store.SettingsUpdate.{get_settings, update_settings}
use cool_tunnel_server.Base.Results.{
  Fault, ok, throw, http_error, forbidden, not_found, bad_request, invalid_password,
  invalid_current_password, password_reused,
}

-- What the handlers are built over: the store's host, the configuration, what lies outside the
-- process, the schemas of the replies, and the password functions.
pub record Server : Type 0 where
  pub host : Host
  pub config : AdminConfig
  pub outside : Outside
  pub fits : Payload → Bool
  pub hash_password : Text → Text
  pub verify_password : (password hash : Text) → Bool
  -- `error.message`
  pub message_of : Fault → Text

-- What a handler reads: the session and the request behind the middleware.
pub record Context : Type 0 where
  pub env : Env
  -- The draws of the rendering behind a change of the proxy accounts
  pub later : Env
  pub session : CurrentSession
  -- The id of the session's row, or empty
  pub session_id : Text
  -- `c.req.param("id")` or `c.req.param("action")`, where the route has one
  pub param : Text
  -- `c.req.json()`, `none` where it throws
  pub body : Option Json
  pub headers : ProxyHeaders
  -- `Number(c.req.query("limit"))`, `none` where it is not finite
  pub limit : Option Limit
  -- The text of the end of a grace window, for the audit log.
  pub until_text : Text

abbrev pub actor_of : Context → Actor
actor_of c = record { id = c.session.user_id; role = c.session.role }

-- `requiredParam`
unfoldable pub required_param : Context → M Text
required_param c = if is_empty c.param then fail (http_error bad_request 400) else return c.param

abbrev pub body_of : Context → M Fields
body_of c = read (λ db. safe_json c.body)

-- `body.mustChangePassword !== false`
abbrev must_change_of : Option Json → Bool
must_change_of (some (bool false)) = false
must_change_of _ = true

-- `body.role ?? "viewer"`
abbrev role_value : Option Json → Json
role_value none = str (codes "viewer")
role_value (some null) = str (codes "viewer")
role_value (some value) = value

-- `!hash`
abbrev pub text_or_none : Option Text → Option Text
text_or_none none = none
text_or_none (some s) = if is_empty s then none else some s

module _ (server : Server) (c : Context) where
  abbrev pub reply : ℕ → Payload → M Reply
  reply = ok_reply server.fits

  abbrev platform : Platform
  platform = server.host.platform

  -- `hash && await verifyPassword(password, hash)`
  abbrev pub verifies : Text → Option Text → Bool
  verifies password hash = elim (text_or_none hash) [
    | none ↦ false
    | some h ↦ server.verify_password password h
  ]

  -- `POST /api/me/password`, from the check of the new password on.
  unfoldable pub change_password_to : (current new : Text) → M Reply
  change_password_to current new = do
    fail_if (not (validate_password new)) (http_error invalid_password 400)
    hash ← read (λ db. ok (get_own_password_hash c.session.user_id db))
    fail_if (not (verifies current hash)) (http_error invalid_current_password 400)
    fail_if (verifies new hash) (http_error password_reused 400)
    change_own_password server.host c.env c.session.user_id (server.hash_password new)
        c.session.token (client_ip c.headers)
    reply 200 nothing

  -- `POST /api/me/password`
  unfoldable pub post_me_password : M Reply
  unfolding change_password_to
  post_me_password = do
    body ← body_of c
    current ← read (λ db. text_or_empty platform (codes "currentPassword") body)
    new ← read (λ db. text_or_empty platform (codes "newPassword") body)
    change_password_to current new

  -- `GET /api/me`
  unfoldable pub get_me : M Reply
  get_me = do
    token ← read (λ db. csrf_token_for_session platform server.config.auth_secret c.session)
    reply 200 (
        me c.session.user_id c.session.role (permissions_for c.session.role c.session.status) token)

  -- `GET /api/users`
  unfoldable pub get_users : M Reply
  get_users = do listed ← read (λ db. ok (list_users db)); reply 200 (users listed)

  -- `POST /api/users`
  unfoldable pub post_users : M Reply
  post_users = do
    body ← body_of c
    role ← read (λ db. parse_role_of (role_value (find_field (codes "role") body)))
    fail_if (not (can_create_role c.session.role role)) (http_error forbidden 403)
    password ← read (λ db. text_or_empty platform (codes "password") body)
    fail_if (not (validate_password password)) (http_error invalid_password 400)
    email ← read (λ db. text_or_empty platform (codes "email") body)
    username ← read (λ db. text_or_empty platform (codes "username") body)
    name ← read (λ db. text_or_empty platform (codes "name") body)
    created ← create_user server.host c.env (some (actor_of c)) (record {
      email = email;
      username = username;
      name = name;
      password_hash = server.hash_password password;
      role = role;
      must_change_password = some (must_change_of (find_field (codes "mustChangePassword") body));
    })
    reply 201 (user created)

  -- `GET /api/users/:id`
  unfoldable pub get_user_by_id : M Reply
  get_user_by_id = do
    id ← required_param c
    found ← read (λ db. elim (get_user id db) [
      | none ↦ throw (http_error not_found 404)
      | some row ↦ ok row
    ])
    reply 200 (user found)

  -- `PATCH /api/users/:id`
  unfoldable pub patch_user : M Reply
  patch_user = do
    body ← body_of c
    input ← read (λ db. parse_user_patch platform body)
    id ← required_param c
    updated ← update_user server.host c.env (actor_of c) id input
    reply 200 (user updated)

  -- `POST /api/users/:id/enable`
  unfoldable pub post_user_enable : M Reply
  post_user_enable = do
    id ← required_param c
    updated ← enable_user server.host c.env (actor_of c) id
    reply 200 (user updated)

  -- `POST /api/users/:id/disable`
  unfoldable pub post_user_disable : M Reply
  post_user_disable = do
    id ← required_param c
    updated ← disable_user server.host c.env (actor_of c) id
    reply 200 (user updated)

  -- `POST /api/users/:id/reset-password`
  unfoldable pub post_user_reset_password : M Reply
  post_user_reset_password = do
    body ← body_of c
    password ← read (λ db. text_or_empty platform (codes "password") body)
    fail_if (not (validate_password password)) (http_error invalid_password 400)
    id ← required_param c
    updated ← reset_password server.host c.env (actor_of c) id (server.hash_password password)
    reply 200 (user updated)

  -- `DELETE /api/users/:id`
  unfoldable pub delete_user_by_id : M Reply
  delete_user_by_id = do
    id ← required_param c
    delete_user server.host c.env (actor_of c) id
    reply 200 nothing

  -- `GET /api/settings`
  unfoldable pub get_settings_reply : M Reply
  get_settings_reply = do
    row ← get_settings server.host c.env.ts
    reply 200 (settings (row_to_settings row))

  -- `PATCH /api/settings`
  unfoldable pub patch_settings : M Reply
  patch_settings = do
    body ← body_of c
    input ← read (λ db. parse_settings_input platform body)
    updated ← update_settings server.host c.env (actor_of c) input
    reply 200 (settings updated)

  -- `GET /api/audit`
  unfoldable pub get_audit : M Reply
  get_audit = do
    entries ← read (λ db. ok (list_audit (or_current c.limit (floor 100)) db))
    reply 200 (audit entries)

  -- `POST /api/logout`, behind the sign-out of the auth library.
  unfoldable pub post_logout : M Reply
  post_logout = do
    write (
        audit_row server.host c.env.audit_at (some c.session.user_id) (codes "auth.logout")
          (some (codes "user")) (some c.session.user_id) (ip_detail (client_ip c.headers)))
    return (record { status = 200; payload = nothing })
