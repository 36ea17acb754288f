-- ===== src/Api/Routes.antt =====
-- apps/api/src/app.ts: the routes behind the middleware of `/api/*`, with the permission that each
-- requires, and the operational actions.
use cool_tunnel_server.Base.{not, ◌||◌, Option, some, none, if◌then◌else◌}
use cool_tunnel_server.Base.Texts.{Text, text_eq, codes, is_empty}
use cool_tunnel_server.Base.Results.{
  Result, ok, throw, http_error, bad_request, unknown_action, invalid_role, forbidden,
}
use cool_tunnel_server.Shared.Roles.{
  AdminRole, UserStatus, Permission, owner, admin, operator, viewer, has_permission,
}

-- `CoreAction`
pub data CoreAction : Type 0 where
  doctor render_caddyfile render_singbox restart_services backup restore : CoreAction

-- `permissionForAction`
unfoldable pub permission_for_action : CoreAction → Permission
permission_for_action doctor = Permission.ops_doctor
permission_for_action render_caddyfile = Permission.ops_render
permission_for_action render_singbox = Permission.ops_render
permission_for_action restart_services = Permission.ops_restart
permission_for_action backup = Permission.ops_backup
permission_for_action restore = Permission.ops_restore

-- `actionForRoute`
unfoldable pub action_for_route : Text → Option CoreAction
action_for_route value =
    if text_eq value (codes "doctor")
    then some doctor
    else if text_eq value (codes "render") || text_eq value (codes "render-singbox")
    then some render_singbox
    else if text_eq value (codes "render-caddyfile")
    then some render_caddyfile
    else if text_eq value (codes "restart") || text_eq value (codes "restart-services")
    then some restart_services
    else if text_eq value (codes "backup")
    then some backup
    else if text_eq value (codes "restore")
    then some restore
    else none

-- The handler of `POST /api/actions/:action` up to the action that it runs.
unfoldable pub resolve_action : AdminRole → UserStatus → Text → Result CoreAction
unfolding action_for_route permission_for_action
resolve_action role status param =
    if is_empty param then throw (http_error bad_request 400) else elim (action_for_route param) [
      | none ↦ throw (http_error unknown_action 404)
      | some action ↦
          if not (has_permission role status (permission_for_action action))
          then throw (http_error forbidden 403)
          else ok action
    ]

-- The routes in the order of their registration.
pub data Route : Type 0 where
  post_me_password get_me get_me_sessions : Route
  get_users post_users get_user patch_user : Route
  post_user_enable post_user_disable post_user_reset_password delete_user : Route
  get_proxy_accounts post_proxy_accounts get_proxy_account patch_proxy_account : Route
  post_proxy_enable post_proxy_disable post_proxy_regenerate_uuid : Route
  post_proxy_reveal delete_proxy_account : Route
  get_settings patch_settings get_status : Route
  post_doctor_run post_render post_action post_logout get_audit : Route

-- The argument of the middleware `requirePermission`, where the route has it; `post_action` asks in its
-- handler.
unfoldable pub route_permission : Route → Option Permission
route_permission post_me_password = none
route_permission get_me = none
route_permission get_me_sessions = none
route_permission get_users = some Permission.users_read
route_permission post_users = some Permission.users_create
route_permission get_user = some Permission.users_read
route_permission patch_user = some Permission.users_update
route_permission post_user_enable = some Permission.users_disable
route_permission post_user_disable = some Permission.users_disable
route_permission post_user_reset_password = some Permission.users_reset_password
route_permission delete_user = some Permission.users_delete
route_permission get_proxy_accounts = some Permission.proxy_accounts_read
route_permission post_proxy_accounts = some Permission.proxy_accounts_write
route_permission get_proxy_account = some Permission.proxy_accounts_read
route_permission patch_proxy_account = some Permission.proxy_accounts_write
route_permission post_proxy_enable = some Permission.proxy_accounts_write
route_permission post_proxy_disable = some Permission.proxy_accounts_write
route_permission post_proxy_regenerate_uuid = some Permission.proxy_accounts_write
route_permission post_proxy_reveal = some Permission.proxy_accounts_write
route_permission delete_proxy_account = some Permission.proxy_accounts_write
route_permission get_settings = some Permission.settings_read
route_permission patch_settings = some Permission.settings_update
route_permission get_status = some Permission.status_read
route_permission post_doctor_run = some Permission.ops_doctor
route_permission post_render = some Permission.ops_render
route_permission post_action = none
route_permission post_logout = none
route_permission get_audit = some Permission.audit_read

-- What a request to the route must hold, by the middleware or, for `POST /api/actions/:action`, by
-- `requirePermissionForAction` on the parameter. An unknown action is none.
unfoldable pub required_permission : Route → (param : Text) → Option Permission
unfolding route_permission action_for_route permission_for_action
required_permission post_action param = elim (action_for_route param) [
  | none ↦ none
  | some action ↦ some (permission_for_action action)
]
required_permission route param = route_permission route

-- `parseRole`, on a text.
unfoldable pub parse_role : Text → Result AdminRole
parse_role value =
    if text_eq value (codes "owner")
    then ok owner
    else if text_eq value (codes "admin")
    then ok admin
    else if text_eq value (codes "operator")
    then ok operator
    else if text_eq value (codes "viewer")
    then ok viewer
    else throw (http_error invalid_role 400)
