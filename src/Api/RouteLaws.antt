-- ===== src/Api/RouteLaws.antt =====
-- Which roles reach the routes that write, and the operational actions.
use cool_tunnel_server.Base.{
  ℕ, ◌≤◌, ◌≡◌, ◌⊎◌, inl, inr, subst, Bool, true, false, ◌&&◌, some, arith, leb, Option-cases,
}
use cool_tunnel_server.Base.Texts.{Text}
use cool_tunnel_server.Base.Results.{ok}
use cool_tunnel_server.Shared.Roles.{
  AdminRole, UserStatus, Permission, viewer, operator, role_rank, is_active, has_permission,
}
use cool_tunnel_server.Api.Routes.{
  CoreAction, doctor, render_caddyfile, render_singbox, restart_services, backup, restore,
  permission_for_action, resolve_action, Route, route_permission, required_permission,
  action_for_route, post_action, get_me, get_me_sessions, get_users, get_user, get_proxy_accounts,
  get_proxy_account, get_settings, get_status, get_audit,
}

-- The rank from which on a role runs the action.
abbrev pub action_rank : CoreAction → ℕ
action_rank doctor = 20
action_rank render_caddyfile = 20
action_rank render_singbox = 20
action_rank restart_services = 20
action_rank backup = 30
action_rank restore = 40

permission_for_action-rank :
    (role : AdminRole) (status : UserStatus) (action : CoreAction)
    → has_permission role status (permission_for_action action)
      ≡ (is_active status && leb (action_rank action) (role_rank role))
unfolding has_permission permission_for_action role_rank
permission_for_action-rank role status action = ground arith

-- When an operational action is accepted, the user is active and ranks high enough for it: an
-- operator at least for the doctor, the renderers and restarts, an admin at least for backups, an
-- owner for restores.
pub resolve_action-rank :
    (role : AdminRole) (status : UserStatus) (param : Text) (action : CoreAction)
    → resolve_action role status param ≡ ok action
    → (is_active status ≡ true) × (action_rank action ≤ role_rank role)
unfolding resolve_action
resolve_action-rank role status param action e =
    ground (arith, permission_for_action-rank role status action)

-- The requests that change something.
abbrev pub is_writing : Route → Bool
is_writing get_me = false
is_writing get_me_sessions = false
is_writing get_users = false
is_writing get_user = false
is_writing get_proxy_accounts = false
is_writing get_proxy_account = false
is_writing get_settings = false
is_writing get_status = false
is_writing get_audit = false
is_writing _ = true

-- What an operator may run: the doctor, the renderers and restarts, by whichever route.
abbrev pub IsOperation : Permission → Type 0
IsOperation p =
    (p ≡ Permission.ops_doctor) ⊎ ((p ≡ Permission.ops_render) ⊎ (p ≡ Permission.ops_restart))

action-low :
    (status : UserStatus) (action : CoreAction)
    → (has_permission viewer status (permission_for_action action) ≡ false)
      × ((has_permission operator status (permission_for_action action) ≡ false)
          ⊎ IsOperation (permission_for_action action))
unfolding has_permission permission_for_action
action-low status action = ground arith

param-low :
    (status : UserStatus) (param : Text) (p : Permission)
    → required_permission post_action param ≡ some p
    → (has_permission viewer status p ≡ false)
      × ((has_permission operator status p ≡ false) ⊎ IsOperation p)
unfolding required_permission
param-low status param p e = elim (Option-cases (action_for_route param)) [
  | inl k ↦ ground (arith, k)
  | inr (action, k) ↦
      let same : permission_for_action action ≡ p = ground (arith, k) in
      subst
        (λ (q : Permission).
          (has_permission viewer status q ≡ false)
          × ((has_permission operator status q ≡ false) ⊎ IsOperation q))
        same (action-low status action)
]

-- Of the routes that write and require a permission, by the middleware or in the handler of the
-- operational actions, a viewer holds the permission of none, whatever the status and the
-- parameter, and an operator at most those that run the doctor, the renderers and restarts.
pub required_permission-low :
    (route : Route) (status : UserStatus) (param : Text) (p : Permission)
    → required_permission route param ≡ some p
    → is_writing route ≡ true
    → (has_permission viewer status p ≡ false)
      × ((has_permission operator status p ≡ false) ⊎ IsOperation p)
unfolding required_permission route_permission has_permission
required_permission-low post_action status param p e w = param-low status param p e
required_permission-low route status param p e w = ground arith
