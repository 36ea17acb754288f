-- ===== src/Api/ReachedHandlers.antt =====
-- apps/api/src/app.ts: each handler of `/api/*` leads to the database of a history of store calls.
use cool_tunnel_server.Api.Access.{Request}
use cool_tunnel_server.Config.{AdminConfig}
use cool_tunnel_server.Api.Actions.{run_core_action, render_singbox, render_caddyfile}
use cool_tunnel_server.Api.Requests.{handle, api_request}
use cool_tunnel_server.Base.Texts.{is_empty, Text}
use cool_tunnel_server.Api.Replies.{ok_reply, Payload}
use cool_tunnel_server.Store.Db.{ProxyRow}
use cool_tunnel_server.Store.Users.{Actor}
use cool_tunnel_server.Api.Boundary.{build_server_render_accounts, Outside}
use cool_tunnel_server.Store.Status.{read_views, read_accounts, status_summary}
use cool_tunnel_server.Base.{ℕ, inl, inr, List, [], ◌∷◌, Bool-cases}
use cool_tunnel_server.Store.Monad.{M, Host, Env}
use cool_tunnel_server.Store.Steps.{Steps, return-Steps, fail-Steps}
use cool_tunnel_server.Store.Update.{enable_user, disable_user}
use cool_tunnel_server.Api.Reached.{Reached, reached_rules, Reached-order}
use cool_tunnel_server.Api.Handlers.{Server, Context}
use cool_tunnel_server.Api.Handlers
use cool_tunnel_server.Api.ProxyHandlers
use cool_tunnel_server.Api.ProxyHandlers.{attempt, render_after, core_action_response}
use cool_tunnel_server.Api.Routes.{Route, CoreAction}

module _ (host : Host) where
  read_views-Reached :
      (env : Env) (rows : List ProxyRow) → Steps (Reached host) (read_views host env rows)
  unfolding read_views
  read_views-Reached env [] = return-Steps (Reached-order host) _
  read_views-Reached env (row ∷ rows) = search reached_rules depth 8

  read_accounts-Reached : (env : Env) → Steps (Reached host) (read_accounts host env)
  unfolding read_accounts
  read_accounts-Reached env = search (reached_rules, read_views-Reached) depth 8

  status_summary-Reached : (env : Env) → Steps (Reached host) (status_summary host env)
  unfolding status_summary
  status_summary-Reached env = search (reached_rules, read_accounts-Reached) depth 12

  build_accounts-Reached :
      (env : Env) → Steps (Reached host) (build_server_render_accounts host env)
  unfolding build_server_render_accounts
  build_accounts-Reached env = search (reached_rules, read_accounts-Reached) depth 8

  enable_user-Reached :
      (env : Env) (actor : Actor) (id : Text) → Steps (Reached host) (enable_user host env actor id)
  unfolding enable_user
  enable_user-Reached env actor id = search reached_rules depth 4

  disable_user-Reached :
      (env : Env) (actor : Actor) (id : Text)
      → Steps (Reached host) (disable_user host env actor id)
  unfolding disable_user
  disable_user-Reached env actor id = search reached_rules depth 4

  module _ (outside : Outside) where
    pub run_core_action-Reached :
        (action : CoreAction) (config : AdminConfig) (env : Env)
        → Steps (Reached host) (run_core_action host outside action config env)
    unfolding run_core_action render_singbox render_caddyfile
    run_core_action-Reached CoreAction.doctor config env = return-Steps (Reached-order host) _
    run_core_action-Reached CoreAction.render_caddyfile config env = search reached_rules depth 20
    run_core_action-Reached CoreAction.render_singbox config env =
        search (reached_rules, build_accounts-Reached) depth 12
    run_core_action-Reached CoreAction.restart_services config env =
        return-Steps (Reached-order host) _
    run_core_action-Reached CoreAction.backup config env = return-Steps (Reached-order host) _
    run_core_action-Reached CoreAction.restore config env = return-Steps (Reached-order host) _

attempt-Reached :
    (host : Host) {A : Type 0} (m : M A) → Steps (Reached host) m → Steps (Reached host) (attempt m)
unfolding Steps attempt
attempt-Reached host m h db = h db

module _ (server : Server) where
  reply-Reached :
      (status : ℕ) (payload : Payload)
      → Steps (Reached server.host) (ok_reply server.fits status payload)
  unfolding ok_reply
  reply-Reached status payload = elim (Bool-cases (server.fits payload)) [
    | inl e ↦ rw e (return-Steps (Reached-order server.host) _)
    | inr e ↦ rw e (fail-Steps (Reached-order server.host) _ _)
  ]

  required_param-Reached : (c : Context) → Steps (Reached server.host) (Handlers.required_param c)
  unfolding Handlers.required_param
  required_param-Reached c = elim (Bool-cases (is_empty c.param)) [
    | inl e ↦ rw e (fail-Steps (Reached-order server.host) _ _)
    | inr e ↦ rw e (return-Steps (Reached-order server.host) _)
  ]

  render_after-Reached :
      (c : Context) (trigger : Text) → Steps (Reached server.host) (render_after server c trigger)
  unfolding render_after
  render_after-Reached c trigger =
      search (reached_rules, attempt-Reached, run_core_action-Reached) depth 8

  core_action-Reached :
      (c : Context) (action : CoreAction)
      → Steps (Reached server.host) (core_action_response server c action)
  unfolding core_action_response
  core_action-Reached c action = search (reached_rules, run_core_action-Reached) depth 8

  ruleset handler_rules = (
    reached_rules, reply-Reached, required_param-Reached, render_after-Reached, core_action-Reached,
    read_accounts-Reached, status_summary-Reached, enable_user-Reached, disable_user-Reached,
  )

  pub handle-Reached :
      (route : Route) (c : Context) → Steps (Reached server.host) (handle server route c)
  unfolding handle Handlers.delete_user_by_id Handlers.get_audit Handlers.get_me
      Handlers.get_settings_reply Handlers.get_user_by_id Handlers.get_users Handlers.patch_settings
      Handlers.patch_user Handlers.post_logout Handlers.post_me_password Handlers.post_user_disable
      Handlers.post_user_enable Handlers.post_user_reset_password Handlers.post_users
      ProxyHandlers.delete_proxy_account_by_id ProxyHandlers.get_me_sessions
      ProxyHandlers.get_proxy_account_by_id ProxyHandlers.get_proxy_accounts
      ProxyHandlers.get_status ProxyHandlers.patch_proxy_account ProxyHandlers.post_action
      ProxyHandlers.post_proxy_accounts ProxyHandlers.post_proxy_disable
      ProxyHandlers.post_proxy_enable ProxyHandlers.post_proxy_regenerate_uuid
      ProxyHandlers.post_proxy_reveal ProxyHandlers.post_render
  handle-Reached Route.post_me_password c = search handler_rules depth 20
  handle-Reached Route.get_me c = search handler_rules depth 20
  handle-Reached Route.get_me_sessions c = search handler_rules depth 20
  handle-Reached Route.get_users c = search handler_rules depth 20
  handle-Reached Route.post_users c = search handler_rules depth 20
  handle-Reached Route.get_user c = search handler_rules depth 20
  handle-Reached Route.patch_user c = search handler_rules depth 20
  handle-Reached Route.post_user_enable c = search handler_rules depth 20
  handle-Reached Route.post_user_disable c = search handler_rules depth 20
  handle-Reached Route.post_user_reset_password c = search handler_rules depth 20
  handle-Reached Route.delete_user c = search handler_rules depth 20
  handle-Reached Route.get_proxy_accounts c = search handler_rules depth 20
  handle-Reached Route.post_proxy_accounts c = search handler_rules depth 20
  handle-Reached Route.get_proxy_account c = search handler_rules depth 20
  handle-Reached Route.patch_proxy_account c = search handler_rules depth 20
  handle-Reached Route.post_proxy_enable c = search handler_rules depth 20
  handle-Reached Route.post_proxy_disable c = search handler_rules depth 20
  handle-Reached Route.post_proxy_regenerate_uuid c = search handler_rules depth 20
  handle-Reached Route.post_proxy_reveal c = search handler_rules depth 20
  handle-Reached Route.delete_proxy_account c = search handler_rules depth 20
  handle-Reached Route.get_settings c = search handler_rules depth 20
  handle-Reached Route.patch_settings c = search handler_rules depth 20
  handle-Reached Route.get_status c = search handler_rules depth 20
  handle-Reached Route.post_doctor_run c = search handler_rules depth 20
  handle-Reached Route.post_render c = search handler_rules depth 20
  handle-Reached Route.post_action c = search handler_rules depth 20
  handle-Reached Route.post_logout c = search handler_rules depth 20
  handle-Reached Route.get_audit c = search handler_rules depth 20

  pub api_request-Reached :
      (now : ℕ) (route : Route) (request : Request) (c : Context)
      → Steps (Reached server.host) (api_request server now route request c)
  unfolding api_request
  api_request-Reached now route request c = search (reached_rules, handle-Reached) depth 6
