-- ===== src/Api/ProxyHandlers.antt =====
-- apps/api/src/app.ts: the handlers of `/api/*` on proxy accounts, the status and the actions.
use cool_tunnel_server.Base.Tables.{order_by, delete_where}
use cool_tunnel_server.Api.Inputs.{parse_proxy_input, string_of, to_create_input, safe_json}
use cool_tunnel_server.Store.Status.{read_accounts, status_summary}
use cool_tunnel_server.Api.Actions.{run_core_action}
use cool_tunnel_server.Api.Boundary.{BoundaryResult}
use cool_tunnel_server.Api.Replies.{
  summary, Reply, account, accounts, redact_proxy_account_for, with_secrets, nothing,
  without_secrets, result, sessions, redact_boundary,
}
use cool_tunnel_server.Security.Json.{null, Json, Fields, str, end, field, find_field, num, bool}
use cool_tunnel_server.Base.Texts.{Text, codes, is_empty, text_eq, take}
use cool_tunnel_server.Base.{
  true, false, not, ◌&&◌, Option, some, none, [], ◌++◌, map, ltb, if◌then◌else◌,
}
use cool_tunnel_server.Store.Monad.{M, ◌>>=◌, ◌>>◌, return, read, write, audit_row}
use cool_tunnel_server.Store.Proxy.{
  create_proxy_account, update_proxy_account, set_proxy_enabled, regenerate_proxy_uuid,
  reveal_proxy_subscription, delete_proxy_account, get_proxy_account,
}
use cool_tunnel_server.Api.Handlers.{Server, Context, actor_of, required_param, body_of, reply}
use cool_tunnel_server.Api.Routes.{CoreAction, resolve_action}
use cool_tunnel_server.Base.Results.{Result, ok, throw, http_error, not_found}

-- `try { … } catch`: what was written stays written.
unfoldable pub attempt : {A : Type 0} → M A → M (Result A)
attempt m db = let (r, db') = m db in (ok r, db')

-- The text of an action in a route and in the audit log.
abbrev pub action_text : CoreAction → Text
action_text CoreAction.doctor = codes "doctor"
action_text CoreAction.render_caddyfile = codes "render-caddyfile"
action_text CoreAction.render_singbox = codes "render-singbox"
action_text CoreAction.restart_services = codes "restart-services"
action_text CoreAction.backup = codes "backup"
action_text CoreAction.restore = codes "restore"

-- `...(error ? { error } : {})`
abbrev error_field : Text → Fields
error_field error = if is_empty error then end else field (codes "error") (str error) end

-- `String(body.target ?? "singbox")`
abbrev target_value : Option Json → Json
target_value none = str (codes "singbox")
target_value (some null) = str (codes "singbox")
target_value (some value) = value

-- `safeJson(c).catch(() => ({}))`
abbrev or_no_fields : Result Fields → Fields
or_no_fields (ok fields) = fields
or_no_fields (throw e) = end

module _ (server : Server) (c : Context) where
  -- The detail of the audit entry of a rendering that ended, or that threw.
  abbrev rendered_detail : Text → Result BoundaryResult → Fields
  rendered_detail trigger (ok outcome) = field (codes "trigger") (str trigger) (
      field (codes "code") (num (server.host.platform.number_text outcome.code)) (
        field (codes "ok") (bool outcome.is_ok)
          (error_field (if outcome.is_ok then [] else take 200 outcome.stderr))))
  rendered_detail trigger (throw e) = field (codes "trigger") (str trigger) (
      field (codes "code") (num (codes "-1"))
        (field (codes "ok") (bool false) (error_field (server.message_of e))))

  -- `renderSingboxAfterProxyMutation`
  unfoldable pub render_after : Text → M (Unit {0})
  render_after trigger = do
    outcome ←
        attempt (
          run_core_action server.host server.outside CoreAction.render_singbox server.config
            c.later)
    write (
        audit_row server.host c.later.audit_at (some c.session.user_id)
          (codes "core.render-singbox") (some (codes "core")) (some (codes "render-singbox"))
          (rendered_detail trigger outcome))

  -- `coreActionResponse`
  unfoldable pub core_action_response : CoreAction → M Reply
  core_action_response action = do
    outcome ← run_core_action server.host server.outside action server.config c.env
    write (
        audit_row server.host c.env.audit_at (some c.session.user_id)
          (codes "core." ++ action_text action) (some (codes "core")) (some (action_text action))
          (field (codes "code") (num (server.host.platform.number_text outcome.code)) end))
    return (record {
      status = if outcome.is_ok then 200 else 500;
      payload = result (redact_boundary server.host outcome);
    })

  -- `GET /api/proxy-accounts`
  unfoldable pub get_proxy_accounts : M Reply
  get_proxy_accounts = do
    listed ← read_accounts server.host c.env
    reply server c 200 (accounts (map without_secrets listed))

  -- `POST /api/proxy-accounts`
  unfoldable pub post_proxy_accounts : M Reply
  post_proxy_accounts = do
    body ← body_of c
    input ← read (λ db. parse_proxy_input server.host.platform false body)
    created ← create_proxy_account server.host c.env (actor_of c) (to_create_input input)
    render_after (codes "proxy_account.create")
    reply server c 201 (account (with_secrets created))

  -- `GET /api/proxy-accounts/:id`
  unfoldable pub get_proxy_account_by_id : M Reply
  get_proxy_account_by_id = do
    id ← required_param c
    found ← get_proxy_account server.host c.env (http_error not_found 404) id
    reply server c 200 (account (redact_proxy_account_for c.session.role found))

  -- `PATCH /api/proxy-accounts/:id`
  unfoldable pub patch_proxy_account : M Reply
  patch_proxy_account = do
    id ← required_param c
    body ← body_of c
    input ← read (λ db. parse_proxy_input server.host.platform true body)
    updated ← update_proxy_account server.host c.env (actor_of c) id input
    render_after (codes "proxy_account.update")
    reply server c 200 (account (with_secrets updated))

  -- `POST /api/proxy-accounts/:id/enable`
  unfoldable pub post_proxy_enable : M Reply
  post_proxy_enable = do
    id ← required_param c
    updated ← set_proxy_enabled server.host c.env (actor_of c) id true
    render_after (codes "proxy_account.enable")
    reply server c 200 (account (with_secrets updated))

  -- `POST /api/proxy-accounts/:id/disable`
  unfoldable pub post_proxy_disable : M Reply
  post_proxy_disable = do
    id ← required_param c
    updated ← set_proxy_enabled server.host c.env (actor_of c) id false
    render_after (codes "proxy_account.disable")
    reply server c 200 (account (with_secrets updated))

  -- `POST /api/proxy-accounts/:id/regenerate-uuid`
  unfoldable pub post_proxy_regenerate_uuid : M Reply
  post_proxy_regenerate_uuid = do
    id ← required_param c
    updated ← regenerate_proxy_uuid server.host c.env (actor_of c) c.until_text id
    render_after (codes "proxy_account.regenerate-uuid")
    reply server c 200 (account (with_secrets updated))

  -- `POST /api/proxy-accounts/:id/reveal`
  unfoldable pub post_proxy_reveal : M Reply
  post_proxy_reveal = do
    id ← required_param c
    revealed ← reveal_proxy_subscription server.host c.env (actor_of c) id
    reply server c 200 (account (redact_proxy_account_for c.session.role revealed))

  -- `DELETE /api/proxy-accounts/:id`
  unfoldable pub delete_proxy_account_by_id : M Reply
  delete_proxy_account_by_id = do
    id ← required_param c
    delete_proxy_account server.host c.env (actor_of c) id
    render_after (codes "proxy_account.delete")
    reply server c 200 nothing

  -- `GET /api/status`
  unfoldable pub get_status : M Reply
  get_status = do found ← status_summary server.host c.env; reply server c 200 (summary found)

  -- `GET /api/me/sessions`
  unfoldable pub get_me_sessions : M Reply
  get_me_sessions = do
    rows ← read (λ db. ok (
        order_by (λ a b. ltb b.created_at a.created_at)
          (delete_where
            (λ s. not (text_eq s.user_id c.session.user_id && ltb c.env.ts s.expires_at))
            db.sessions)))
    reply server c 200 (sessions (map (λ s. (s, text_eq s.id c.session_id)) rows))

  -- `POST /api/render`
  unfoldable pub post_render : M Reply
  post_render = do
    target ← read (λ db.
        string_of server.host.platform
          (target_value (find_field (codes "target") (or_no_fields (safe_json c.body)))))
    core_action_response (
        if text_eq target (codes "caddyfile")
        then CoreAction.render_caddyfile
        else CoreAction.render_singbox)

  -- `POST /api/actions/:action`
  unfoldable pub post_action : M Reply
  post_action = do
    action ← read (λ db. resolve_action c.session.role c.session.status c.param)
    core_action_response action
