-- ===== src/Api/SecretLaws.antt =====
-- apps/api/src/app.ts: who is sent the secrets of the proxy accounts.
use cool_tunnel_server.Api.AccessLaws.{authorize-IsAuthorized}
use cool_tunnel_server.Api.Session.{CurrentSession}
use cool_tunnel_server.Store.Db.{Db}
use cool_tunnel_server.Api.Access.{Request, authorize}
use cool_tunnel_server.Api.Requests.{handle, api_request}
use cool_tunnel_server.Shared.Roles.{
  AdminRole, Permission, UserStatus, admin, has_permission, includes, operator, owner,
  role_permissions, role_rank, viewer,
}
use cool_tunnel_server.Store.ProxyInput.{ProxyView}
use cool_tunnel_server.Api.Replies.{
  SentAccount, Reply, without_secrets, redact_proxy_account_for, ok_reply, Payload, account,
  accounts,
}
use cool_tunnel_server.Base.{
  ℕ, ◌<◌, ◌≡◌, refl, inl, inr, true, false, some, none, List, [], ◌∷◌, map, arith, Bool-cases,
}
use cool_tunnel_server.Base.Results.{ok}
use cool_tunnel_server.Store.Monad.{◌>>=◌, return, read}
use cool_tunnel_server.Api.Yields.{Yields, yields_rules, return-Yields, fail-Yields}
use cool_tunnel_server.Api.Handlers.{Server, Context}
use cool_tunnel_server.Api.Handlers
use cool_tunnel_server.Api.ProxyHandlers
use cool_tunnel_server.Api.Routes.{Route, CoreAction, route_permission}

AllHidden : List SentAccount → Type 0
AllHidden [] = Unit {0}
AllHidden (a ∷ rest) = (a.secrets ≡ none) × AllHidden rest

-- No account of the reply has the fields `uuid`, `previousUuid` and `subscriptionUrl`.
pub HidesSecrets : Reply → Type 0
unfolding AllHidden
HidesSecrets r = elim r.payload [
  | account a ↦ a.secrets ≡ none
  | accounts listed ↦ AllHidden listed
  | _ ↦ Unit {0}
]

AllHidden-without : (views : List ProxyView) → AllHidden (map without_secrets views)
unfolding AllHidden without_secrets
AllHidden-without [] = tt
AllHidden-without (v ∷ views) = (refl, AllHidden-without views)

redact-low :
    (role : AdminRole) (view : ProxyView)
    → role_rank role < role_rank admin
    → (redact_proxy_account_for role view).secrets ≡ none
unfolding redact_proxy_account_for role_rank without_secrets
redact-low role view low = ground arith

low-proxy_write :
    (role : AdminRole) (status : UserStatus)
    → role_rank role < role_rank admin
    → has_permission role status Permission.proxy_accounts_write ≡ false
unfolding role_rank has_permission role_permissions includes
low-proxy_write owner status low = absurd (omega arith)
low-proxy_write admin status low = absurd (omega arith)
low-proxy_write operator UserStatus.active low = refl
low-proxy_write operator UserStatus.disabled low = refl
low-proxy_write viewer UserStatus.active low = refl
low-proxy_write viewer UserStatus.disabled low = refl

module _ (server : Server) where
  reply-HidesSecrets :
      (status : ℕ) (payload : Payload)
      → HidesSecrets (record { status = status; payload = payload })
      → Yields HidesSecrets (ok_reply server.fits status payload)
  unfolding ok_reply
  reply-HidesSecrets status payload h = elim (Bool-cases (server.fits payload)) [
    | inl e ↦ rw e (return-Yields HidesSecrets _ h)
    | inr e ↦ rw e (fail-Yields HidesSecrets _)
  ]

  plain_reply :
      (status : ℕ) (payload : Payload)
      → HidesSecrets (record { status = status; payload = payload })
      → Yields HidesSecrets (return (record { status = status; payload = payload }))
  plain_reply status payload h = return-Yields HidesSecrets _ h

  core_action-HidesSecrets :
      (c : Context) (action : CoreAction)
      → Yields HidesSecrets (ProxyHandlers.core_action_response server c action)
  unfolding ProxyHandlers.core_action_response HidesSecrets
  core_action-HidesSecrets c action = search (yields_rules, tt) depth 6

  -- The session of the context is of a role below admin that holds the permission of the route.
  abbrev IsLow : Route → Context → Type 0
  IsLow route c =
      (role_rank c.session.role < role_rank admin)
      × ((p : Permission)
          → route_permission route ≡ some p
          → has_permission c.session.role c.session.status p ≡ true)

  no_write : (c : Context) (h : IsLow Route.post_proxy_accounts c) → ⊥
  unfolding route_permission
  no_write c (low, permitted) =
      let lacks = low-proxy_write c.session.role c.session.status low in
      let holds = permitted Permission.proxy_accounts_write refl in cc

  handle-HidesSecrets :
      (route : Route) (c : Context) → IsLow route c → Yields HidesSecrets (handle server route c)
  unfolding handle HidesSecrets route_permission Handlers.delete_user_by_id Handlers.get_audit
      Handlers.get_me Handlers.get_settings_reply Handlers.get_user_by_id Handlers.get_users
      Handlers.patch_settings Handlers.patch_user Handlers.post_logout Handlers.post_me_password
      Handlers.post_user_disable Handlers.post_user_enable Handlers.post_user_reset_password
      Handlers.post_users ProxyHandlers.delete_proxy_account_by_id ProxyHandlers.get_me_sessions
      ProxyHandlers.get_proxy_account_by_id ProxyHandlers.get_proxy_accounts
      ProxyHandlers.get_status ProxyHandlers.patch_proxy_account ProxyHandlers.post_action
      ProxyHandlers.post_proxy_accounts ProxyHandlers.post_proxy_disable
      ProxyHandlers.post_proxy_enable ProxyHandlers.post_proxy_regenerate_uuid
      ProxyHandlers.post_proxy_reveal ProxyHandlers.post_render
  handle-HidesSecrets Route.post_me_password c h =
      search (yields_rules, reply-HidesSecrets, tt) depth 20
  handle-HidesSecrets Route.get_me c h = search (yields_rules, reply-HidesSecrets, tt) depth 20
  handle-HidesSecrets Route.get_me_sessions c h =
      search (yields_rules, reply-HidesSecrets, tt) depth 20
  handle-HidesSecrets Route.get_users c h = search (yields_rules, reply-HidesSecrets, tt) depth 20
  handle-HidesSecrets Route.post_users c h = search (yields_rules, reply-HidesSecrets, tt) depth 20
  handle-HidesSecrets Route.get_user c h = search (yields_rules, reply-HidesSecrets, tt) depth 20
  handle-HidesSecrets Route.patch_user c h = search (yields_rules, reply-HidesSecrets, tt) depth 20
  handle-HidesSecrets Route.post_user_enable c h =
      search (yields_rules, reply-HidesSecrets, tt) depth 20
  handle-HidesSecrets Route.post_user_disable c h =
      search (yields_rules, reply-HidesSecrets, tt) depth 20
  handle-HidesSecrets Route.post_user_reset_password c h =
      search (yields_rules, reply-HidesSecrets, tt) depth 20
  handle-HidesSecrets Route.delete_user c h = search (yields_rules, reply-HidesSecrets, tt) depth 20
  handle-HidesSecrets Route.get_proxy_accounts c h =
      search (yields_rules, reply-HidesSecrets, AllHidden-without) depth 8
  handle-HidesSecrets Route.post_proxy_accounts c h = absurd (no_write c h)
  handle-HidesSecrets Route.get_proxy_account c h =
      search (yields_rules, reply-HidesSecrets, redact-low _ _ h.0) depth 8
  handle-HidesSecrets Route.patch_proxy_account c h = absurd (no_write c h)
  handle-HidesSecrets Route.post_proxy_enable c h = absurd (no_write c h)
  handle-HidesSecrets Route.post_proxy_disable c h = absurd (no_write c h)
  handle-HidesSecrets Route.post_proxy_regenerate_uuid c h = absurd (no_write c h)
  handle-HidesSecrets Route.post_proxy_reveal c h = absurd (no_write c h)
  handle-HidesSecrets Route.delete_proxy_account c h = absurd (no_write c h)
  handle-HidesSecrets Route.get_settings c h =
      search (yields_rules, reply-HidesSecrets, tt) depth 20
  handle-HidesSecrets Route.patch_settings c h =
      search (yields_rules, reply-HidesSecrets, tt) depth 20
  handle-HidesSecrets Route.get_status c h = search (yields_rules, reply-HidesSecrets, tt) depth 20
  handle-HidesSecrets Route.post_doctor_run c h =
      search (yields_rules, core_action-HidesSecrets) depth 8
  handle-HidesSecrets Route.post_render c h =
      search (yields_rules, core_action-HidesSecrets) depth 8
  handle-HidesSecrets Route.post_action c h =
      search (yields_rules, core_action-HidesSecrets) depth 8
  handle-HidesSecrets Route.post_logout c h = search (yields_rules, tt) depth 20
  handle-HidesSecrets Route.get_audit c h = search (yields_rules, reply-HidesSecrets, tt) depth 20

  -- No proxy account in a reply to a user below admin has the fields `uuid`, `previousUuid` and
  -- `subscriptionUrl`, whatever the route, the request and the database. The masked URL stays.
  pub api_request-HidesSecrets :
      (now : ℕ) (route : Route) (request : Request) (c : Context) (db : Db)
      (session : CurrentSession) (answer : Reply)
      → authorize server.host.platform server.config now (route_permission route) request
        ≡ ok session
      → role_rank session.role < role_rank admin
      → (api_request server now route request c db).0 ≡ ok answer
      → HidesSecrets answer
  unfolding api_request ◌>>=◌ read Yields
  api_request-HidesSecrets now route request c db session answer authorized low e =
      let permitted =
        (authorize-IsAuthorized server.host.platform server.config now (route_permission route)
          request session authorized).permitted in
      let ran : (handle server route (record c { session = session }) db).0 ≡ ok answer =
        (rw authorized at e) in
      handle-HidesSecrets route (record c { session = session }) (low, permitted) db answer ran
