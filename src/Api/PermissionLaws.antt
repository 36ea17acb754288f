-- ===== src/Api/PermissionLaws.antt =====
-- apps/api/src/app.ts: a request to `/api/*` that is answered had the permission that its route
-- requires.
use cool_tunnel_server.Base.{ℕ, ◌≡◌, refl, ◌⊎◌, inl, inr, true, false, some, arith, Option-cases}
use cool_tunnel_server.Base.Texts.{Text}
use cool_tunnel_server.Base.Results.{Result-cases, ok}
use cool_tunnel_server.Shared.Roles.{
  AdminRole, UserStatus, Permission, owner, admin, viewer, operator, role_eq, has_permission,
}
use cool_tunnel_server.Store.Db.{Db}
use cool_tunnel_server.Store.Monad.{◌>>=◌, read}
use cool_tunnel_server.Api.Session.{CurrentSession}
use cool_tunnel_server.Api.Access.{Request, authorize}
use cool_tunnel_server.Api.AccessLaws.{authorize-IsAuthorized}
use cool_tunnel_server.Api.Replies.{Reply}
use cool_tunnel_server.Api.Routes.{
  Route, CoreAction, resolve_action, action_for_route, route_permission, required_permission,
}
use cool_tunnel_server.Api.RouteLaws.{IsOperation, is_writing, required_permission-low}
use cool_tunnel_server.Api.Requests.{handle, api_request}
use cool_tunnel_server.Api.Handlers.{Server, Context}
use cool_tunnel_server.Api.ProxyHandlers

-- The handler of the operational actions asks for the permission of the action.
resolve_action-required :
    (role : AdminRole) (status : UserStatus) (param : Text) (action : CoreAction) (p : Permission)
    → resolve_action role status param ≡ ok action
    → required_permission Route.post_action param ≡ some p
    → has_permission role status p ≡ true
unfolding resolve_action required_permission
resolve_action-required role status param action p e r =
    elim (Option-cases (action_for_route param)) [
      | inl k ↦ ground (arith, k)
      | inr (found, k) ↦ ground (arith, k)
    ]

module _ (server : Server) where
  post_action-permitted :
      (c : Context) (db : Db) (answer : Reply) (p : Permission)
      → (ProxyHandlers.post_action server c db).0 ≡ ok answer
      → required_permission Route.post_action c.param ≡ some p
      → has_permission c.session.role c.session.status p ≡ true
  unfolding ProxyHandlers.post_action ◌>>=◌ read
  post_action-permitted c db answer p e r =
      elim (Result-cases (resolve_action c.session.role c.session.status c.param)) [
        | inl (action, k) ↦
            resolve_action-required c.session.role c.session.status c.param action p k r
        | inr (f, k) ↦ ground (arith, k)
      ]

  -- By the middleware, or else by the handler.
  handle-permitted :
      (route : Route) (c : Context) (db : Db) (answer : Reply) (p : Permission)
      → ((q : Permission)
          → route_permission route ≡ some q
          → has_permission c.session.role c.session.status q ≡ true)
      → (handle server route c db).0 ≡ ok answer
      → required_permission route c.param ≡ some p
      → has_permission c.session.role c.session.status p ≡ true
  unfolding handle required_permission
  handle-permitted Route.post_action c db answer p h e r = post_action-permitted c db answer p e r
  handle-permitted route c db answer p h e r = h p r

  role-low :
      (role : AdminRole) (status : UserStatus) (route : Route) (param : Text) (p : Permission)
      → has_permission role status p ≡ true
      → required_permission route param ≡ some p
      → is_writing route ≡ true
      → (role_eq role viewer ≡ false) × ((role_eq role operator ≡ false) ⊎ IsOperation p)
  role-low owner status route param p h r w = (refl, inl refl)
  role-low admin status route param p h r w = (refl, inl refl)
  role-low operator status route param p h r w =
      elim (required_permission-low route status param p r w).1 [
        | inl k ↦ cc
        | inr k ↦ (refl, inr k)
      ]
  role-low viewer status route param p h r w =
      let lacks = (required_permission-low route status param p r w).0 in cc

  -- When a request to a route that writes and requires a permission, by the middleware or in the
  -- handler of the operational actions, is answered and not refused, its session holds the
  -- permission; it is no viewer's, and an operator's only where it runs the doctor, a renderer or
  -- restarts.
  pub api_request-permitted :
      (now : ℕ) (route : Route) (request : Request) (c : Context) (db : Db)
      (session : CurrentSession) (answer : Reply) (p : Permission)
      → authorize server.host.platform server.config now (route_permission route) request
        ≡ ok session
      → (api_request server now route request c db).0 ≡ ok answer
      → required_permission route c.param ≡ some p
      → is_writing route ≡ true
      → (has_permission session.role session.status p ≡ true)
        × (role_eq session.role viewer ≡ false)
        × ((role_eq session.role operator ≡ false) ⊎ IsOperation p)
  unfolding api_request ◌>>=◌ read
  api_request-permitted now route request c db session answer p authorized e required writes =
      let by_middleware =
        (authorize-IsAuthorized server.host.platform server.config now (route_permission route)
          request session authorized).permitted in
      let ran : (handle server route (record c { session = session }) db).0 ≡ ok answer =
        (rw authorized at e) in
      let holds =
        handle-permitted route (record c { session = session }) db answer p by_middleware ran
          required in
      let (above, ops) =
        role-low session.role session.status route c.param p holds required writes in
      (holds, above, ops)
