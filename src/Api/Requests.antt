-- ===== src/Api/Requests.antt =====
-- apps/api/src/app.ts: a request to `/api/*`, through the middleware to the handler of its route.
use cool_tunnel_server.Api.Access.{Request, authorize}
use cool_tunnel_server.Api.Replies.{Reply}
use cool_tunnel_server.Base.{ℕ}
use cool_tunnel_server.Store.Monad.{M, ◌>>=◌, read}
use cool_tunnel_server.Api.Routes.{Route, CoreAction, route_permission}
use cool_tunnel_server.Api.Handlers.{Server, Context}
use cool_tunnel_server.Api.Handlers
use cool_tunnel_server.Api.ProxyHandlers

module _ (server : Server) where
  -- The handlers, by the route.
  unfoldable pub handle : Route → Context → M Reply
  handle Route.post_me_password c = Handlers.post_me_password server c
  handle Route.get_me c = Handlers.get_me server c
  handle Route.get_me_sessions c = ProxyHandlers.get_me_sessions server c
  handle Route.get_users c = Handlers.get_users server c
  handle Route.post_users c = Handlers.post_users server c
  handle Route.get_user c = Handlers.get_user_by_id server c
  handle Route.patch_user c = Handlers.patch_user server c
  handle Route.post_user_enable c = Handlers.post_user_enable server c
  handle Route.post_user_disable c = Handlers.post_user_disable server c
  handle Route.post_user_reset_password c = Handlers.post_user_reset_password server c
  handle Route.delete_user c = Handlers.delete_user_by_id server c
  handle Route.get_proxy_accounts c = ProxyHandlers.get_proxy_accounts server c
  handle Route.post_proxy_accounts c = ProxyHandlers.post_proxy_accounts server c
  handle Route.get_proxy_account c = ProxyHandlers.get_proxy_account_by_id server c
  handle Route.patch_proxy_account c = ProxyHandlers.patch_proxy_account server c
  handle Route.post_proxy_enable c = ProxyHandlers.post_proxy_enable server c
  handle Route.post_proxy_disable c = ProxyHandlers.post_proxy_disable server c
  handle Route.post_proxy_regenerate_uuid c = ProxyHandlers.post_proxy_regenerate_uuid server c
  handle Route.post_proxy_reveal c = ProxyHandlers.post_proxy_reveal server c
  handle Route.delete_proxy_account c = ProxyHandlers.delete_proxy_account_by_id server c
  handle Route.get_settings c = Handlers.get_settings_reply server c
  handle Route.patch_settings c = Handlers.patch_settings server c
  handle Route.get_status c = ProxyHandlers.get_status server c
  handle Route.post_doctor_run c = ProxyHandlers.core_action_response server c CoreAction.doctor
  handle Route.post_render c = ProxyHandlers.post_render server c
  handle Route.post_action c = ProxyHandlers.post_action server c
  handle Route.post_logout c = Handlers.post_logout server c
  handle Route.get_audit c = Handlers.get_audit server c

  -- The middleware in front, then the handler under the session that it found.
  unfoldable pub api_request : (now : ℕ) → Route → Request → Context → M Reply
  unfolding handle
  api_request now route request c = do
    session ←
        read
          (λ db. authorize server.host.platform server.config now (route_permission route) request)
    handle route (record c { session = session })
