-- ===== src/Api/Events.antt =====
-- What reaches the admin API, one event after the other: requests, what the auth library writes in
-- its own handler of `/api/auth/*` or for other handlers, and the job that prunes the audit log.
use cool_tunnel_server.Store.Bootstrap.{create_bootstrap_token}
use cool_tunnel_server.Store.Settings.{ensure_defaults}
use cool_tunnel_server.Store.Db.{Db, Session}
use cool_tunnel_server.Store.Sessions.{create_session, delete_sessions}
use cool_tunnel_server.Api.Subscription.{subscription_response}
use cool_tunnel_server.Base.Texts.{Text}
use cool_tunnel_server.Api.Headers.{ProxyHeaders}
use cool_tunnel_server.Api.Setup.{post_two_factor, post_setup, SetupForm, run_audit_retention}
use cool_tunnel_server.Store.Monad.{Env}
use cool_tunnel_server.Api.Requests.{api_request}
use cool_tunnel_server.Api.Login.{LoginState, LoginForm, SignedIn, post_login}
use cool_tunnel_server.Api.Handlers.{Server, Context}
use cool_tunnel_server.Api.Access.{Request}
use cool_tunnel_server.Base.{ℕ, Bool, Option, List, [], ◌∷◌, some, none}
use cool_tunnel_server.Api.Routes.{Route}

pub data Event : Type 0 where
  api : (now : ℕ) → Route → Request → Context → Event
  login :
      (sign_in : LoginForm → Option SignedIn) (now answered : ℕ)
      → Env
      → ProxyHeaders
      → LoginForm
      → Event
  two_factor :
      (verified : (method code : Text) → Option (Option Text))
      → Env
      → ProxyHeaders
      → (csrf csrf_cookie method code : Text) → Event
  setup : Env → SetupForm → Event
  subscription : Env → (token : Text) → Event
  -- `app.on(["GET", "POST"], "/api/auth/*", …)`: the auth library answers, and writes as it does.
  auth_handler : (writes : Db → Db) → Event
  session_opens : Session → Event
  sessions_end : (Session → Bool) → Event
  audit_retention : (now retention_days audit_at : ℕ) → (cutoff_text : Text) → Event
  -- `ensureDefaults` and `createBootstrapToken`, which the server and the operator run.
  starts : ℕ → Event
  issues_token : Env → (secret token fingerprint expires_text : Text) → ℕ → Event

-- What the auth library writes by its own handler, where the event is one of it.
abbrev pub auth_write : Event → Option (Db → Db)
auth_write (auth_handler writes) = some writes
auth_write _ = none

module _ (server : Server) where
  unfoldable pub run_event : Event → LoginState → LoginState
  run_event (api now route request c) s = record s {
    db = (api_request server now route request c s.db).1;
  }
  run_event (login sign_in now answered env headers form) s =
      (post_login server.host server.config.auth_secret sign_in now answered env headers form s).1
  run_event (two_factor verified env headers csrf csrf_cookie method code) s = record s {
    db = (post_two_factor server verified env headers csrf csrf_cookie method code s.db).1;
  }
  run_event (setup env form) s = record s { db = (post_setup server env form s.db).1 }
  run_event (subscription env token) s = record s {
    db = (subscription_response server.host env token s.db).1;
  }
  run_event (auth_handler writes) s = record s { db = writes s.db }
  run_event (session_opens session) s = record s { db = create_session session s.db }
  run_event (sessions_end p) s = record s { db = delete_sessions p s.db }
  run_event (audit_retention now days audit_at cutoff_text) s = record s {
    db = run_audit_retention server now days audit_at cutoff_text s.db;
  }
  run_event (starts now) s = record s { db = ensure_defaults server.config now s.db }
  run_event (issues_token env secret token fingerprint expires_text ttl) s = record s {
    db = (create_bootstrap_token server.host env secret token fingerprint expires_text ttl s.db).1;
  }

  unfoldable pub run_events : List Event → LoginState → LoginState
  unfolding run_event
  run_events [] s = s
  run_events (e ∷ es) s = run_events es (run_event e s)
