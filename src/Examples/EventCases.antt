-- ===== src/Examples/EventCases.antt =====
-- The theorems on the handlers of apps/api/src/app.ts and on apps/api/src/core-boundary.ts at
-- concrete requests.
use cool_tunnel_server.Api.PasswordLaws.{other_session, post_me_password-rotates}
use cool_tunnel_server.Api.BuildLaws.{build-vouched}
use cool_tunnel_server.Store.Tokens.{row_has_id}
use cool_tunnel_server.Api.Inputs.{safe_json, text_or_empty}
use cool_tunnel_server.Store.Accounts.{change_own_password}
use cool_tunnel_server.Api.RenderLaws.{same_account, vouches}
use cool_tunnel_server.Store.Db.{Db}
use cool_tunnel_server.Store.Settings.{ensure_defaults}
use cool_tunnel_server.Store.Status.{read_accounts, read_views}
use cool_tunnel_server.Security.Validate.{
  well_formed, constant_time_equal, validate_password, validate_id,
}
use cool_tunnel_server.Store.Proxy.{list_proxy_accounts}
use cool_tunnel_server.Api.SecretLaws.{HidesSecrets, api_request-HidesSecrets}
use cool_tunnel_server.Security.Texts.{includes_text, ends_with}
use cool_tunnel_server.Api.Requests.{api_request, handle}
use cool_tunnel_server.Base.Tables.{any, count, find?}
use cool_tunnel_server.Api.Replies.{
  Reply, accounts, without_secrets, ok_reply, nothing, result, redact_boundary,
}
use cool_tunnel_server.Shared.Roles.{
  viewer, operator, Permission, role_eq, UserStatus, role_rank, has_permission,
}
use cool_tunnel_server.Store.Users.{get_own_password_hash}
use cool_tunnel_server.Api.Events.{Event}
use cool_tunnel_server.Api.Login.{LoginState}
use cool_tunnel_server.Api.Setup.{SetupForm}
use cool_tunnel_server.Api.Access.{
  Request, authorize, is_safe_method, is_csrf_exempt, is_untrusted_origin, is_cross_site,
  csrf_protection, require_session, require_api_csrf, require_fresh_password, require_permission,
}
use cool_tunnel_server.Security.Json.{Json, obj, field, str, end, Fields, find_field}
use cool_tunnel_server.Api.Session.{CurrentSession, get_current_session, csrf_token_for_session}
use cool_tunnel_server.Examples.{host, platform, env, config, db, viewer_id}
use cool_tunnel_server.Base.Texts.{codes, text_eq, Text}
use cool_tunnel_server.Base.{
  ◌≤◌, ◌≡◌, ◌⊎◌, refl, ◌≢◌, true, false, some, none, List, [], ◌∷◌, map, arith,
}
use cool_tunnel_server.Api.ProxyHandlers.{get_proxy_accounts, post_action, core_action_response}
use cool_tunnel_server.Store.SettingsUpdate.{get_settings, load_settings}
use cool_tunnel_server.Store.Monad.{Host, ◌>>=◌, ◌>>◌, return, read, write, fail_if}
use cool_tunnel_server.Base.Results.{ok}
use cool_tunnel_server.Api.Routes.{
  Route, route_permission, required_permission, action_for_route, resolve_action,
}
use cool_tunnel_server.Api.RouteLaws.{IsOperation}
use cool_tunnel_server.Api.PermissionLaws.{api_request-permitted}
use cool_tunnel_server.Api.Actions.{run_core_action}
use cool_tunnel_server.Api.Boundary.{
  Outside, Restarted, RenderAccount, build_server_render_accounts, or_placeholder,
  render_accounts_from, render_accounts_of,
}
use cool_tunnel_server.Api.Handlers.{Server, Context, post_me_password}

abbrev outside : Outside
outside = record {
  run_render = λ output input. ok (record { is_ok = true; code = 0; stdout = []; stderr = [] });
  docker_api = [];
  restart = λ url. Restarted.failed [];
  read_template = λ path. ok [];
  read_output = λ path. none;
  write_output = λ path body. ok tt;
  sha256_hex = λ body. codes "h";
  rendered_at = 1;
  updated_at = 1;
}

abbrev panel_host : Host
panel_host = record host { config = some config }

abbrev server : Server
server = record {
  host = panel_host;
  config = config;
  outside = outside;
  fits = λ payload. true;
  hash_password = λ password. password;
  verify_password = text_eq;
  message_of = λ fault. [];
}

abbrev low_session : CurrentSession
low_session = record {
  token = codes "t";
  user_id = viewer_id;
  role = viewer;
  status = UserStatus.active;
  must_change_password = false;
}

abbrev body : Json
body = obj (
    field (codes "currentPassword") (str (codes "p"))
      (field (codes "newPassword") (str (codes "long-enough-1")) end))

abbrev context : Context
context = record {
  env = env;
  later = env;
  session = low_session;
  session_id = codes "s1";
  param = [];
  body = some body;
  headers = record { x_forwarded_for = none; x_real_ip = none };
  limit = none;
  until_text = [];
}

abbrev read_request : Request
read_request = record {
  method = codes "GET";
  path = codes "/api/proxy-accounts";
  origin = none;
  sec_fetch_site = none;
  x_csrf_token = none;
  session = some (record {
    created_at = some 1;
    token = codes "t";
    user_id = viewer_id;
    role = some (codes "viewer");
    status = codes "active";
    must_change_password = false;
  });
}

abbrev setup_form : SetupForm
setup_form = record {
  token = [];
  token_cookie = [];
  email = [];
  username = [];
  name = [];
  password = [];
}

abbrev state : LoginState
state = record { throttle = record { login_attempts = []; account_attempts = [] }; db = db }

abbrev events : List Event
events =
    Event.api 1000 Route.get_proxy_accounts read_request context
    ∷ Event.setup env setup_form
    ∷ Event.auth_handler (λ d. record d { accounts = [] })
    ∷ Event.sessions_end (λ s. true)
    ∷ Event.audit_retention 9999999999 90 1000 []
    ∷ []

abbrev answer : Reply
answer = record {
  status = 200;
  payload = accounts (map without_secrets (list_proxy_accounts panel_host env (codes "p") db));
}

read-authorized :
    authorize panel_host.platform config 1000
      (route_permission Route.get_proxy_accounts)
      read_request
    ≡ ok low_session
unfolding any includes_text ends_with well_formed constant_time_equal has_permission
    get_current_session csrf_token_for_session is_safe_method is_csrf_exempt is_untrusted_origin
    is_cross_site csrf_protection require_session require_api_csrf require_fresh_password
    require_permission authorize route_permission
read-authorized = refl

read-answered :
    (api_request server 1000 Route.get_proxy_accounts read_request context db).0 ≡ ok answer
unfolding api_request handle ok_reply get_proxy_accounts read_accounts read_views get_settings
    load_settings ◌>>=◌ ◌>>◌ return read write authorize csrf_protection is_safe_method any text_eq
    require_session get_current_session require_api_csrf require_fresh_password require_permission
    route_permission has_permission ensure_defaults list_proxy_accounts
read-answered = refl

api_request-HidesSecrets_example : HidesSecrets answer
unfolding role_rank
api_request-HidesSecrets_example =
    api_request-HidesSecrets server 1000 Route.get_proxy_accounts read_request context db
      low_session answer read-authorized (omega arith) read-answered

abbrev operator_session : CurrentSession
operator_session = record low_session { role = operator }

abbrev action_request : Request
action_request = record {
  method = codes "POST";
  path = codes "/api/actions/doctor";
  origin = some (codes "https://p");
  sec_fetch_site = some (codes "same-origin");
  x_csrf_token = some (codes "a");
  session = some (record {
    created_at = some 1;
    token = codes "t";
    user_id = viewer_id;
    role = some (codes "operator");
    status = codes "active";
    must_change_password = false;
  });
}

abbrev action_context : Context
action_context = record context { param = codes "doctor" }

abbrev doctor_answer : Reply
doctor_answer = record {
  status = 200;
  payload = result (record {
    is_ok = true;
    code = 0;
    stdout = codes "Run `ct doctor` on the VPS shell for full host and Docker diagnostics.\n";
    stderr = [];
  });
}

action-authorized :
    authorize panel_host.platform config 1000 (route_permission Route.post_action) action_request
    ≡ ok operator_session
unfolding any includes_text ends_with well_formed constant_time_equal has_permission
    get_current_session csrf_token_for_session is_safe_method is_csrf_exempt is_untrusted_origin
    is_cross_site csrf_protection require_session require_api_csrf require_fresh_password
    require_permission authorize route_permission
action-authorized = refl

doctor-answered :
    (api_request server 1000 Route.post_action action_request action_context db).0
    ≡ ok doctor_answer
unfolding api_request handle post_action core_action_response run_core_action resolve_action
    redact_boundary ◌>>=◌ ◌>>◌ return read write text_eq any includes_text ends_with well_formed
    constant_time_equal has_permission get_current_session csrf_token_for_session is_safe_method
    is_csrf_exempt is_untrusted_origin is_cross_site csrf_protection require_session
    require_api_csrf require_fresh_password require_permission authorize route_permission
doctor-answered = refl

api_request-permitted_example :
    (has_permission operator UserStatus.active Permission.ops_doctor ≡ true)
    × (role_eq operator viewer ≡ false)
    × ((role_eq operator operator ≡ false) ⊎ IsOperation Permission.ops_doctor)
unfolding required_permission action_for_route text_eq
api_request-permitted_example =
    api_request-permitted server 1000 Route.post_action action_request action_context db
      operator_session doctor_answer Permission.ops_doctor action-authorized doctor-answered refl
      refl

abbrev with_password : Db
with_password = record db {
  accounts =
      record {
        id = codes "a";
        account_id = viewer_id;
        provider_id = codes "credential";
        user_id = viewer_id;
        password = some (codes "p");
        created_at = 1;
        updated_at = 1;
      }
      ∷ [];
}

password-changed :
    (post_me_password server context with_password).0
    ≡ ok (record { status = 200; payload = nothing })
unfolding post_me_password ok_reply ◌>>=◌ ◌>>◌ return read write fail_if change_own_password
    get_own_password_hash safe_json text_or_empty find_field text_eq validate_password validate_id
    find?
password-changed = refl

post_me_password-rotates_example :
    (fields : Fields) × (current : Text) × (new : Text) × (old : Text) × (safe_json (some body)
      ≡ ok fields)
    × (text_or_empty platform (codes "newPassword") fields ≡ ok new)
    × (text_or_empty platform (codes "currentPassword") fields ≡ ok current)
    × (get_own_password_hash viewer_id with_password ≡ some old)
    × (text_eq current old ≡ true)
    × (text_eq new old ≡ false)
    × (validate_password new ≡ true)
    × (get_own_password_hash viewer_id (post_me_password server context with_password).1 ≡ some new)
    × (count
          (other_session viewer_id (codes "t"))
          (post_me_password server context with_password).1.sessions
        ≡ 0)
post_me_password-rotates_example =
    post_me_password-rotates server context with_password
      (record { status = 200; payload = nothing }) password-changed

abbrev rendered : List RenderAccount
rendered =
    or_placeholder
      (render_accounts_from 1000 db (list_proxy_accounts panel_host env (codes "p") db))

accounts-built : (build_server_render_accounts panel_host env db).0 ≡ ok rendered
unfolding build_server_render_accounts read_accounts read_views get_settings load_settings ◌>>=◌
    ◌>>◌ return read write ensure_defaults list_proxy_accounts render_accounts_from
    render_accounts_of
accounts-built = refl

one_row : (id : Text) → count (row_has_id id) db.proxy_accounts ≤ 1
unfolding count
one_row id = ground arith

abbrev phone : RenderAccount
phone = record { username = codes "phone"; uuid = codes "u" }

build-vouched_example :
    (rendered ≢ [])
    × (any (same_account phone) rendered ≡ any (vouches 1000 phone) db.proxy_accounts)
unfolding text_eq
build-vouched_example = build-vouched panel_host env db phone rendered one_row accounts-built refl
