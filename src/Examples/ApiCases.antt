-- ===== src/Examples/ApiCases.antt =====
-- The theorems on apps/api/src/app.ts at concrete requests.
use cool_tunnel_server.Base.{
  ℕ, ◌+◌, ◌≤◌, ◌≡◌, refl, true, false, ◌&&◌, ◌||◌, Option, some, none, List, [], ◌∷◌, arith, ltb,
  leb,
}
use cool_tunnel_server.Base.Texts.{Text, codes, text_eq}
use cool_tunnel_server.Base.Tables.{any, find?, update_where}
use cool_tunnel_server.Security.Texts.{includes_text, ends_with}
use cool_tunnel_server.Security.Validate.{well_formed, constant_time_equal, normalize_domain}
use cool_tunnel_server.Shared.Roles.{
  role_eq, is_active, role_rank, role_permissions, includes, has_permission, can_manage_target,
  can_create_role, can_delete_role, UserStatus, Permission,
}
use cool_tunnel_server.Api.Throttle.{
  Attempts, prune_attempts, attempts_over, set_attempt, bumped, bump_attempts,
}
use cool_tunnel_server.Api.Headers.{valid_login_csrf, login_throttle_key, ProxyHeaders}
use cool_tunnel_server.Api.Login.{post_login, LoginForm, SignedIn, LoginState, login_page}
use cool_tunnel_server.Api.Session.{
  get_current_session, csrf_token_for_session, RawSession, CurrentSession,
}
use cool_tunnel_server.Api.Access.{
  is_safe_method, is_csrf_exempt, is_untrusted_origin, is_cross_site, csrf_protection,
  require_session, require_api_csrf, require_fresh_password, require_permission, authorize, Request,
}
use cool_tunnel_server.Base.Results.{ok}
use cool_tunnel_server.Shared.Roles.{operator, owner, admin}
use cool_tunnel_server.Base.Texts.{length}
use cool_tunnel_server.Api.Routes.{CoreAction, resolve_action}
use cool_tunnel_server.Api.Attempts.{length-prune_attempts}
use cool_tunnel_server.Api.ThrottleLaws.{failures, is_fresh, attempts_over-failures}
use cool_tunnel_server.Api.LoginLaws.{post_login-throttled}
use cool_tunnel_server.Api.AccessLaws.{IsAuthorized, authorize-IsAuthorized}
use cool_tunnel_server.Api.RouteLaws.{action_rank, resolve_action-rank}
use cool_tunnel_server.Shared.Laws.{has_permission_mono, can_create_role-can_manage_target}
use cool_tunnel_server.Examples.{host, platform, env, db, owner_id, config}

abbrev key : Text
key = codes "k"

abbrev some_attempts : Attempts
some_attempts =
    record { key = key; count = 3; reset_at = 50 }
    ∷ record { key = codes "l"; count = 1; reset_at = 500 }
    ∷ []

length-prune_attempts_example : length (prune_attempts 100 some_attempts) ≤ 10000
length-prune_attempts_example = length-prune_attempts 100 some_attempts

attempts_over-failures_example :
    attempts_over (failures key 60000 (100 ∷ 200 ∷ 300 ∷ []) some_attempts) key 3 400
    ≡ (ltb 400 (100 + 60000) && leb 3 (1 + 2))
unfolding is_fresh find? text_eq
attempts_over-failures_example =
    attempts_over-failures key 60000 refl some_attempts 100 (200 ∷ 300 ∷ []) 3 400 refl
      (omega arith, (omega arith, tt))

abbrev headers : ProxyHeaders
headers = record { x_forwarded_for = some (codes "1.2.3.4, 5.6.7.8"); x_real_ip = none }

abbrev ip_key : Text
ip_key = codes "a"

abbrev later : List ℕ
later = 200 ∷ 300 ∷ 400 ∷ 500 ∷ []

abbrev attempted : LoginState
attempted = record {
  throttle = record {
    login_attempts = failures ip_key 60000 (100 ∷ later) some_attempts;
    account_attempts = [];
  };
  db = db;
}

abbrev form : LoginForm
form = record {
  email = codes "o@x.io";
  password = codes "p";
  csrf = codes "ctcsrf_0123456789abcdefghij";
  csrf_cookie = codes "ctcsrf_0123456789abcdefghij";
}

abbrev accepts : LoginForm → Option SignedIn
accepts _ = some (record { needs_two_factor = false; user_id = some owner_id })

own_key : login_throttle_key platform (codes "k") headers ≡ ip_key
unfolding login_throttle_key
own_key = refl

form-csrf : valid_login_csrf form.csrf form.csrf_cookie ≡ true
unfolding includes_text ends_with well_formed constant_time_equal valid_login_csrf
form-csrf = refl

post_login-throttled_example :
    ((post_login host (codes "k") accepts 600 601 env headers form attempted).0 ≡ login_page 429)
    × ((post_login host (codes "k") accepts 600 601 env headers form attempted).1.db ≡ db)
unfolding text_eq any find? update_where set_attempt bumped bump_attempts login_throttle_key
    is_fresh failures
post_login-throttled_example =
    post_login-throttled host (codes "k") accepts 600 601 env headers form attempted some_attempts
      100 later form-csrf refl refl refl
      (omega arith, (omega arith, (omega arith, (omega arith, tt)))) (omega arith) (omega arith)
      (omega arith)

abbrev raw_session : RawSession
raw_session = record {
  created_at = some 1;
  token = codes "t";
  user_id = owner_id;
  role = some (codes "owner");
  status = codes "active";
  must_change_password = false;
}

abbrev session : CurrentSession
session = record {
  token = codes "t";
  user_id = owner_id;
  role = owner;
  status = UserStatus.active;
  must_change_password = false;
}

abbrev request : Request
request = record {
  method = codes "POST";
  path = codes "/api/render";
  origin = some (codes "https://p");
  sec_fetch_site = some (codes "same-origin");
  x_csrf_token = some (codes "a");
  session = some raw_session;
}

request-authorized :
    authorize platform config 1000 (some Permission.ops_render) request ≡ ok session
unfolding any includes_text ends_with well_formed constant_time_equal has_permission
    get_current_session csrf_token_for_session is_safe_method is_csrf_exempt is_untrusted_origin
    is_cross_site csrf_protection require_session require_api_csrf require_fresh_password
    require_permission authorize
request-authorized = refl

authorize-IsAuthorized_example :
    IsAuthorized platform config 1000 (some Permission.ops_render) request session
authorize-IsAuthorized_example =
    authorize-IsAuthorized platform config 1000 (some Permission.ops_render) request session
      request-authorized

backup-resolved : resolve_action admin UserStatus.active (codes "backup") ≡ ok CoreAction.backup
unfolding normalize_domain has_permission resolve_action
backup-resolved = refl

resolve_action-rank_example :
    (is_active UserStatus.active ≡ true) × (action_rank CoreAction.backup ≤ role_rank admin)
resolve_action-rank_example =
    resolve_action-rank admin UserStatus.active (codes "backup") CoreAction.backup backup-resolved

has_permission_mono_example : has_permission admin UserStatus.active Permission.ops_restart ≡ true
unfolding role_rank has_permission role_permissions includes
has_permission_mono_example =
    has_permission_mono operator admin UserStatus.active Permission.ops_restart (omega arith) refl

can_create_role-can_manage_target_example :
    (can_create_role admin operator ≡ can_manage_target admin operator)
    × (can_delete_role admin operator ≡ can_manage_target admin operator)
    × (can_manage_target admin operator ≡ (
        role_eq admin owner || (role_eq admin admin && ltb (role_rank operator) (role_rank admin))))
can_create_role-can_manage_target_example = can_create_role-can_manage_target admin operator
