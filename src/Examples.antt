-- ===== src/Examples.antt =====
-- The theorems at concrete inputs: a runtime, a database and requests to evaluate the model on.
mod StoreCases
mod UserCases
mod PublicCases
mod ApiCases
mod SecurityCases
mod EventCases
mod ProxyCases
use cool_tunnel_server.Base.{◌+◌, ◌-◌, true, false, some, none, [], ◌∷◌, map}
use cool_tunnel_server.Base.Texts.{Text, codes, text_eq}
use cool_tunnel_server.Base.Results.{ok}
use cool_tunnel_server.Security.Platform.{Platform}
use cool_tunnel_server.Shared.Roles.{owner, viewer, AdminRole, UserStatus, vless_reality}
use cool_tunnel_server.Store.Db.{Db, AdminUser, ProxyRow, Session, BootstrapToken}
use cool_tunnel_server.Config.{AdminConfig, AppEnv}
use cool_tunnel_server.Store.Monad.{Env, Host}
use cool_tunnel_server.Store.Users.{Actor, UpdateUserInput}
use cool_tunnel_server.Store.NewUser.{CreateUserInput}

-- Digests are one digit; base64 moves each character up by 200.
abbrev platform : Platform
platform = record {
  lower = λ s. s;
  parse_date = λ s. none;
  url_protocol = λ s. none;
  hmac_hex = λ key message. codes "a";
  to_base64url = map λ c. c + 200;
  of_base64 = map λ c. c - 200;
  unix_seconds = λ at. at;
  number_text = λ n. n ∷ [];
  json_text = λ v. [];
  to_text = λ v. ok (codes "value");
  to_natural = λ v. ok (some 2000);
  is_zero = λ s. text_eq s (codes "0");
  replace_all = λ search replacement s. s;
}

abbrev host : Host
host = record { platform = platform; redact = λ s. s; skipped_ids = λ n. 0; config = none }

abbrev env : Env
env = record {
  ts = 1000;
  clock = 1000;
  audit_at = 1000;
  random_id = codes "new-user-1";
  account_id = codes "account-1";
  uuid = codes "uuid-1";
  random_token = codes "token-1";
}

abbrev owner_id : Text
owner_id = codes "owner-id"

abbrev viewer_id : Text
viewer_id = codes "viewer-id"

abbrev row : Text → Text → Text → AdminRole → AdminUser
row id email username role = record {
  id = id;
  email = email;
  username = username;
  name = codes "Name";
  role = role;
  status = UserStatus.active;
  must_change_password = false;
  two_factor_enabled = false;
  created_at = 1;
  updated_at = 1;
  last_login_at = none;
  disabled_at = none;
}

abbrev owner_row : AdminUser
owner_row = row owner_id (codes "o@x.io") (codes "owner") owner

abbrev viewer_row : AdminUser
viewer_row = row viewer_id (codes "v@x.io") (codes "viewer") viewer

abbrev viewer_session : Session
viewer_session = record {
  id = codes "s1";
  token = codes "t1";
  user_id = viewer_id;
  created_at = 1;
  expires_at = 9999;
}

abbrev proxy_id : Text
proxy_id = codes "proxy-id"

abbrev proxy_row : ProxyRow
proxy_row = record {
  id = proxy_id;
  username = codes "phone";
  uuid = codes "u";
  previous_uuid = none;
  previous_uuid_valid_until = none;
  subscription_secret = some (codes "s");
  label = none;
  enabled = true;
  client_default_local_port = 1080;
  enabled_protocols = vless_reality ∷ [];
  expires_at = none;
  last_seen_at = none;
  created_at = 1;
  updated_at = 1;
}

abbrev good_token : BootstrapToken
good_token = record {
  id = codes "b";
  token_hash = codes "h";
  expires_at = 5000;
  used_at = none;
  created_at = 1;
}

-- Nothing but a bootstrap token.
abbrev empty_db : Db
empty_db = record {
  users = [];
  sessions = [];
  accounts = [];
  bootstrap_tokens = good_token ∷ [];
  audit_log = [];
  next_audit_id = 1;
  proxy_accounts = [];
  server_config = none;
}

-- An owner, and a viewer who is signed in.
abbrev db : Db
db = record empty_db {
  users = owner_row ∷ viewer_row ∷ [];
  sessions = viewer_session ∷ [];
  proxy_accounts = proxy_row ∷ [];
}

abbrev the_owner : Actor
the_owner = record { id = owner_id; role = owner }

abbrev no_change : UpdateUserInput
no_change = record {
  email = none;
  username = none;
  name = none;
  role = none;
  status = none;
  must_change_password = none;
}

abbrev demotion : UpdateUserInput
demotion = record no_change { role = some viewer }

abbrev disabling : UpdateUserInput
disabling = record no_change { status = some UserStatus.disabled }

abbrev first_input : CreateUserInput
first_input = record {
  email = codes "a@x.io";
  username = codes "first";
  name = codes "First";
  password_hash = codes "p";
  role = owner;
  must_change_password = none;
}

abbrev config : AdminConfig
config = record {
  app_env = AppEnv.production;
  host = codes "0.0.0.0";
  port = 9000;
  panel_domain = codes "p";
  domain = codes "d";
  base_url = codes "https://p";
  trusted_origins = codes "https://p" ∷ [];
  auth_secret = codes "k";
  db_path = codes "/db";
  public_signup = false;
  secure_cookies = true;
  bootstrap_token_ttl_minutes = 60;
  caddyfile_path = [];
  caddyfile_template = [];
  singbox_config_path = [];
  manifests_dir = [];
  acme_email = codes "o@x.io";
  acme_directory = [];
  reality_private_key = codes "r";
  reality_public_key = codes "r";
  reality_dest_host = codes "r";
  reality_short_ids = [];
  landing_page_enabled = true;
  anti_tracking_doh_resolver = [];
  version = [];
  redis_url = [];
  audit_retention_days = 90;
}
