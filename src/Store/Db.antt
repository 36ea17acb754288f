-- ===== src/Store/Db.antt =====
-- packages/db/src/migrations.ts: the tables as typed rows, and the state of the database.
use cool_tunnel_server.Base.{ℕ, Bool, Option, List}
use cool_tunnel_server.Base.Texts.{Text}
use cool_tunnel_server.Security.Json.{Json}
use cool_tunnel_server.Shared.Roles.{AdminRole, UserStatus, ProtocolKey}

-- `user`; `role` and `status` are confined by the CHECK constraints. `emailVerified` and `image`
-- are written as constants and read by nothing.
pub record AdminUser : Type 0 where
  pub id : Text
  pub email : Text
  pub username : Text
  pub name : Text
  pub role : AdminRole
  pub status : UserStatus
  pub must_change_password : Bool
  pub two_factor_enabled : Bool
  pub created_at : ℕ
  pub updated_at : ℕ
  pub last_login_at : Option ℕ
  pub disabled_at : Option ℕ

-- `session`
pub record Session : Type 0 where
  pub id : Text
  pub token : Text
  pub user_id : Text
  pub created_at : ℕ
  pub expires_at : ℕ

-- `account`: a way to sign in.
pub record Account : Type 0 where
  pub id : Text
  pub account_id : Text
  pub provider_id : Text
  pub user_id : Text
  pub password : Option Text
  pub created_at : ℕ
  pub updated_at : ℕ

-- `bootstrap_token`
pub record BootstrapToken : Type 0 where
  pub id : Text
  pub token_hash : Text
  pub expires_at : ℕ
  pub used_at : Option ℕ
  pub created_at : ℕ

-- `audit_log`; `detail` is the value whose JSON text the column holds.
pub record AuditEntry : Type 0 where
  pub id : ℕ
  pub action : Text
  pub actor_user_id : Option Text
  pub target_type : Option Text
  pub target_id : Option Text
  pub detail : Json
  pub created_at : ℕ

-- `proxy_account`
pub record ProxyRow : Type 0 where
  pub id : Text
  pub username : Text
  pub uuid : Text
  pub previous_uuid : Option Text
  pub previous_uuid_valid_until : Option ℕ
  pub subscription_secret : Option Text
  pub label : Option Text
  pub enabled : Bool
  pub client_default_local_port : ℕ
  pub enabled_protocols : List ProtocolKey
  pub expires_at : Option ℕ
  pub last_seen_at : Option ℕ
  pub created_at : ℕ
  pub updated_at : ℕ

-- `server_config`, the row with id 1.
pub record ServerConfig : Type 0 where
  pub domain : Text
  pub panel_domain : Text
  pub acme_email : Text
  pub acme_directory : Text
  pub anti_tracking_hide_ip : Bool
  pub anti_tracking_hide_via : Bool
  pub anti_tracking_probe_resistance : Bool
  pub anti_tracking_doh_resolver : Text
  pub http3_enabled : Bool
  pub reality_private_key : Text
  pub reality_public_key : Text
  pub reality_dest_host : Text
  -- The list whose JSON text the column holds; `none` is the empty text.
  pub reality_short_ids : Option (List Text)
  pub last_caddyfile_hash : Option Text
  pub last_rendered_at : Option ℕ
  pub created_at : ℕ
  pub updated_at : ℕ

pub record Db : Type 0 where
  pub users : List AdminUser
  pub sessions : List Session
  pub accounts : List Account
  pub bootstrap_tokens : List BootstrapToken
  pub audit_log : List AuditEntry
  -- The AUTOINCREMENT counter of `audit_log`: above every number that it has given.
  pub next_audit_id : ℕ
  pub proxy_accounts : List ProxyRow
  pub server_config : Option ServerConfig
