-- ===== src/Config.antt =====
-- packages/config/src/index.ts: the configuration of the admin API.
pub mod Parse
pub mod Load
pub mod LoadLaws
use cool_tunnel_server.Base.{ℕ, Bool, List}
use cool_tunnel_server.Base.Texts.{Text}

pub data AppEnv : Type 0 where
  production development test : AppEnv

pub record AdminConfig : Type 0 where
  pub app_env : AppEnv
  pub host : Text
  pub port : ℕ
  pub panel_domain : Text
  pub domain : Text
  pub base_url : Text
  pub trusted_origins : List Text
  pub auth_secret : Text
  pub db_path : Text
  pub public_signup : Bool
  pub secure_cookies : Bool
  pub bootstrap_token_ttl_minutes : ℕ
  pub caddyfile_path : Text
  pub caddyfile_template : Text
  pub singbox_config_path : Text
  pub manifests_dir : Text
  pub acme_email : Text
  pub acme_directory : Text
  pub reality_private_key : Text
  pub reality_public_key : Text
  pub reality_dest_host : Text
  pub reality_short_ids : List Text
  pub landing_page_enabled : Bool
  pub anti_tracking_doh_resolver : Text
  pub version : Text
  pub redis_url : Text
  pub audit_retention_days : ℕ
