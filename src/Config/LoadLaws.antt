-- ===== src/Config/LoadLaws.antt =====
-- packages/config/src/index.ts: what a configuration that loads is like.
use cool_tunnel_server.Security.Texts.{trim}
use cool_tunnel_server.Security.Validate.{validate_https_url}
use cool_tunnel_server.Config.Load.{
  Paths, load_admin_config, check_keys, load_panel, check_base_url, load_urls, load_keys, Panel,
  is_production, value, placeholder_reality_key,
}
use cool_tunnel_server.Base.Texts.{Text, codes, length, text_eq}
use cool_tunnel_server.Security.Platform.{Platform}
use cool_tunnel_server.Config.Parse.{
  bounded_number, EnvMap, require_session_secret, parse_port, env_value, validate_reality_key,
  is_reality_key, or_default,
}
use cool_tunnel_server.Base.{
  ℕ, ◌≤◌, ◌≡◌, subst, inl, inr, Bool, true, false, not, ◌&&◌, ◌||◌, arith,
}
use cool_tunnel_server.Base.Results.{ok, Result-cases}
use cool_tunnel_server.Config.{AppEnv, AdminConfig}

bounded_number-bounds :
    (platform : Platform) (min max : ℕ) (text : Text) (n : ℕ)
    → bounded_number platform min max text ≡ ok n
    → (min ≤ n) × (n ≤ max)
unfolding bounded_number
bounded_number-bounds platform min max text n e = ground arith

-- What the checks of `loadAdminConfig` leave.
pub record IsLoaded (platform : Platform) (config : AdminConfig) : Type 0 where
  pub port : (1 ≤ config.port) × (config.port ≤ 65535)
  pub ttl : (1 ≤ config.bootstrap_token_ttl_minutes) × (config.bootstrap_token_ttl_minutes ≤ 120)
  pub secret : 32 ≤ length config.auth_secret
  pub secure : (is_production config.app_env && not config.secure_cookies) ≡ false
  pub https :
      (validate_https_url platform config.acme_directory ≡ true)
      × (validate_https_url platform config.anti_tracking_doh_resolver ≡ true)
  pub keys :
      (is_reality_key config.reality_private_key ≡ true)
      × (is_reality_key config.reality_public_key ≡ true)
  pub generated_keys :
      (is_production config.app_env
        && (text_eq config.reality_private_key placeholder_reality_key
            || text_eq config.reality_public_key placeholder_reality_key))
      ≡ false

validate_reality_key-ok :
    (value key : Text) → validate_reality_key value ≡ ok key → is_reality_key key ≡ true
unfolding validate_reality_key
validate_reality_key-ok value key e = ground arith

require_session_secret-ok :
    (env : EnvMap) (secret : Text) → require_session_secret env ≡ ok secret → 32 ≤ length secret
unfolding require_session_secret
require_session_secret-ok env secret e = ground arith

module _ (platform : Platform) (paths : Paths) where
  load_panel-ok :
      (env : EnvMap) (panel : Panel)
      → load_panel platform paths env ≡ ok panel
      → (bounded_number platform 1 65535
            (or_default (trim (env_value env (codes "CT_ADMIN_PORT"))) (codes "9000"))
          ≡ ok panel.port)
        × (check_base_url platform paths panel.app_env panel.base_url panel.secure_cookies ≡ ok tt)
  unfolding load_panel parse_port
  load_panel-ok env panel e = ground arith

  check_base_url-ok :
      (app_env : AppEnv) (base_url : Text) (secure : Bool)
      → check_base_url platform paths app_env base_url secure ≡ ok tt
      → (is_production app_env && not secure) ≡ false
  unfolding check_base_url
  check_base_url-ok app_env base_url secure e = ground arith

  check_keys-ok :
      (app_env : AppEnv) (private_key public_key : Text)
      → check_keys platform paths app_env private_key public_key ≡ ok tt
      → (is_production app_env
          && (text_eq private_key placeholder_reality_key
              || text_eq public_key placeholder_reality_key))
        ≡ false
  unfolding check_keys
  check_keys-ok app_env private_key public_key e = ground arith

  load_urls-ok :
      (env : EnvMap) (ttl : ℕ) (acme doh : Text)
      → load_urls platform paths env ≡ ok (ttl, acme, doh)
      → (bounded_number platform 1 120
            (value platform paths env (codes "CT_ADMIN_BOOTSTRAP_TOKEN_TTL_MINUTES") (codes "15"))
          ≡ ok ttl)
        × (validate_https_url platform acme ≡ true)
        × (validate_https_url platform doh ≡ true)
  unfolding load_urls
  load_urls-ok env ttl acme doh e = ground arith

  load_keys-ok :
      (app_env : AppEnv) (env : EnvMap) (private_key public_key : Text)
      → load_keys platform paths app_env env ≡ ok (private_key, public_key)
      → (validate_reality_key
            (value platform paths env (codes "REALITY_PRIVATE_KEY") placeholder_reality_key)
          ≡ ok private_key)
        × (validate_reality_key
              (value platform paths env (codes "REALITY_PUBLIC_KEY") placeholder_reality_key)
            ≡ ok public_key)
        × (check_keys platform paths app_env private_key public_key ≡ ok tt)
  unfolding load_keys
  load_keys-ok app_env env private_key public_key e = ground arith

  load-stages :
      (env : EnvMap) (config : AdminConfig)
      → load_admin_config platform paths env ≡ ok config
      → (panel : Panel) × (load_panel platform paths env ≡ ok panel)
        × (panel.app_env ≡ config.app_env)
        × (panel.port ≡ config.port)
        × (panel.secure_cookies ≡ config.secure_cookies)
        × (load_urls platform paths env
            ≡ ok (
              config.bootstrap_token_ttl_minutes, config.acme_directory,
              config.anti_tracking_doh_resolver,
            ))
        × (load_keys platform paths config.app_env env
            ≡ ok (config.reality_private_key, config.reality_public_key))
        × (require_session_secret env ≡ ok config.auth_secret)
  unfolding load_admin_config
  load-stages env config e = elim (Result-cases (load_panel platform paths env)) [
    | inr (fault, k) ↦ absurd (ground (arith, k))
    | inl (panel, k) ↦ (
      panel,
      k,
      ground (arith, k),
      ground (arith, k),
      ground (arith, k),
      ground (arith, k),
      ground (arith, k),
      ground (arith, k),
    )
  ]

  -- A configuration that loads has a port from 1 to 65535, bootstrap tokens that live 1 to 120
  -- minutes, a secret of 32 characters at least, https URLs for ACME and DNS, and Reality keys of 43
  -- base64url characters. In production its cookies are secure and neither key is the placeholder.
  pub load_admin_config-IsLoaded :
      (env : EnvMap) (config : AdminConfig)
      → load_admin_config platform paths env ≡ ok config
      → IsLoaded platform config
  load_admin_config-IsLoaded env config e =
      let (panel, loaded, app_env, port, secure, urls, keys, secret) = load-stages env config e in
      let (is_port, checked) = load_panel-ok env panel loaded in
      let (is_ttl, acme, doh) = load_urls-ok env _ _ _ urls in
      let (private_key, public_key, generated) = load_keys-ok config.app_env env _ _ keys in
      record {
        port =
            subst (λ n. (1 ≤ n) × (n ≤ 65535)) port
              (bounded_number-bounds platform 1 65535 _ panel.port is_port);
        ttl = bounded_number-bounds platform 1 120 _ config.bootstrap_token_ttl_minutes is_ttl;
        secret = require_session_secret-ok env config.auth_secret secret;
        secure =
            subst (λ b. (is_production config.app_env && not b) ≡ false) secure
              (subst (λ a. (is_production a && not panel.secure_cookies) ≡ false) app_env
                (check_base_url-ok panel.app_env panel.base_url panel.secure_cookies checked));
        https = (acme, doh);
        keys = (validate_reality_key-ok _ _ private_key, validate_reality_key-ok _ _ public_key);
        generated_keys = check_keys-ok config.app_env _ _ generated;
      }
