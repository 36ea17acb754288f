-- ===== src/Config/Load.antt =====
-- packages/config/src/index.ts: `loadAdminConfig`, but for the directory that it makes.
use cool_tunnel_server.Security.Validate.{
  normalize_domain, validate_https_url, validate_safe_path, normalize_email,
}
use cool_tunnel_server.Config.Parse.{
  EnvMap, parse_bool, or_default, parse_port, env_value, parse_app_env, bounded_number,
  validate_reality_key, require_session_secret, validate_short_ids, parse_retention_days,
  default_admin_db_path,
}
use cool_tunnel_server.Security.Platform.{Platform}
use cool_tunnel_server.Config.{AppEnv, AdminConfig, production}
use cool_tunnel_server.Base.Texts.{Text, codes, text_eq}
use cool_tunnel_server.Base.{
  ℕ, Bool, true, false, not, ◌&&◌, ◌||◌, some, none, List, [], ◌∷◌, ◌++◌, if◌then◌else◌,
}
use cool_tunnel_server.Base.Results.{Result, ok, throw, ◌>>=◌, ◌>>◌, throw_if, plain}

-- `new URL(text).origin`, where the constructor does not throw, and `path.resolve`.
pub record Paths : Type 0 where
  pub origin : Text → Text
  pub resolve : Text → Text

abbrev pub is_production : AppEnv → Bool
is_production production = true
is_production _ = false

abbrev pub placeholder_reality_key : Text
placeholder_reality_key = codes "AAAAAAAAAAAAAAAAAAAAAAAAAAAAAAAAAAAAAAAAAAA"

-- The last of the trusted origins, empty and so left out in production.
abbrev local_origins : AppEnv → Text → List Text
local_origins production origin = []
local_origins _ origin = origin ∷ []

-- What the first part of `loadAdminConfig` has found.
pub record Panel : Type 0 where
  pub app_env : AppEnv
  pub port : ℕ
  pub domain : Text
  pub panel_domain : Text
  pub base_url : Text
  pub secure_cookies : Bool

-- What the last part has found.
pub record Rest : Type 0 where
  pub acme_email : Text
  pub reality_dest_host : Text
  pub reality_short_ids : List Text
  pub landing_page_enabled : Bool
  pub audit_retention_days : ℕ

module _ (platform : Platform) (paths : Paths) where
  -- The checks on the URL of the panel and its cookies.
  unfoldable pub check_base_url : AppEnv → Text → Bool → Result (Unit {0})
  check_base_url app_env base_url secure_cookies = elim (platform.url_protocol base_url) [
    | none ↦ throw plain
    | some protocol ↦
        throw_if
          (is_production app_env && (not secure_cookies || not (text_eq protocol (codes "https:"))))
          plain
  ]

  -- `envValue(env, key) || fallback`
  unfoldable pub value : EnvMap → Text → Text → Text
  unfolding or_default env_value
  value env key fallback = or_default (env_value env key) fallback

  abbrev local_origin : ℕ → Text
  local_origin port = codes "http://localhost:" ++ platform.number_text port

  -- `defaultBase`
  unfoldable pub default_base : AppEnv → ℕ → Text → Text
  default_base app_env port panel_domain =
      if is_production app_env then codes "https://" ++ panel_domain else local_origin port

  -- A placeholder for a key is let through outside production only.
  unfoldable pub check_keys : AppEnv → Text → Text → Result (Unit {0})
  check_keys app_env private_key public_key =
      throw_if
        (is_production app_env
          && (text_eq private_key placeholder_reality_key
              || text_eq public_key placeholder_reality_key))
        plain

  -- The environment, the port, the domains, the URL of the panel and its cookies.
  unfoldable pub load_panel : EnvMap → Result Panel
  unfolding check_base_url parse_bool parse_port parse_app_env
  load_panel env = do
    app_env ←
        parse_app_env platform (value env (codes "CT_ADMIN_ENV") (env_value env (codes "APP_ENV")))
    port ← parse_port platform (env_value env (codes "CT_ADMIN_PORT"))
    domain ← normalize_domain platform (value env (codes "DOMAIN") (codes "localhost.localdomain"))
    panel_domain ←
        normalize_domain platform (value env (codes "PANEL_DOMAIN") (codes "panel." ++ domain))
    let base_url =
        value env (codes "BETTER_AUTH_URL")
          (value env (codes "APP_URL") (default_base app_env port panel_domain))
    secure_cookies ←
        parse_bool platform (env_value env (codes "CT_ADMIN_SECURE_COOKIES"))
          (is_production app_env)
    check_base_url app_env base_url secure_cookies
    ok (record {
      app_env = app_env;
      port = port;
      domain = domain;
      panel_domain = panel_domain;
      base_url = base_url;
      secure_cookies = secure_cookies;
    })

  -- The lifetime of bootstrap tokens, and the two URLs.
  unfoldable pub load_urls : EnvMap → Result (ℕ × Text × Text)
  load_urls env = do
    ttl ←
        bounded_number platform 1 120
          (value env (codes "CT_ADMIN_BOOTSTRAP_TOKEN_TTL_MINUTES") (codes "15"))
    let acme_directory =
        value env (codes "ACME_DIRECTORY") (codes "https://acme-v02.api.letsencrypt.org/directory")
    throw_if (not (validate_https_url platform acme_directory)) plain
    let doh_resolver =
        value env (codes "ANTI_TRACKING_DOH_RESOLVER") (codes "https://dns.alidns.com/dns-query")
    throw_if (not (validate_https_url platform doh_resolver)) plain
    ok (ttl, acme_directory, doh_resolver)

  -- The private and the public key.
  unfoldable pub load_keys : AppEnv → EnvMap → Result (Text × Text)
  unfolding check_keys
  load_keys app_env env = do
    private_key ←
        validate_reality_key (value env (codes "REALITY_PRIVATE_KEY") placeholder_reality_key)
    public_key ←
        validate_reality_key (value env (codes "REALITY_PUBLIC_KEY") placeholder_reality_key)
    check_keys app_env private_key public_key
    ok (private_key, public_key)

  unfoldable pub load_files : EnvMap → Result (Text × Text × Text × Text)
  load_files env = do
    caddyfile_path ←
        validate_safe_path (value env (codes "CADDYFILE_PATH") (codes "/etc/caddy/Caddyfile"))
    caddyfile_template ←
        validate_safe_path
          (value env (codes "CADDYFILE_TEMPLATE") (codes "/srv/caddy/Caddyfile.tpl"))
    singbox_config_path ←
        validate_safe_path
          (value env (codes "SINGBOX_CONFIG_PATH") (codes "/data/config/singbox.json"))
    manifests_dir ←
        validate_safe_path (value env (codes "CT_MANIFESTS_DIR") (codes "/srv/manifests"))
    ok (caddyfile_path, caddyfile_template, singbox_config_path, manifests_dir)

  -- The fields behind the files.
  unfoldable pub load_rest : EnvMap → Result Rest
  load_rest env = do
    acme_email ←
        normalize_email platform (value env (codes "ACME_EMAIL") (codes "admin@example.com"))
    reality_dest_host ←
        normalize_domain platform
          (value env (codes "REALITY_DEST_HOST") (codes "www.microsoft.com"))
    short_ids ← validate_short_ids (env_value env (codes "REALITY_SHORT_IDS"))
    landing_page ← parse_bool platform (env_value env (codes "CT_LANDING_PAGE")) false
    retention_days ← parse_retention_days platform (env_value env (codes "CT_AUDIT_RETENTION_DAYS"))
    ok (record {
      acme_email = acme_email;
      reality_dest_host = reality_dest_host;
      reality_short_ids = short_ids;
      landing_page_enabled = landing_page;
      audit_retention_days = retention_days;
    })

  unfoldable pub load_admin_config : EnvMap → Result AdminConfig
  unfolding load_panel load_urls load_keys load_files load_rest
  load_admin_config env = do
    panel ← load_panel env
    (ttl, acme_directory, doh_resolver) ← load_urls env
    (private_key, public_key) ← load_keys panel.app_env env
    secret ← require_session_secret env
    public_signup ← parse_bool platform (env_value env (codes "CT_PUBLIC_SIGNUP")) false
    (caddyfile_path, caddyfile_template, singbox_config_path, manifests_dir) ← load_files env
    rest ← load_rest env
    ok (record {
      app_env = panel.app_env;
      host = value env (codes "CT_ADMIN_HOST") (codes "127.0.0.1");
      port = panel.port;
      panel_domain = panel.panel_domain;
      domain = panel.domain;
      base_url = paths.origin panel.base_url;
      trusted_origins =
          paths.origin panel.base_url
          ∷ (codes "https://" ++ panel.panel_domain)
          ∷ local_origins panel.app_env (local_origin panel.port);
      auth_secret = secret;
      db_path = paths.resolve (default_admin_db_path platform env);
      public_signup = public_signup;
      secure_cookies = panel.secure_cookies;
      bootstrap_token_ttl_minutes = ttl;
      caddyfile_path = caddyfile_path;
      caddyfile_template = caddyfile_template;
      singbox_config_path = singbox_config_path;
      manifests_dir = manifests_dir;
      acme_email = rest.acme_email;
      acme_directory = acme_directory;
      reality_private_key = private_key;
      reality_public_key = public_key;
      reality_dest_host = rest.reality_dest_host;
      reality_short_ids = rest.reality_short_ids;
      landing_page_enabled = rest.landing_page_enabled;
      anti_tracking_doh_resolver = doh_resolver;
      version = codes "0.6.4";
      redis_url = value env (codes "CT_REDIS_URL") (codes "redis://redis:6379");
      audit_retention_days = rest.audit_retention_days;
    })
