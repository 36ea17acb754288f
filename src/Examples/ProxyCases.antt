-- ===== src/Examples/ProxyCases.antt =====
-- The theorems on singbox-core/src and packages/config/src at concrete inputs.
use cool_tunnel_server.Security.Validate.{
  normalize_domain, validate_https_url, validate_safe_path, normalize_email,
}
use cool_tunnel_server.Config.LoadLaws.{IsLoaded, load_admin_config-IsLoaded}
use cool_tunnel_server.Config.{AdminConfig, AppEnv}
use cool_tunnel_server.Config.Parse.{
  EnvMap, or_default, env_value, validate_reality_key, require_session_secret, validate_short_ids,
  parse_retention_days, default_admin_db_path,
}
use cool_tunnel_server.Config.Load.{
  Paths, load_admin_config, load_panel, load_urls, load_keys, load_files, load_rest, value,
  default_base,
}
use cool_tunnel_server.Security.Platform.{Platform}
use cool_tunnel_server.Singbox.Overlap.{Reach, overlapping-restarts, restart-completes}
use cool_tunnel_server.Singbox.ModernLaws.{Migrated, migrate_config-AllModern}
use cool_tunnel_server.Singbox.Boot.{Booted, boot, Explains, boot-ends}
use cool_tunnel_server.Singbox.ArgvLaws.{InRange, parse_supervise_args-InRange}
use cool_tunnel_server.Singbox.Argv.{
  parse_supervise_args, parse_flags, supervise_defaults, supervise_flag, lacks_value, integer_value,
}
use cool_tunnel_server.Examples.{platform}
use cool_tunnel_server.Base.Texts.{Text, codes, text_eq}
use cool_tunnel_server.Singbox.Migrate.{migrate_config}
use cool_tunnel_server.Security.Json.{
  Items, Fields, find_field, null, obj, field, arr, cons, str, end, nil,
}
use cool_tunnel_server.Base.{
  ◌+◌, ◌/◌, ◌≡◌, refl, ◌≢◌, inl, inr, true, false, ◌||◌, some, none, List, [], ◌∷◌, arith, ltb,
  if◌then◌else◌,
}
use cool_tunnel_server.Base.Results.{ok}
use cool_tunnel_server.Singbox.Supervise.{
  Tools, Child, Supervisor, notices_change, time_passes, timer_fires, schedule_restart, fire, lives,
}
use cool_tunnel_server.Singbox.SuperviseLaws.{
  CalmReach, here, next, HasOne, IsSupervised, HasPlan, CalmReach-IsSupervised,
}

abbrev legacy_outbounds : Items
legacy_outbounds =
    cons
      (obj (
        field (codes "type") (str (codes "direct"))
          (field (codes "domain_strategy") (str (codes "prefer_ipv4")) end)))
      nil

abbrev legacy : Fields
legacy = field (codes "outbounds") (arr legacy_outbounds) end

migrate_config-AllModern_example : Migrated legacy legacy_outbounds
unfolding find_field text_eq
migrate_config-AllModern_example = migrate_config-AllModern legacy legacy_outbounds refl

abbrev argv : List Text
argv = codes "--healthz-port" ∷ codes "81" ∷ codes "-h" ∷ []

argv-parsed :
    parse_supervise_args argv ≡ ok (record supervise_defaults { healthz_port = 81; help = true })
unfolding parse_supervise_args parse_flags supervise_flag lacks_value integer_value text_eq
argv-parsed = refl

parse_supervise_args-InRange_example :
    InRange (record supervise_defaults { healthz_port = 81; help = true })
parse_supervise_args-InRange_example = parse_supervise_args-InRange argv _ argv-parsed

boot-ends_example :
    (b : Booted) × (boot (λ at. ltb 5000 at) (7000 / 2000 + 2) 100 (100 + 7000) ≡ some b)
    × Explains (λ at. ltb 5000 at) (100 + 7000) b 100
boot-ends_example = boot-ends (λ at. ltb 5000 at) 100 7000

-- Every text is a configuration without outbounds, and passes the check.
abbrev tools : Tools
tools = record { parse_json = λ text. some null; pretty_json = λ value. []; check = λ text. true }

abbrev waiting_for_none : Supervisor
waiting_for_none = record {
  now = 0;
  source = codes "new";
  runtime = [];
  living = record { pid = 7; config = codes "old" } ∷ [];
  next_pid = 8;
  child = some (record { pid = 7; config = codes "old" });
  pending = none;
  waiting = [];
}

overlapping-restarts_example :
    (t : Supervisor) × (first : Child) × (second : Child) × (others : List Child) × Reach tools
      waiting_for_none t
    × (t.living ≡ second ∷ first ∷ others)
    × (first.pid ≢ second.pid)
    × (t.child ≡ some second)
    × (t.waiting ≡ [])
unfolding migrate_config
overlapping-restarts_example =
    overlapping-restarts tools waiting_for_none (record { pid = 7; config = codes "old" }) null null
      refl refl (omega arith) (refl, refl, refl)

supervised : IsSupervised tools waiting_for_none
unfolding HasOne HasPlan
supervised = (inr (_, refl, refl, refl), inl refl)

abbrev noticed : Supervisor
noticed = record (schedule_restart waiting_for_none) { now = 250 }

calm_run : CalmReach tools waiting_for_none (fire tools noticed)
unfolding schedule_restart
calm_run =
    next (next (next here notices_change tt) (time_passes 250) tt)
      (timer_fires 250 refl (omega arith)) refl

CalmReach-IsSupervised_example : IsSupervised tools (fire tools noticed)
CalmReach-IsSupervised_example = CalmReach-IsSupervised tools calm_run supervised

abbrev web : Platform
web = record platform { url_protocol = λ s. some (codes "https:"); to_natural = λ v. ok (some 100) }

abbrev paths : Paths
paths = record { origin = λ s. s; resolve = λ s. s }

abbrev key_text : Text
key_text = codes "BBBBBBBBBBBBBBBBBBBBBBBBBBBBBBBBBBBBBBBBBBB"

abbrev variables : EnvMap
variables key =
    if text_eq key (codes "BETTER_AUTH_SECRET") || text_eq key (codes "REALITY_PRIVATE_KEY")
    then some key_text
    else if text_eq key (codes "REALITY_PUBLIC_KEY")
    then some key_text
    else none

abbrev loaded : AdminConfig
loaded = record {
  app_env = AppEnv.production;
  host = codes "127.0.0.1";
  port = 100;
  panel_domain = codes "panel.localhost.localdomain";
  domain = codes "localhost.localdomain";
  base_url = codes "https://panel.localhost.localdomain";
  trusted_origins =
      codes "https://panel.localhost.localdomain"
      ∷ codes "https://panel.localhost.localdomain"
      ∷ [];
  auth_secret = key_text;
  db_path = codes "./data/admin/admin.sqlite";
  public_signup = false;
  secure_cookies = true;
  bootstrap_token_ttl_minutes = 100;
  caddyfile_path = codes "/etc/caddy/Caddyfile";
  caddyfile_template = codes "/srv/caddy/Caddyfile.tpl";
  singbox_config_path = codes "/data/config/singbox.json";
  manifests_dir = codes "/srv/manifests";
  acme_email = codes "admin@example.com";
  acme_directory = codes "https://acme-v02.api.letsencrypt.org/directory";
  reality_private_key = key_text;
  reality_public_key = key_text;
  reality_dest_host = codes "www.microsoft.com";
  reality_short_ids = [] ∷ [];
  landing_page_enabled = false;
  anti_tracking_doh_resolver = codes "https://dns.alidns.com/dns-query";
  version = codes "0.6.4";
  redis_url = codes "redis://redis:6379";
  audit_retention_days = 90;
}

config-loaded : load_admin_config web paths variables ≡ ok loaded
unfolding load_admin_config load_panel load_urls load_keys load_files load_rest value or_default
    env_value text_eq normalize_domain validate_https_url validate_reality_key
    require_session_secret validate_safe_path normalize_email validate_short_ids
    parse_retention_days default_base default_admin_db_path
config-loaded = refl

load_admin_config-IsLoaded_example : IsLoaded web loaded
load_admin_config-IsLoaded_example =
    load_admin_config-IsLoaded web paths variables loaded config-loaded

restart-completes_example :
    (t : Supervisor) × (new : Child) × Reach tools (schedule_restart waiting_for_none) t
    × (t.child ≡ some new)
    × (lives new t ≡ true)
    × (new.config ≡ codes "new")
    × (new.pid ≡ waiting_for_none.next_pid)
    × (lives (record { pid = 7; config = codes "old" }) t ≡ false)
    × (t.waiting ≡ [])
    × (t.pending ≡ none)
unfolding migrate_config
restart-completes_example =
    restart-completes tools waiting_for_none (record { pid = 7; config = codes "old" }) null null
      refl refl (omega arith) (refl, refl, refl)
