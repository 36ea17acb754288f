-- ===== src/Store/Settings.antt =====
-- packages/db/src/store.ts: the server settings.
use cool_tunnel_server.Security.Validate.{normalize_domain, normalize_email, validate_https_url}
use cool_tunnel_server.Store.Users.{or_current}
use cool_tunnel_server.Store.Monad.{Host}
use cool_tunnel_server.Base.Results.{
  ◌>>=◌, ◌>>◌, throw_if, Result, ok, throw, store_error, invalid_settings, invalid_acme_directory,
  invalid_doh_resolver,
}
use cool_tunnel_server.Base.{
  Option, Bool, false, if◌then◌else◌, ℕ, List, [], ◌∷◌, true, some, none, not,
}
use cool_tunnel_server.Config.{AdminConfig}
use cool_tunnel_server.Store.Db.{ServerConfig, Db}
use cool_tunnel_server.Base.Texts.{Text, is_empty}

-- `ServerSettings`: what `rowToSettings` shows of the row.
pub record ServerSettings : Type 0 where
  pub domain : Text
  pub panel_domain : Text
  pub acme_email : Text
  pub acme_directory : Text
  pub anti_tracking_hide_ip : Bool
  pub anti_tracking_hide_via : Bool
  pub anti_tracking_probe_resistance : Bool
  pub anti_tracking_doh_resolver : Text
  pub http3_enabled : Bool
  pub reality_public_key : Text
  pub reality_dest_host : Text
  pub reality_short_ids : List Text
  pub last_caddyfile_hash : Option Text
  pub last_rendered_at : Option ℕ
  pub updated_at : ℕ

-- `normalizeJsonStringList` of the column.
abbrev pub short_ids_of_row : ServerConfig → List Text
short_ids_of_row row = elim row.reality_short_ids [ none ↦ [] ∷ [] | some ids ↦ ids ]

unfoldable pub row_to_settings : ServerConfig → ServerSettings
row_to_settings row = record {
  domain = row.domain;
  panel_domain = row.panel_domain;
  acme_email = row.acme_email;
  acme_directory = row.acme_directory;
  anti_tracking_hide_ip = row.anti_tracking_hide_ip;
  anti_tracking_hide_via = row.anti_tracking_hide_via;
  anti_tracking_probe_resistance = row.anti_tracking_probe_resistance;
  anti_tracking_doh_resolver = row.anti_tracking_doh_resolver;
  http3_enabled = false;
  reality_public_key = row.reality_public_key;
  reality_dest_host = row.reality_dest_host;
  reality_short_ids = short_ids_of_row row;
  last_caddyfile_hash = row.last_caddyfile_hash;
  last_rendered_at = row.last_rendered_at;
  updated_at = row.updated_at;
}

-- `COALESCE(NULLIF(old, ''), new)`
abbrev pub unless_empty : Text → Text → Text
unless_empty old new = if is_empty old then new else old

abbrev pub default_row : AdminConfig → ℕ → ServerConfig
default_row config now = record {
  domain = config.domain;
  panel_domain = config.panel_domain;
  acme_email = config.acme_email;
  acme_directory = config.acme_directory;
  anti_tracking_hide_ip = true;
  anti_tracking_hide_via = true;
  anti_tracking_probe_resistance = true;
  anti_tracking_doh_resolver = config.anti_tracking_doh_resolver;
  http3_enabled = false;
  reality_private_key = config.reality_private_key;
  reality_public_key = config.reality_public_key;
  reality_dest_host = config.reality_dest_host;
  reality_short_ids = some config.reality_short_ids;
  last_caddyfile_hash = none;
  last_rendered_at = none;
  created_at = now;
  updated_at = now;
}

-- `COALESCE(NULLIF(old, ''), new)` on the short IDs; the JSON text of a list is never empty.
abbrev pub ids_unless_empty : Option (List Text) → List Text → Option (List Text)
ids_unless_empty none new = some new
ids_unless_empty (some ids) new = some ids

-- `ON CONFLICT(id) DO UPDATE`
abbrev pub refreshed_row : AdminConfig → ℕ → ServerConfig → ServerConfig
refreshed_row config now row = record row {
  domain = config.domain;
  panel_domain = config.panel_domain;
  acme_email = config.acme_email;
  acme_directory = config.acme_directory;
  anti_tracking_doh_resolver = config.anti_tracking_doh_resolver;
  reality_private_key = unless_empty row.reality_private_key config.reality_private_key;
  reality_public_key = unless_empty row.reality_public_key config.reality_public_key;
  reality_dest_host = unless_empty row.reality_dest_host config.reality_dest_host;
  reality_short_ids = ids_unless_empty row.reality_short_ids config.reality_short_ids;
  updated_at = now;
}

unfoldable pub upsert_row : AdminConfig → ℕ → Option ServerConfig → ServerConfig
upsert_row config now none = default_row config now
upsert_row config now (some row) = refreshed_row config now row

-- `ensureDefaults`
unfoldable pub ensure_defaults : AdminConfig → ℕ → Db → Db
unfolding upsert_row
ensure_defaults config now db = record db {
  server_config = some (upsert_row config now db.server_config);
}

-- The UPDATE of `renderCaddyfile` (apps/api/src/core-boundary.ts).
unfoldable pub record_render : Text → ℕ → ℕ → Db → Db
record_render hash at updated db = record db {
  server_config = elim db.server_config [
    | none ↦ none
    | some row ↦ some (record row {
      last_caddyfile_hash = some hash;
      last_rendered_at = some at;
      updated_at = updated;
    })
  ];
}

pub record SettingsInput : Type 0 where
  pub domain : Option Text
  pub panel_domain : Option Text
  pub acme_email : Option Text
  pub acme_directory : Option Text
  pub anti_tracking_hide_ip : Option Bool
  pub anti_tracking_hide_via : Option Bool
  pub anti_tracking_probe_resistance : Option Bool
  pub anti_tracking_doh_resolver : Option Text
  pub reality_dest_host : Option Text
  pub reality_short_ids : Option (List Text)

-- The handler of the `try` block: what a normalising function throws becomes `invalid_settings`.
abbrev pub as_invalid_settings : {A : Type 0} → Result A → Result A
as_invalid_settings (ok a) = ok a
as_invalid_settings (throw e) = throw (store_error invalid_settings 400)

abbrev pub given_or {ℓ} : {A : Type ℓ} → Option A → (A → Result A) → A → Result A
given_or none f current = ok current
given_or (some given) f current = f given

module _ (host : Host) where
  -- The values of the `try` block.
  unfoldable pub normalized_texts :
      SettingsInput → ServerConfig → Result (Text × Text × Text × Text)
  normalized_texts input row = do
    domain ← given_or input.domain (normalize_domain host.platform) row.domain
    panel_domain ← given_or input.panel_domain (normalize_domain host.platform) row.panel_domain
    acme_email ← given_or input.acme_email (normalize_email host.platform) row.acme_email
    reality_dest_host ←
        given_or input.reality_dest_host (normalize_domain host.platform) row.reality_dest_host
    ok (domain, panel_domain, acme_email, reality_dest_host)

  -- The UPDATE's row, or what `updateSettings` throws before it.
  unfoldable pub next_settings : SettingsInput → ℕ → ServerConfig → Result ServerConfig
  next_settings input ts row = do
    (domain, panel_domain, acme_email, reality_dest_host) ←
        as_invalid_settings (normalized_texts input row)
    let acme_directory = or_current input.acme_directory row.acme_directory
    let doh_resolver = or_current input.anti_tracking_doh_resolver row.anti_tracking_doh_resolver
    throw_if (not (validate_https_url host.platform acme_directory))
        (store_error invalid_acme_directory 400)
    throw_if (not (validate_https_url host.platform doh_resolver))
        (store_error invalid_doh_resolver 400)
    ok (record row {
      domain = domain;
      panel_domain = panel_domain;
      acme_email = acme_email;
      acme_directory = acme_directory;
      anti_tracking_hide_ip = or_current input.anti_tracking_hide_ip row.anti_tracking_hide_ip;
      anti_tracking_hide_via = or_current input.anti_tracking_hide_via row.anti_tracking_hide_via;
      anti_tracking_probe_resistance =
          or_current input.anti_tracking_probe_resistance row.anti_tracking_probe_resistance;
      anti_tracking_doh_resolver = doh_resolver;
      http3_enabled = false;
      reality_dest_host = reality_dest_host;
      reality_short_ids = some (or_current input.reality_short_ids (short_ids_of_row row));
      updated_at = ts;
    })
