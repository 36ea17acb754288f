-- ===== src/Store/SettingsUpdate.antt =====
-- packages/db/src/store.ts: `getSettings` and `updateSettings`.
use cool_tunnel_server.Config.{AdminConfig}
use cool_tunnel_server.Base.Results.{store_error, config_required}
use cool_tunnel_server.Base.Texts.{codes}
use cool_tunnel_server.Store.Users.{Actor, key_if}
use cool_tunnel_server.Store.Db.{ServerConfig, Db}
use cool_tunnel_server.Base.{ℕ, some, none, Option}
use cool_tunnel_server.Security.Json.{Json, arr, nil, field, end}
use cool_tunnel_server.Store.Settings.{
  SettingsInput, ServerSettings, next_settings, row_to_settings, default_row, ensure_defaults,
}
use cool_tunnel_server.Store.Monad.{M, ◌>>=◌, ◌>>◌, Host, Env, read, write, audit_row, return, fail}

-- `Object.keys(input).sort()`
abbrev settings_keys : SettingsInput → Json
settings_keys input = arr (
    key_if input.acme_directory (codes "acmeDirectory") (
      key_if input.acme_email (codes "acmeEmail") (
        key_if input.anti_tracking_doh_resolver (codes "antiTrackingDohResolver") (
          key_if input.anti_tracking_hide_ip (codes "antiTrackingHideIp") (
            key_if input.anti_tracking_hide_via (codes "antiTrackingHideVia") (
              key_if input.anti_tracking_probe_resistance (codes "antiTrackingProbeResistance") (
                key_if input.domain (codes "domain") (
                  key_if input.panel_domain (codes "panelDomain") (
                    key_if input.reality_dest_host (codes "realityDestHost")
                      (key_if input.reality_short_ids (codes "realityShortIds") nil))))))))))

unfoldable pub set_config : ServerConfig → Db → Db
set_config row db = record db { server_config = some row }

-- A missing row is made from the configuration.
unfoldable pub load_settings : Option AdminConfig → ℕ → Option ServerConfig → M ServerConfig
load_settings config now (some row) = return row
load_settings none now none = fail (store_error config_required 500)
load_settings (some config) now none = do
  write (ensure_defaults config now)
  return (default_row config now)

module _ (host : Host) where
  -- `getSettings`, on the row.
  unfoldable pub get_settings : ℕ → M ServerConfig
  get_settings now db = load_settings host.config now db.server_config db

  -- `updateSettings`. The server settings that it returns are `row_to_settings` of the row.
  unfoldable pub update_settings : Env → Actor → SettingsInput → M ServerSettings
  update_settings env actor input = do
    current ← get_settings env.ts
    next ← read (λ db. next_settings host input env.ts current)
    write (set_config next)
    updated ← get_settings env.ts
    write (
        audit_row host env.audit_at (some actor.id) (codes "settings.updated")
          (some (codes "server_config")) (some (codes "1"))
          (field (codes "changed") (settings_keys input) end))
    return (row_to_settings updated)
