-- ===== src/Store/SettingsLaws.antt =====
-- What becomes of the stored settings over the starts of the server.
use cool_tunnel_server.Base.{ℕ, ◌≡◌, ◌⊎◌, true, Option, none, List, [], ◌∷◌}
use cool_tunnel_server.Base.Texts.{Text, is_empty}
use cool_tunnel_server.Config.{AdminConfig}
use cool_tunnel_server.Store.Db.{Db, ServerConfig}
use cool_tunnel_server.Store.Settings.{ensure_defaults}

-- Starts of the server, each with its configuration and its time.
abbrev pub starts : List (AdminConfig × ℕ) → Db → Db
starts [] db = db
starts ((config, now) ∷ rest) db = starts rest (ensure_defaults config now db)

-- A stored text stays, unless it was empty.
abbrev pub KeptText : Text → Text → Type 0
KeptText old new = (new ≡ old) ⊎ (is_empty old ≡ true)

abbrev pub KeptIds : Option (List Text) → Option (List Text) → Type 0
KeptIds old new = (new ≡ old) ⊎ (old ≡ none)

-- What the starts leave of a row.
pub record KeptRow (old new : ServerConfig) : Type 0 where
  pub private_key : KeptText old.reality_private_key new.reality_private_key
  pub public_key : KeptText old.reality_public_key new.reality_public_key
  pub dest_host : KeptText old.reality_dest_host new.reality_dest_host
  pub short_ids : KeptIds old.reality_short_ids new.reality_short_ids
  pub hide_ip : new.anti_tracking_hide_ip ≡ old.anti_tracking_hide_ip
  pub hide_via : new.anti_tracking_hide_via ≡ old.anti_tracking_hide_via
  pub probe_resistance : new.anti_tracking_probe_resistance ≡ old.anti_tracking_probe_resistance
  pub rendered : new.last_caddyfile_hash ≡ old.last_caddyfile_hash
  pub created : new.created_at ≡ old.created_at
