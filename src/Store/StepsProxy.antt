-- ===== src/Store/StepsProxy.antt =====
-- Each operation on the proxy accounts and the settings is put together from a few statements.
use cool_tunnel_server.Store.ProxyInput.{CreateProxyAccountInput, UpdateProxyAccountInput}
use cool_tunnel_server.Store.Settings.{SettingsInput, ensure_defaults}
use cool_tunnel_server.Base.Results.{Fault}
use cool_tunnel_server.Store.Users.{Actor}
use cool_tunnel_server.Security.Json.{Fields}
use cool_tunnel_server.Config.{AdminConfig}
use cool_tunnel_server.Base.Texts.{Text}
use cool_tunnel_server.Store.Proxy.{
  show, get_proxy_account, reveal_proxy_subscription, create_proxy_account, update_proxy_account,
  regenerate_proxy_uuid, delete_proxy_account, require_proxy, insert_proxy_row, set_proxy_row,
  delete_proxy_row,
}
use cool_tunnel_server.Store.SettingsUpdate.{
  load_settings, get_settings, update_settings, set_config,
}
use cool_tunnel_server.Store.Steps.{IsPreorder, Steps, return-Steps, step_rules, fail-Steps}
use cool_tunnel_server.Base.{ℕ, Option, some, none}
use cool_tunnel_server.Store.Db.{Db, ServerConfig, ProxyRow}
use cool_tunnel_server.Store.Monad.{Host, Env, audit_row}

-- The statements of the operations on the proxy accounts and the settings.
pub record ProxyStatements (host : Host) (R : Db → Db → Type 0) : Type 0 where
  pub order : IsPreorder R
  pub audits :
      (at : ℕ) (actor : Option Text) (action : Text) (target_type target_id : Option Text)
      (detail : Fields) (db : Db)
      → R db (audit_row host at actor action target_type target_id detail db)
  pub makes_defaults :
      (config : AdminConfig) (now : ℕ) (db : Db) → R db (ensure_defaults config now db)
  pub sets_config : (row : ServerConfig) (db : Db) → R db (set_config row db)
  pub inserts_row : (row : ProxyRow) (db : Db) → R db (insert_proxy_row row db)
  pub sets_row : (id : Text) (f : ProxyRow → ProxyRow) (db : Db) → R db (set_proxy_row id f db)
  pub deletes_row : (id : Text) (db : Db) → R db (delete_proxy_row id db)

module _ {host : Host} {R : Db → Db → Type 0} (s : ProxyStatements host R) where
  open s use {order, audits, makes_defaults, sets_config, inserts_row, sets_row, deletes_row}

  load_settings-Steps :
      (config : Option AdminConfig) (now : ℕ) (row : Option ServerConfig)
      → Steps R (load_settings config now row)
  unfolding load_settings
  load_settings-Steps config now (some row) = return-Steps order _
  load_settings-Steps none now none = fail-Steps order _ _
  load_settings-Steps (some config) now none = search (step_rules, order, makes_defaults)

  get_settings-Steps : (now : ℕ) → Steps R (get_settings host now)
  unfolding get_settings Steps
  get_settings-Steps now db = load_settings-Steps host.config now db.server_config db

  pub update_settings-Steps :
      (env : Env) (actor : Actor) (input : SettingsInput)
      → Steps R (update_settings host env actor input)
  unfolding update_settings
  update_settings-Steps env actor input =
      search (step_rules, order, audits, sets_config, get_settings-Steps) depth 14

  show-Steps : (env : Env) (row : ProxyRow) → Steps R (show host env row)
  unfolding show
  show-Steps env row = search (step_rules, order, get_settings-Steps)

  get_proxy-Steps :
      (env : Env) (fault : Fault) (id : Text) → Steps R (get_proxy_account host env fault id)
  unfolding get_proxy_account require_proxy
  get_proxy-Steps env fault id = search (step_rules, order, show-Steps)

  pub reveal-Steps :
      (env : Env) (actor : Actor) (id : Text)
      → Steps R (reveal_proxy_subscription host env actor id)
  unfolding reveal_proxy_subscription
  reveal-Steps env actor id = search (step_rules, order, audits, get_proxy-Steps) depth 10

  pub create_proxy-Steps :
      (env : Env) (actor : Actor) (input : CreateProxyAccountInput)
      → Steps R (create_proxy_account host env actor input)
  unfolding create_proxy_account
  create_proxy-Steps env actor input =
      search (step_rules, order, audits, inserts_row, get_proxy-Steps) depth 14

  pub update_proxy-Steps :
      (env : Env) (actor : Actor) (id : Text) (input : UpdateProxyAccountInput)
      → Steps R (update_proxy_account host env actor id input)
  unfolding update_proxy_account require_proxy
  update_proxy-Steps env actor id input =
      search (step_rules, order, audits, sets_row, show-Steps, get_proxy-Steps) depth 18

  pub regenerate-Steps :
      (env : Env) (actor : Actor) (until id : Text)
      → Steps R (regenerate_proxy_uuid host env actor until id)
  unfolding regenerate_proxy_uuid
  regenerate-Steps env actor until id =
      search (step_rules, order, audits, sets_row, get_proxy-Steps) depth 18

  pub delete_proxy-Steps :
      (env : Env) (actor : Actor) (id : Text) → Steps R (delete_proxy_account host env actor id)
  unfolding delete_proxy_account
  delete_proxy-Steps env actor id =
      search (step_rules, order, audits, deletes_row, get_proxy-Steps) depth 10
