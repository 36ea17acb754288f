-- ===== src/Store/Status.antt =====
-- packages/db/src/store.ts: `statusSummary`, and the list of proxy accounts as the API reads it.
use cool_tunnel_server.Store.Db.{ProxyRow}
use cool_tunnel_server.Base.Texts.{length, is_empty}
use cool_tunnel_server.Store.Proxy.{list_proxy_accounts}
use cool_tunnel_server.Store.ProxyInput.{ProxyView}
use cool_tunnel_server.Shared.Roles.{ProxyAccountStatus}
use cool_tunnel_server.Base.{ℕ, Bool, true, false, not, ◌&&◌, List, [], ◌∷◌}
use cool_tunnel_server.Store.Users.{has_owner, user_count}
use cool_tunnel_server.Base.Tables.{count}
use cool_tunnel_server.Base.Results.{ok}
use cool_tunnel_server.Store.Monad.{M, ◌>>=◌, return, read, Host, Env}
use cool_tunnel_server.Store.SettingsUpdate.{get_settings}

-- The version, the state of the migrations and the services are left out.
pub record StatusSummary : Type 0 where
  pub has_owner : Bool
  pub user_count : ℕ
  pub proxy_account_count : ℕ
  pub active_proxy_account_count : ℕ
  pub settings_ready : Bool

-- `account.status === "active"`
abbrev pub is_listed : ProxyAccountStatus → Bool
is_listed ProxyAccountStatus.active = true
is_listed _ = false

module _ (host : Host) where
  -- The settings are read for the first row that is shown, if there is one.
  unfoldable pub read_views : Env → List ProxyRow → M (List ProxyView)
  read_views env [] = return []
  read_views env (row ∷ rows) = do
    settings ← get_settings host env.ts
    read (λ db. ok (list_proxy_accounts host env settings.panel_domain db))

  -- `listProxyAccounts`, which reads the settings for each row that it shows.
  unfoldable pub read_accounts : Env → M (List ProxyView)
  unfolding read_views
  read_accounts env = do rows ← read (λ db. ok db.proxy_accounts); read_views env rows

  unfoldable pub status_summary : Env → M StatusSummary
  status_summary env = do
    accounts ← read_accounts env
    settings ← get_settings host env.ts
    owner_found ← read (λ db. ok (has_owner db))
    users ← read (λ db. ok (user_count db))
    return (record {
      has_owner = owner_found;
      user_count = users;
      proxy_account_count = length accounts;
      active_proxy_account_count = count (λ v. is_listed v.status) accounts;
      settings_ready = not (is_empty settings.domain) && not (is_empty settings.reality_public_key);
    })
