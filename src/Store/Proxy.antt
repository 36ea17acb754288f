-- ===== src/Store/Proxy.antt =====
-- packages/db/src/store.ts: the operations on proxy accounts.
use cool_tunnel_server.Store.SettingsUpdate.{get_settings}
use cool_tunnel_server.Store.Users.{Actor, key_if}
use cool_tunnel_server.Security.Validate.{validate_id}
use cool_tunnel_server.Security.Json.{Json, arr, Fields, field, str, nil, end}
use cool_tunnel_server.Base.Tables.{any, insert_row, update_where, delete_where, find?, order_by}
use cool_tunnel_server.Store.Tokens.{row_has_id}
use cool_tunnel_server.Base.Results.{
  Fault, store_error, throw, not_found, ok, database_error, plain,
}
use cool_tunnel_server.Shared.Roles.{ProxyAccountStatus}
use cool_tunnel_server.Store.ProxyInput.{
  NormalProxyInput, UpdateProxyAccountInput, ProxyView, row_to_proxy_account,
  CreateProxyAccountInput, normalize_proxy_input, over_row,
}
use cool_tunnel_server.Store.Db.{ProxyRow, Db}
use cool_tunnel_server.Config.{AdminConfig}
use cool_tunnel_server.Base.{
  ℕ, ◌+◌, Bool, not, ◌&&◌, ◌||◌, Option, some, none, List, [], map, ltb, if◌then◌else◌,
}
use cool_tunnel_server.Base.Texts.{Text, opt_text_eq, codes, text_eq, is_empty}
use cool_tunnel_server.Store.Monad.{
  M, ◌>>=◌, ◌>>◌, Env, Host, read, fail_if, write, return, audit_row, write_unless,
}

abbrev pub auth_secret_of : Option AdminConfig → Text
auth_secret_of none = []
auth_secret_of (some config) = config.auth_secret

abbrev new_row : Env → NormalProxyInput → ProxyRow
new_row env input = record {
  id = env.random_id;
  username = input.username;
  uuid = env.uuid;
  previous_uuid = none;
  previous_uuid_valid_until = none;
  subscription_secret = some env.random_token;
  label = input.label;
  enabled = input.enabled;
  client_default_local_port = input.client_default_local_port;
  enabled_protocols = input.enabled_protocols;
  expires_at = input.expires_at;
  last_seen_at = none;
  created_at = env.ts;
  updated_at = env.ts;
}

-- Another row holds a value of a UNIQUE column: the username, the UUID, or the subscription secret.
abbrev pub other_row : (ProxyRow → Bool) → Text → ProxyRow → Bool
other_row p id row = not (row_has_id id row) && p row

abbrev pub has_secret : Text → ProxyRow → Bool
has_secret secret row = opt_text_eq row.subscription_secret secret

unfoldable pub new_row_conflicts : ProxyRow → Text → Db → Bool
new_row_conflicts new secret db =
    any (row_has_id new.id) db.proxy_accounts
    || any (λ r. text_eq r.username new.username) db.proxy_accounts
    || any (λ r. text_eq r.uuid new.uuid) db.proxy_accounts
    || any (has_secret secret) db.proxy_accounts

unfoldable pub insert_proxy_row : ProxyRow → Db → Db
insert_proxy_row row db = record db { proxy_accounts = insert_row row db.proxy_accounts }

unfoldable pub set_proxy_row : Text → (ProxyRow → ProxyRow) → Db → Db
set_proxy_row id f db = record db {
  proxy_accounts = update_where (row_has_id id) f db.proxy_accounts;
}

unfoldable pub delete_proxy_row : Text → Db → Db
delete_proxy_row id db = record db {
  proxy_accounts = delete_where (row_has_id id) db.proxy_accounts;
}

-- The SET list of `updateProxyAccount`.
unfoldable pub apply_input : NormalProxyInput → ℕ → ProxyRow → ProxyRow
apply_input input ts row = record row {
  username = input.username;
  label = input.label;
  enabled = input.enabled;
  client_default_local_port = input.client_default_local_port;
  enabled_protocols = input.enabled_protocols;
  expires_at = input.expires_at;
  updated_at = ts;
}

-- Ten minutes.
abbrev pub grace_ms : ℕ
grace_ms = 600000

-- The SET list of `regenerateProxyUuid`.
unfoldable pub rotate : Env → Text → ProxyRow → ProxyRow
rotate env current_uuid row = record row {
  uuid = env.uuid;
  previous_uuid = some current_uuid;
  previous_uuid_valid_until = some (env.clock + grace_ms);
  subscription_secret = some env.random_token;
  updated_at = env.ts;
}

-- `Object.keys(input).sort()`
abbrev proxy_keys : UpdateProxyAccountInput → Json
proxy_keys input = arr (
    key_if input.client_default_local_port (codes "clientDefaultLocalPort") (
      key_if input.enabled (codes "enabled") (
        key_if input.enabled_protocols (codes "enabledProtocols") (
          key_if input.expires_at (codes "expiresAt")
            (key_if input.label (codes "label") (key_if input.username (codes "username") nil))))))

abbrev status_name : ProxyAccountStatus → Text
status_name ProxyAccountStatus.active = codes "active"
status_name ProxyAccountStatus.disabled = codes "disabled"
status_name ProxyAccountStatus.expired = codes "expired"

abbrev pub find_proxy : Text → Db → Option ProxyRow
find_proxy id db = if not (validate_id id) then none else find? (row_has_id id) db.proxy_accounts

abbrev not_found_fault : Fault
not_found_fault = store_error not_found 404

-- The row, or a throw.
unfoldable pub require_proxy : Fault → Text → M ProxyRow
require_proxy fault id =
    read (λ db. elim (find_proxy id db) [ none ↦ throw fault | some row ↦ ok row ])

module _ (host : Host) where
  -- The view of a row, under the panel domain of the settings.
  unfoldable pub show : Env → ProxyRow → M ProxyView
  show env row = do
    settings ← get_settings host env.ts
    return (
        row_to_proxy_account host.platform row settings.panel_domain (auth_secret_of host.config)
          env.clock)

  abbrev audit_proxy : Env → Actor → Text → Text → Fields → M (Unit {0})
  audit_proxy env actor action id detail = write (
      audit_row host env.audit_at (some actor.id) action (some (codes "proxy_account")) (some id)
        detail)

  -- `getProxyAccount` behind a check that throws where it is null.
  unfoldable pub get_proxy_account : Env → Fault → Text → M ProxyView
  get_proxy_account env fault id = do row ← require_proxy fault id; show env row

  -- `listProxyAccounts`, on the rows in their order.
  unfoldable pub list_proxy_accounts : Env → Text → Db → List ProxyView
  list_proxy_accounts env panel_domain db =
      map
        (λ row.
          row_to_proxy_account host.platform row panel_domain (auth_secret_of host.config)
            env.clock)
        (order_by (λ a b. ltb b.created_at a.created_at) db.proxy_accounts)

  unfoldable pub reveal_proxy_subscription : Env → Actor → Text → M ProxyView
  reveal_proxy_subscription env actor id = do
    account ← get_proxy_account env not_found_fault id
    audit_proxy env actor (codes "proxy_account.subscription_revealed") id
        (field (codes "username") (str account.username) end)
    return account

  unfoldable pub create_proxy_account : Env → Actor → CreateProxyAccountInput → M ProxyView
  create_proxy_account env actor input = do
    normalized ← read (λ db. normalize_proxy_input host.platform input)
    conflict ← read (λ db. ok (new_row_conflicts (new_row env normalized) env.random_token db))
    write_unless conflict plain (insert_proxy_row (new_row env normalized))
    created ← get_proxy_account env (store_error database_error 500) env.random_id
    audit_proxy env actor (codes "proxy_account.created") env.random_id (
        field (codes "username") (str created.username)
          (field (codes "status") (str (status_name created.status)) end))
    return created

  unfoldable pub update_proxy_account : Env → Actor → Text → UpdateProxyAccountInput → M ProxyView
  update_proxy_account env actor id input = do
    current ← require_proxy not_found_fault id
    shown ← show env current
    normalized ← read (λ db. normalize_proxy_input host.platform (over_row input current))
    taken ← read (λ db.
        ok (any (other_row (λ r. text_eq r.username normalized.username) id) db.proxy_accounts))
    write_unless taken plain (set_proxy_row id (apply_input normalized env.ts))
    updated ← get_proxy_account env not_found_fault id
    audit_proxy env actor (codes "proxy_account.updated") id (
        field (codes "username") (str updated.username)
          (field (codes "changed") (proxy_keys input) end))
    return updated

  unfoldable pub set_proxy_enabled : Env → Actor → Text → Bool → M ProxyView
  set_proxy_enabled env actor id enabled = update_proxy_account env actor id (record {
    username = none;
    label = none;
    enabled = some enabled;
    client_default_local_port = none;
    enabled_protocols = none;
    expires_at = none;
  })

  unfoldable pub regenerate_proxy_uuid :
      Env → Actor → (valid_until_text : Text) → Text → M ProxyView
  regenerate_proxy_uuid env actor valid_until_text id = do
    current ← get_proxy_account env not_found_fault id
    fail_if (is_empty current.uuid) (store_error database_error 500)
    taken ← read (λ db. ok (
        any (other_row (λ r. text_eq r.uuid env.uuid) id) db.proxy_accounts
        || any (other_row (has_secret env.random_token) id) db.proxy_accounts))
    write_unless taken plain (set_proxy_row id (rotate env current.uuid))
    updated ← get_proxy_account env not_found_fault id
    audit_proxy env actor (codes "proxy_account.uuid_rotated") id (
        field (codes "username") (str updated.username)
          (field (codes "previousUuidValidUntil") (str valid_until_text) end))
    return updated

  unfoldable pub delete_proxy_account : Env → Actor → Text → M (Unit {0})
  delete_proxy_account env actor id = do
    current ← get_proxy_account env not_found_fault id
    write (delete_proxy_row id)
    audit_proxy env actor (codes "proxy_account.deleted") id
        (field (codes "username") (str current.username) end)
