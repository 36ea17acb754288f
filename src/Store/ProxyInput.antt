-- ===== src/Store/ProxyInput.antt =====
-- packages/db/src/store.ts: what a proxy account shows, and `normalizeProxyInput`.
use cool_tunnel_server.Store.Tokens.{mask_subscription_url, subscription_url_for}
use cool_tunnel_server.Security.Validate.{normalize_username}
use cool_tunnel_server.Security.Texts.{trim}
use cool_tunnel_server.Store.Users.{or_current}
use cool_tunnel_server.Security.Platform.{Platform}
use cool_tunnel_server.Shared.Roles.{ProtocolKey, ProxyAccountStatus, default_protocol_keys}
use cool_tunnel_server.Base.{
  ℕ, Bool, true, false, not, ◌||◌, Option, some, none, List, [], ◌∷◌, ltb, leb, if◌then◌else◌,
}
use cool_tunnel_server.Base.Texts.{Text, is_empty}
use cool_tunnel_server.Store.Db.{ProxyRow}
use cool_tunnel_server.Base.Results.{
  ◌>>=◌, Result, throw, ok, store_error, invalid_port, invalid_expires_at,
}

-- A JavaScript number: a natural number, or any other (negative, fractional, NaN, infinite).
pub data Number : Type 0 where
  whole : ℕ → Number
  other : Number

-- The text of an expiry that a caller gives, or the ISO text of the row's own expiry, which
-- `Date.parse` reads back to its instant.
pub data Expiry : Type 0 where
  from_caller : Text → Expiry
  from_row : ℕ → Expiry

pub record CreateProxyAccountInput : Type 0 where
  pub username : Text
  pub label : Option Text
  pub enabled : Option Bool
  pub client_default_local_port : Option Number
  pub enabled_protocols : Option (List ProtocolKey)
  pub expires_at : Option Expiry

-- The fields that may be missing, and then keep the row's value.
pub record UpdateProxyAccountInput : Type 0 where
  pub username : Option Text
  pub label : Option (Option Text)
  pub enabled : Option Bool
  pub client_default_local_port : Option Number
  pub enabled_protocols : Option (List ProtocolKey)
  pub expires_at : Option (Option Text)

-- `Required<CreateProxyAccountInput>`
pub record NormalProxyInput : Type 0 where
  pub username : Text
  pub label : Option Text
  pub enabled : Bool
  pub client_default_local_port : ℕ
  pub enabled_protocols : List ProtocolKey
  pub expires_at : Option ℕ

-- `normalizeProtocols` (packages/db/src/helpers.ts) on the stored JSON list.
unfoldable pub normalize_protocols : List ProtocolKey → List ProtocolKey
normalize_protocols [] = default_protocol_keys
normalize_protocols (p ∷ ps) = p ∷ ps

abbrev pub normal_label : Option Text → Option Text
normal_label none = none
normal_label (some label) = if is_empty (trim label) then none else some (trim label)

-- 1024 to 65535, or a throw.
unfoldable pub normal_port : Number → Result ℕ
normal_port other = throw (store_error invalid_port 400)
normal_port (whole port) =
    if ltb port 1024 || ltb 65535 port then throw (store_error invalid_port 400) else ok port

unfoldable pub normal_expiry : Platform → Option Expiry → Result (Option ℕ)
normal_expiry platform none = ok none
normal_expiry platform (some (from_row at)) = ok (some at)
normal_expiry platform (some (from_caller text)) =
    if is_empty text then ok none else elim (platform.parse_date text) [
      | none ↦ throw (store_error invalid_expires_at 400)
      | some at ↦ ok (some at)
    ]

unfoldable pub normalize_proxy_input : Platform → CreateProxyAccountInput → Result NormalProxyInput
normalize_proxy_input platform input = do
  username ← normalize_username input.username
  port ← normal_port (or_current input.client_default_local_port (whole 1080))
  expires_at ← normal_expiry platform input.expires_at
  ok (record {
    username = username;
    label = normal_label input.label;
    enabled = or_current input.enabled true;
    client_default_local_port = port;
    enabled_protocols = or_current input.enabled_protocols default_protocol_keys;
    expires_at = expires_at;
  })

-- The argument of `normalizeProxyInput` in `updateProxyAccount`.
abbrev pub over_row : UpdateProxyAccountInput → ProxyRow → CreateProxyAccountInput
over_row input row = record {
  username = or_current input.username row.username;
  label = or_current input.label row.label;
  enabled = some (or_current input.enabled row.enabled);
  client_default_local_port =
      some (or_current input.client_default_local_port (whole row.client_default_local_port));
  enabled_protocols =
      some (or_current input.enabled_protocols (normalize_protocols row.enabled_protocols));
  expires_at = elim input.expires_at [
    | none ↦ elim row.expires_at [ none ↦ none | some at ↦ some (from_row at) ]
    | some none ↦ none
    | some (some text) ↦ some (from_caller text)
  ];
}

-- `ProxyAccountSecretView`; without `uuid`, `previous_uuid` and `subscription_url` a `ProxyAccount`.
pub record ProxyView : Type 0 where
  pub id : Text
  pub username : Text
  pub label : Option Text
  pub status : ProxyAccountStatus
  pub enabled : Bool
  pub client_default_local_port : ℕ
  pub enabled_protocols : List ProtocolKey
  pub expires_at : Option ℕ
  pub last_seen_at : Option ℕ
  pub created_at : ℕ
  pub updated_at : ℕ
  pub previous_uuid_valid_until : Option ℕ
  pub subscription_url_masked : Option Text
  pub uuid : Text
  pub previous_uuid : Option Text
  pub subscription_url : Option Text

unfoldable pub is_expired : Option ℕ → ℕ → Bool
is_expired none now = false
is_expired (some at) now = leb at now

unfoldable pub proxy_status : ProxyRow → ℕ → ProxyAccountStatus
unfolding is_expired
proxy_status row now =
    if not row.enabled
    then ProxyAccountStatus.disabled
    else if is_expired row.expires_at now
    then ProxyAccountStatus.expired
    else ProxyAccountStatus.active

-- `rowToProxyAccountSecret`
unfoldable pub row_to_proxy_account : Platform → ProxyRow → Text → Text → ℕ → ProxyView
unfolding proxy_status
row_to_proxy_account platform row panel_domain secret now = record {
  id = row.id;
  username = row.username;
  label = row.label;
  status = proxy_status row now;
  enabled = row.enabled;
  client_default_local_port = row.client_default_local_port;
  enabled_protocols = normalize_protocols row.enabled_protocols;
  expires_at = row.expires_at;
  last_seen_at = row.last_seen_at;
  created_at = row.created_at;
  updated_at = row.updated_at;
  previous_uuid_valid_until = row.previous_uuid_valid_until;
  subscription_url_masked =
      mask_subscription_url (subscription_url_for platform row panel_domain secret);
  uuid = row.uuid;
  previous_uuid = row.previous_uuid;
  subscription_url = subscription_url_for platform row panel_domain secret;
}
