-- ===== src/Api/Inputs.antt =====
-- apps/api/src/app.ts: reading the JSON body of a request.
use cool_tunnel_server.Store.Users.{UpdateUserInput, or_current}
use cool_tunnel_server.Store.Settings.{SettingsInput}
use cool_tunnel_server.Api.Routes.{parse_role}
use cool_tunnel_server.Base.Texts.{Text, is_empty, text_eq, codes}
use cool_tunnel_server.Shared.Roles.{AdminRole, ProtocolKey, UserStatus, vless_reality}
use cool_tunnel_server.Store.ProxyInput.{
  Number, UpdateProxyAccountInput, other, CreateProxyAccountInput, whole, from_caller,
}
use cool_tunnel_server.Security.Platform.{Platform}
use cool_tunnel_server.Base.{
  ℕ, Bool, true, false, not, ◌&&◌, Option, some, none, List, [], ◌∷◌, if◌then◌else◌,
}
use cool_tunnel_server.Base.Results.{
  Result, ok, throw, ◌>>=◌, http_error, invalid_json, invalid_role,
}
use cool_tunnel_server.Security.Json.{
  Json, null, bool, num, str, arr, obj, Items, nil, cons, Fields, find_field,
}

-- `String(value)`
unfoldable pub string_of : Platform → Json → Result Text
string_of platform (str s) = ok s
string_of platform value = platform.to_text value

-- `Boolean(value)`
unfoldable pub boolean_of : Platform → Json → Bool
boolean_of platform null = false
boolean_of platform (bool b) = b
boolean_of platform (num literal) = not (platform.is_zero literal)
boolean_of platform (str s) = not (is_empty s)
boolean_of platform (arr items) = true
boolean_of platform (obj fields) = true

abbrev as_number : Option ℕ → Number
as_number none = other
as_number (some n) = whole n

-- `Number(value)`
unfoldable pub number_of : Platform → Json → Result Number
number_of platform value = do n ← platform.to_natural value; ok (as_number n)

-- `safeJson`, on what `c.req.json()` gives, `none` where it throws.
unfoldable pub safe_json : Option Json → Result Fields
safe_json (some (obj fields)) = ok fields
safe_json _ = throw (http_error invalid_json 400)

-- `String(body.key ?? "")`
unfoldable pub text_or_empty : Platform → Text → Fields → Result Text
unfolding string_of
text_or_empty platform key body = elim (find_field key body) [
  | none ↦ ok []
  | some null ↦ ok []
  | some value ↦ string_of platform value
]

-- `if (body.key !== undefined) … f(body.key)`
unfoldable pub when_given {ℓ} : {A : Type ℓ} → (Json → Result A) → Option Json → Result (Option A)
when_given f none = ok none
when_given f (some value) = do a ← f value; ok (some a)

-- `value === null ? null : String(value)`
unfoldable pub nullable_text : Platform → Json → Result (Option Text)
unfolding string_of
nullable_text platform null = ok none
nullable_text platform value = do s ← string_of platform value; ok (some s)

-- `parseRole`
unfoldable pub parse_role_of : Json → Result AdminRole
parse_role_of (str s) = parse_role s
parse_role_of _ = throw (http_error invalid_role 400)

unfoldable pub only_vless : Items → List ProtocolKey
only_vless nil = []
only_vless (cons (str s) rest) =
    if text_eq s (codes "vless_reality") then vless_reality ∷ only_vless rest else only_vless rest
only_vless (cons _ rest) = only_vless rest

-- A field that is taken where it is an array.
unfoldable pub protocols_of : Option Json → Option (List ProtocolKey)
unfolding only_vless
protocols_of (some (arr items)) = some (only_vless items)
protocols_of _ = none

unfoldable pub texts_of : Platform → Items → Result (List Text)
unfolding string_of
texts_of platform nil = ok []
texts_of platform (cons value rest) = do
  s ← string_of platform value
  more ← texts_of platform rest
  ok (s ∷ more)

unfoldable pub short_ids_of : Platform → Option Json → Result (Option (List Text))
unfolding texts_of
short_ids_of platform (some (arr items)) = do ids ← texts_of platform items; ok (some ids)
short_ids_of platform _ = ok none

module _ (platform : Platform) where
  abbrev text_field : Text → Fields → Result (Option Text)
  text_field key body = when_given (string_of platform) (find_field key body)

  abbrev flag_field : Text → Fields → Result (Option Bool)
  flag_field key body = when_given (λ v. ok (boolean_of platform v)) (find_field key body)

  -- `if (!partial || body.username !== undefined) …`
  abbrev username_field : Bool → Fields → Result (Option Text)
  username_field partial body =
      if partial && is_undefined (find_field (codes "username") body)
      then ok none
      else (do s ← text_or_empty platform (codes "username") body; ok (some s))
    where
      is_undefined : Option Json → Bool
      is_undefined none = true
      is_undefined (some v) = false

  -- `parseProxyInput`
  unfoldable pub parse_proxy_input : (partial : Bool) → Fields → Result UpdateProxyAccountInput
  parse_proxy_input partial body = do
    username ← username_field partial body
    label ← when_given (nullable_text platform) (find_field (codes "label") body)
    enabled ← flag_field (codes "enabled") body
    port ← when_given (number_of platform) (find_field (codes "clientDefaultLocalPort") body)
    expires_at ← when_given (nullable_text platform) (find_field (codes "expiresAt") body)
    ok (record {
      username = username;
      label = label;
      enabled = enabled;
      client_default_local_port = port;
      enabled_protocols = protocols_of (find_field (codes "enabledProtocols") body);
      expires_at = expires_at;
    })

  -- `parseSettingsInput`
  unfoldable pub parse_settings_input : Fields → Result SettingsInput
  parse_settings_input body = do
    domain ← text_field (codes "domain") body
    panel_domain ← text_field (codes "panelDomain") body
    acme_email ← text_field (codes "acmeEmail") body
    acme_directory ← text_field (codes "acmeDirectory") body
    hide_ip ← flag_field (codes "antiTrackingHideIp") body
    hide_via ← flag_field (codes "antiTrackingHideVia") body
    probe_resistance ← flag_field (codes "antiTrackingProbeResistance") body
    doh_resolver ← text_field (codes "antiTrackingDohResolver") body
    reality_dest_host ← text_field (codes "realityDestHost") body
    short_ids ← short_ids_of platform (find_field (codes "realityShortIds") body)
    ok (record {
      domain = domain;
      panel_domain = panel_domain;
      acme_email = acme_email;
      acme_directory = acme_directory;
      anti_tracking_hide_ip = hide_ip;
      anti_tracking_hide_via = hide_via;
      anti_tracking_probe_resistance = probe_resistance;
      anti_tracking_doh_resolver = doh_resolver;
      reality_dest_host = reality_dest_host;
      reality_short_ids = short_ids;
    })

  -- `body.status === "disabled" ? "disabled" : "active"`
  abbrev status_of : Json → UserStatus
  status_of (str s) =
      if text_eq s (codes "disabled") then UserStatus.disabled else UserStatus.active
  status_of _ = UserStatus.active

  -- The input that `PATCH /api/users/:id` builds.
  unfoldable pub parse_user_patch : Fields → Result UpdateUserInput
  parse_user_patch body = do
    email ← text_field (codes "email") body
    username ← text_field (codes "username") body
    name ← text_field (codes "name") body
    role ← when_given parse_role_of (find_field (codes "role") body)
    status ← when_given (λ v. ok (status_of v)) (find_field (codes "status") body)
    must_change ← flag_field (codes "mustChangePassword") body
    ok (record {
      email = email;
      username = username;
      name = name;
      role = role;
      status = status;
      must_change_password = must_change;
    })

-- The input of `createProxyAccount`: null and undefined are alike there.
unfoldable pub to_create_input : UpdateProxyAccountInput → CreateProxyAccountInput
to_create_input input = record {
  username = or_current input.username [];
  label = or_current input.label none;
  enabled = input.enabled;
  client_default_local_port = input.client_default_local_port;
  enabled_protocols = input.enabled_protocols;
  expires_at = elim (or_current input.expires_at none) [
    | none ↦ none
    | some text ↦ some (from_caller text)
  ];
}
