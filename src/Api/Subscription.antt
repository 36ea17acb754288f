-- ===== src/Api/Subscription.antt =====
-- apps/api/src/app.ts: `subscriptionResponse`, the public endpoint.
use cool_tunnel_server.Base.{
  ℕ, ◌+◌, ◌*◌, Bool, true, false, not, ◌||◌, Option, some, none, List, [], ◌∷◌, ◌++◌, ltb,
  if◌then◌else◌,
}
use cool_tunnel_server.Base.Texts.{Text, codes, is_empty}
use cool_tunnel_server.Base.Results.{ok, http_error, bad_request}
use cool_tunnel_server.Security.Platform.{Platform}
use cool_tunnel_server.Security.Json.{
  Json, bool, num, str, arr, obj, Items, nil, cons, Fields, end, field,
}
use cool_tunnel_server.Shared.Roles.{ProtocolKey, vless_reality, default_protocol_keys}
use cool_tunnel_server.Store.Db.{ProxyRow}
use cool_tunnel_server.Store.Monad.{M, Env, Host, ◌>>=◌, ◌>>◌, return, read, fail_if}
use cool_tunnel_server.Store.Settings.{ServerSettings, row_to_settings}
use cool_tunnel_server.Store.SettingsUpdate.{get_settings}
use cool_tunnel_server.Store.Tokens.{resolve_subscription_token}
use cool_tunnel_server.Store.Proxy.{auth_secret_of}

-- The cover page, or the signed manifest.
pub data SubscriptionOutcome : Type 0 where
  cover : SubscriptionOutcome
  manifest : Json → SubscriptionOutcome

-- Seven days.
abbrev pub subscription_ttl_seconds : ℕ
subscription_ttl_seconds = 60 * 60 * 24 * 7

-- `!account.enabled || (account.expiresAt && !(Date.parse(account.expiresAt) > Date.now()))`
unfoldable pub is_unavailable : ProxyRow → ℕ → Bool
is_unavailable row now =
    not row.enabled || (elim row.expires_at [ none ↦ false | some at ↦ not (ltb now at) ])

-- `!account.uuid || !settings.realityPublicKey || !settings.realityDestHost`
unfoldable pub lacks_keys : ProxyRow → ServerSettings → Bool
lacks_keys row settings =
    is_empty row.uuid || is_empty settings.reality_public_key || is_empty settings.reality_dest_host

unfoldable pub has_vless : List ProtocolKey → Bool
has_vless [] = false
has_vless (vless_reality ∷ keys) = true

-- `account.enabledProtocols.length > 0 ? account.enabledProtocols : DEFAULT_PROTOCOL_KEYS`
abbrev pub offered_protocols : ProxyRow → List ProtocolKey
offered_protocols row = elim row.enabled_protocols [
  | [] ↦ default_protocol_keys
  | key ∷ keys ↦ key ∷ keys
]

abbrev tag_if : Bool → Text → Items → Items
tag_if true tag items = cons (str tag) items
tag_if false tag items = items

abbrev first_or_empty : List Text → Text
first_or_empty [] = []
first_or_empty (id ∷ ids) = id

module _ (platform : Platform) where
  open platform use {number_text, json_text, unix_seconds, hmac_hex}

  unfoldable pub manifest_profile : ProxyRow → ServerSettings → Json
  manifest_profile row settings = obj (
      field (codes "host") (str settings.domain) (
        field (codes "port") (num (codes "443")) (
          field (codes "username") (str row.username) (
            field (codes "uuid") (str row.uuid) (
              field (codes "label")
                (str (settings.domain ++ (codes " (" ++ (row.username ++ codes ")"))))
                (field (codes "client_defaults")
                  (obj (
                    field (codes "local_port") (num (number_text row.client_default_local_port))
                      end))
                  (field (codes "protocols")
                    (arr (
                      cons
                        (obj (
                          field (codes "type") (str (codes "vless_reality")) (
                            field (codes "host") (str settings.domain) (
                              field (codes "port") (num (codes "443")) (
                                field (codes "flow") (str [])
                                  (field (codes "security") (str (codes "reality")) end))))))
                        nil))
                    (field (codes "reality")
                      (obj (
                        field (codes "public_key") (str settings.reality_public_key) (
                          field (codes "dest_host") (str settings.reality_dest_host) (
                            field (codes "short_id")
                              (str (first_or_empty settings.reality_short_ids)) end))))
                      end))))))))

  -- `body` before the signature is added, and with what is behind its last field.
  unfoldable pub manifest_body : ProxyRow → ServerSettings → (issued_at : ℕ) → Fields → Json
  unfolding manifest_profile
  manifest_body row settings issued_at rest = obj (
      field (codes "version") (num (codes "2")) (
        field (codes "server") (str settings.domain) (
          field (codes "profiles") (arr (cons (manifest_profile row settings) nil)) (
            field (codes "capabilities")
              (obj (
                field (codes "anti_tracking")
                  (arr (
                    tag_if settings.anti_tracking_hide_ip (codes "hide_ip") (
                      tag_if settings.anti_tracking_hide_via (codes "hide_via") (
                        tag_if settings.anti_tracking_probe_resistance (codes "probe_resistance") (
                          tag_if (not (is_empty settings.anti_tracking_doh_resolver))
                            (codes "doh_resolver") nil)))))
                  (field (codes "http3") (bool false) end)))
              (field (codes "issued_at") (num (number_text issued_at)) (
                field (codes "expires_at")
                  (num (number_text (issued_at + subscription_ttl_seconds))) rest))))))

  unfoldable pub signed_manifest : (secret : Text) → ProxyRow → ServerSettings → ℕ → Json
  unfolding manifest_body
  signed_manifest secret row settings now =
      let canonical = json_text (manifest_body row settings (unix_seconds now) end) in
      manifest_body row settings (unix_seconds now)
        (field (codes "signature") (str (hmac_hex secret canonical)) end)

module _ (host : Host) where
  -- From the settings on.
  unfoldable pub answer_subscription : Env → ProxyRow → M SubscriptionOutcome
  unfolding lacks_keys has_vless signed_manifest
  answer_subscription env row = do
    stored ← get_settings host env.ts
    let settings = row_to_settings stored
    return (
        if lacks_keys row settings || not (has_vless (offered_protocols row))
        then cover
        else manifest
            (signed_manifest host.platform (auth_secret_of host.config) row settings env.clock))

  -- A row that is missing, disabled or expired has the cover page.
  unfoldable pub answer_row : Env → Option ProxyRow → M SubscriptionOutcome
  answer_row env none = return cover
  answer_row env (some row) =
      if is_unavailable row env.clock then return cover else answer_subscription env row

  unfoldable pub subscription_response : Env → (token : Text) → M SubscriptionOutcome
  subscription_response env token = do
    fail_if (is_empty token) (http_error bad_request 400)
    row ←
        read (λ db.
          ok (resolve_subscription_token host.platform (auth_secret_of host.config) token db))
    answer_row env row
