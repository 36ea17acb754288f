-- ===== src/Api/SubscriptionLaws.antt =====
-- Who gets a manifest from the public endpoint.
use cool_tunnel_server.Base.{
  ℕ, ◌≡◌, refl, sym, ap, ◌∙◌, ◌≢◌, inl, inr, true, false, Option, some, none, arith, Bool-cases,
}
use cool_tunnel_server.Base.Texts.{Text, is_empty}
use cool_tunnel_server.Base.Results.{Result-cases, ok}
use cool_tunnel_server.Security.Json.{Json}
use cool_tunnel_server.Shared.Roles.{ProxyAccountStatus}
use cool_tunnel_server.Store.Db.{Db, ProxyRow, ServerConfig}
use cool_tunnel_server.Store.Monad.{Env, Host, ◌>>=◌, ◌>>◌, return, read, fail_if}
use cool_tunnel_server.Store.ProxyInput.{proxy_status, is_expired}
use cool_tunnel_server.Store.Proxy.{auth_secret_of}
use cool_tunnel_server.Store.Settings.{row_to_settings}
use cool_tunnel_server.Store.SettingsUpdate.{get_settings}
use cool_tunnel_server.Store.Tokens.{resolve_subscription_token}
use cool_tunnel_server.Api.Subscription.{
  cover, manifest, is_unavailable, lacks_keys, signed_manifest, answer_subscription, answer_row,
  subscription_response,
}

-- The endpoint and the panel agree on which accounts are in use.
is_unavailable-proxy_status :
    (row : ProxyRow) (now : ℕ)
    → is_unavailable row now ≡ false
    → proxy_status row now ≡ ProxyAccountStatus.active
unfolding is_unavailable proxy_status is_expired
is_unavailable-proxy_status row now h = ground arith

module _ (host : Host) (env : Env) (db : Db) where
  abbrev resolved : Text → Option ProxyRow
  resolved token = resolve_subscription_token host.platform (auth_secret_of host.config) token db

  subscription_response-answer :
      (token : Text)
      → is_empty token ≡ false
      → subscription_response host env token db ≡ answer_row host env (resolved token) db
  unfolding subscription_response ◌>>=◌ ◌>>◌ return read fail_if
  subscription_response-answer token filled = ground arith

  subscription_response-empty :
      (token : Text)
      → is_empty token ≡ true
      → (body : Json) → (subscription_response host env token db).0 ≢ ok (manifest body)
  unfolding subscription_response ◌>>=◌ ◌>>◌ return read fail_if
  subscription_response-empty token empty body e = ground arith

  answer_subscription-manifest :
      (row : ProxyRow) (body : Json)
      → (answer_subscription host env row db).0 ≡ ok (manifest body)
      → (stored : ServerConfig) × ((get_settings host env.ts db).0 ≡ ok stored)
        × (lacks_keys row (row_to_settings stored) ≡ false)
        × (body
            ≡ signed_manifest host.platform
                (auth_secret_of host.config)
                row
                (row_to_settings stored)
                env.clock)
  unfolding answer_subscription ◌>>=◌ return
  answer_subscription-manifest row body e = elim (Result-cases (get_settings host env.ts db).0) [
    | inl (stored, s) ↦ (stored, s, ground arith, ground arith)
    | inr (f, s) ↦ ground arith
  ]

  answer_row-manifest :
      (found : Option ProxyRow) (body : Json)
      → (answer_row host env found db).0 ≡ ok (manifest body)
      → (row : ProxyRow) × (found ≡ some row)
        × (is_unavailable row env.clock ≡ false)
        × ((answer_subscription host env row db).0 ≡ ok (manifest body))
  unfolding answer_row return
  answer_row-manifest none body e = ground arith
  answer_row-manifest (some row) body e = (row, refl, ground arith, ground arith)

  answer_row-cover :
      (found : Option ProxyRow)
      → ((row : ProxyRow)
          → found ≡ some row
          → proxy_status row env.clock ≢ ProxyAccountStatus.active)
      → answer_row host env found db ≡ (ok cover, db)
  unfolding answer_row return
  answer_row-cover none unused = refl
  answer_row-cover (some row) unused = elim (Bool-cases (is_unavailable row env.clock)) [
    | inl gone ↦ rw gone refl
    | inr in_use ↦ elim (unused row refl (is_unavailable-proxy_status row env.clock in_use)) [ ]
  ]

  -- When the public endpoint answers with a manifest, the token resolves to a row whose account is
  -- active, the UUID of the row and the public key and host of the settings are filled, and the
  -- manifest is the one of this row and these settings, signed.
  pub subscription_response-manifest :
      (token : Text) (body : Json)
      → (subscription_response host env token db).0 ≡ ok (manifest body)
      → (row : ProxyRow) × (stored : ServerConfig) × (resolved token ≡ some row)
        × (proxy_status row env.clock ≡ ProxyAccountStatus.active)
        × (lacks_keys row (row_to_settings stored) ≡ false)
        × ((get_settings host env.ts db).0 ≡ ok stored)
        × (body
            ≡ signed_manifest host.platform
                (auth_secret_of host.config)
                row
                (row_to_settings stored)
                env.clock)
  subscription_response-manifest token body e = elim (Bool-cases (is_empty token)) [
    | inl empty ↦ elim (subscription_response-empty token empty body e) [ ]
    | inr filled ↦
        let (row, found, in_use, answered) =
          answer_row-manifest (resolved token) body
            (ap (λ r. r.0) (sym (subscription_response-answer token filled)) ∙ e) in
        let (stored, loaded, keys, same) = answer_subscription-manifest row body answered in
        (row, stored, found, is_unavailable-proxy_status row env.clock in_use, keys, loaded, same)
  ]

  -- A token that is not empty and resolves to no row, or to one whose account is disabled or
  -- expired, is answered with the cover page, and the database stays.
  pub subscription_response-cover :
      (token : Text)
      → is_empty token ≡ false
      → ((row : ProxyRow)
          → resolved token ≡ some row
          → proxy_status row env.clock ≢ ProxyAccountStatus.active)
      → subscription_response host env token db ≡ (ok cover, db)
  subscription_response-cover token filled unused =
      subscription_response-answer token filled ∙ answer_row-cover (resolved token) unused
