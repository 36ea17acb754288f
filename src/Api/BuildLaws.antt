-- ===== src/Api/BuildLaws.antt =====
-- apps/api/src/core-boundary.ts: what `buildServerRenderAccounts` returns.
use cool_tunnel_server.Api.RenderLaws.{same_account, vouches, listed-vouch}
use cool_tunnel_server.Api.Boundary.{
  RenderAccount, build_server_render_accounts, placeholder, or_placeholder, render_accounts_from,
}
use cool_tunnel_server.Api.Yields.{bind-throw, bind-ok}
use cool_tunnel_server.Base.Texts.{Text}
use cool_tunnel_server.Store.ProxyInput.{ProxyView}
use cool_tunnel_server.Store.Proxy.{list_proxy_accounts}
use cool_tunnel_server.Store.Db.{Db, ProxyRow, ServerConfig}
use cool_tunnel_server.Store.Status.{read_views, read_accounts}
use cool_tunnel_server.Store.Settings.{ensure_defaults}
use cool_tunnel_server.Base.{
  ℕ, ◌≤◌, ◌≡◌, refl, sym, ap, ◌∙◌, subst, ◌≢◌, inl, inr, false, List, [], ◌∷◌, arith, Option-cases,
}
use cool_tunnel_server.Base.Results.{ok-injective, ok, Result-cases}
use cool_tunnel_server.Base.Tables.{any, count, order_by}
use cool_tunnel_server.Store.Tokens.{row_has_id}
use cool_tunnel_server.Store.SettingsUpdate.{get_settings, load_settings}
use cool_tunnel_server.Store.Monad.{Host, Env, M, ◌>>=◌, ◌>>◌, return, fail, read, write}

module _ (host : Host) (env : Env) where
  get_settings-rows :
      (now : ℕ) (db : Db) → (get_settings host now db).1.proxy_accounts ≡ db.proxy_accounts
  unfolding get_settings load_settings ensure_defaults write return fail ◌>>=◌ ◌>>◌
  get_settings-rows now db = elim (Option-cases db.server_config) [
    | inr (row, e) ↦ ground (arith, e)
    | inl e ↦ elim (Option-cases host.config) [
      | inl k ↦ ground (arith, e, k)
      | inr (config, k) ↦ ground (arith, e, k)
    ]
  ]

  abbrev list_under : ServerConfig → M (List ProxyView)
  list_under settings = read (λ db. ok (list_proxy_accounts host env settings.panel_domain db))

  read_views-listed :
      (rows : List ProxyRow) (db : Db) (views : List ProxyView)
      → db.proxy_accounts ≡ rows
      → (read_views host env rows db).0 ≡ ok views
      → (panel_domain : Text) × (views
          ≡ list_proxy_accounts host env panel_domain (read_views host env rows db).1)
        × ((read_views host env rows db).1.proxy_accounts ≡ db.proxy_accounts)
  unfolding read_views read return list_proxy_accounts order_by
  read_views-listed [] db views same e = ([], sym (ok-injective [] views e) ∙ rw same refl, refl)
  read_views-listed (row ∷ rows) db views same e =
      elim (Result-cases (get_settings host env.ts db).0) [
        | inr (fault, k) ↦
            absurd (ground (arith, bind-throw list_under (get_settings host env.ts) db fault k))
        | inl (settings, k) ↦
            let step = bind-ok list_under (get_settings host env.ts) db settings k in
            (
              settings.panel_domain,
              ok-injective _ _ (sym e ∙ ap (λ r. r.0) step)
                  ∙ ap (λ r. list_proxy_accounts host env settings.panel_domain r.1) (sym step),
              ap (λ r. r.1.proxy_accounts) step ∙ get_settings-rows env.ts db,
            )
      ]

  or_placeholder-any :
      (a : RenderAccount) (accounts : List RenderAccount)
      → same_account a placeholder ≡ false
      → (any (same_account a) (or_placeholder accounts) ≡ any (same_account a) accounts)
        × (or_placeholder accounts ≢ [])
  unfolding any
  or_placeholder-any a [] h = (ground (arith, h), λ e. cc)
  or_placeholder-any a (b ∷ accounts) h = (refl, λ e. cc)

  abbrev from_views : List ProxyView → M (List RenderAccount)
  from_views views = read (λ db. ok (or_placeholder (render_accounts_from env.clock db views)))

  -- The users that `buildServerRenderAccounts` returns are never none, and but for the placeholder
  -- an account is among them exactly where some row vouches for it: a row with a valid id and a
  -- UUID that is enabled and has not expired, under its username with its current UUID, or under
  -- `<username>-prev` with the UUID before the rotation while the window of the rotation is open.
  -- The ids of the rows are unique.
  pub build-vouched :
      (db : Db) (a : RenderAccount) (accounts : List RenderAccount)
      → ((id : Text) → count (row_has_id id) db.proxy_accounts ≤ 1)
      → (build_server_render_accounts host env db).0 ≡ ok accounts
      → same_account a placeholder ≡ false
      → (accounts ≢ [])
        × (any (same_account a) accounts ≡ any (vouches env.clock a) db.proxy_accounts)
  unfolding build_server_render_accounts read_accounts read ◌>>=◌
  build-vouched db a accounts unique e other =
      elim (Result-cases (read_views host env db.proxy_accounts db).0) [
        | inr (fault, k) ↦ absurd (
            ground
              (arith, bind-throw from_views (read_views host env db.proxy_accounts) db fault k))
        | inl (views, k) ↦
            let (panel, is_list, rows) = read_views-listed db.proxy_accounts db views refl k in
            let after = (read_views host env db.proxy_accounts db).1 in
            let step = bind-ok from_views (read_views host env db.proxy_accounts) db views k in
            let built : or_placeholder
                  (render_accounts_from env.clock after (list_proxy_accounts host env panel after))
                ≡ accounts =
              ap (λ vs. or_placeholder (render_accounts_from env.clock after vs)) (sym is_list)
              ∙ ok-injective _ _ (sym (ap (λ r. r.0) step) ∙ e) in
            let (same_any, filled) =
              or_placeholder-any a
                (render_accounts_from env.clock after (list_proxy_accounts host env panel after))
                other in
            let vouch = listed-vouch host env panel a after (rw rows unique) in
            (
              subst (λ l. l ≢ []) built filled,
              ap (any (same_account a)) (sym built)
                  ∙ (same_any ∙ (vouch ∙ ap (any (vouches env.clock a)) rows)),
            )
      ]
