-- ===== src/Api/RenderLaws.antt =====
-- apps/api/src/core-boundary.ts: which users `buildServerRenderAccounts` gives to the proxy.
use cool_tunnel_server.Store.Status.{is_listed}
use cool_tunnel_server.Shared.Roles.{ProtocolKey}
use cool_tunnel_server.Api.Subscription.{has_vless}
use cool_tunnel_server.Store.Proxy.{auth_secret_of, list_proxy_accounts}
use cool_tunnel_server.Store.Monad.{Host, Env}
use cool_tunnel_server.Store.ProxyInput.{
  is_expired, ProxyView, row_to_proxy_account, proxy_status, normalize_protocols,
}
use cool_tunnel_server.Security.Validate.{validate_id}
use cool_tunnel_server.Base.Texts.{text_eq, is_empty, Text, codes, text_eq→eq, text_eq_refl}
use cool_tunnel_server.Store.Db.{ProxyRow, Db}
use cool_tunnel_server.Api.Boundary.{
  RenderAccount, render_accounts_of, grace_account, render_accounts_from,
}
use cool_tunnel_server.Base.{
  ℕ, ◌≤◌, ◌≡◌, refl, inl, inr, Bool, true, false, not, ◌&&◌, ◌||◌, some, none, List, [], ◌∷◌, ◌++◌,
  arith, ltb, Bool-cases, Option-cases, map, ◌∙◌, ap,
}
use cool_tunnel_server.Base.Tables.{any, count, find?, order_by, insert_sorted}
use cool_tunnel_server.Store.Tokens.{row_has_id}

module _ {A : Type 0} (p : A → Bool) where
  any-append : (xs ys : List A) → any p (xs ++ ys) ≡ (any p xs || any p ys)
  unfolding any
  any-append [] ys = refl
  any-append (x ∷ xs) ys = ground (arith, any-append xs ys)

  any-insert_sorted :
      (before : A → A → Bool) (x : A) (xs : List A)
      → any p (insert_sorted before x xs) ≡ any p (x ∷ xs)
  unfolding any insert_sorted
  any-insert_sorted before x [] = refl
  any-insert_sorted before x (y ∷ ys) = ground (arith, any-insert_sorted before x ys)

  any-order_by : (before : A → A → Bool) (xs : List A) → any p (order_by before xs) ≡ any p xs
  unfolding any order_by
  any-order_by before [] = refl
  any-order_by before (x ∷ xs) =
      ground (arith, any-insert_sorted before x (order_by before xs), any-order_by before xs)

  not_any_of_count : (xs : List A) → count p xs ≡ 0 → any p xs ≡ false
  unfolding any count
  not_any_of_count [] h = refl
  not_any_of_count (x ∷ xs) h = ground (arith, not_any_of_count xs)

  any_of_find : (xs : List A) (x : A) → find? p xs ≡ some x → any p xs ≡ true
  unfolding any find?
  any_of_find [] x h = cc
  any_of_find (y ∷ ys) x h = ground (arith, any_of_find ys x)

abbrev pub same_account : RenderAccount → RenderAccount → Bool
same_account a b = text_eq a.username b.username && text_eq a.uuid b.uuid

-- The account stands for the UUID before a rotation, while its window is open.
unfoldable pub in_grace : ℕ → ProxyRow → RenderAccount → Bool
in_grace now row a = elim row.previous_uuid [
  | none ↦ false
  | some previous ↦ elim row.previous_uuid_valid_until [
    | none ↦ false
    | some until ↦
        ltb now until
        && not (is_empty previous)
        && not (text_eq previous row.uuid)
        && text_eq a.uuid previous
        && text_eq a.username (row.username ++ codes "-prev")
  ]
]

-- The row lets the account in: it is enabled and not expired, and the account is its username with
-- its UUID, or the one of its open window.
unfoldable pub vouches : ℕ → RenderAccount → ProxyRow → Bool
unfolding in_grace
vouches now a row =
    validate_id row.id
    && row.enabled
    && not (is_expired row.expires_at now)
    && not (is_empty row.uuid)
    && ((text_eq a.username row.username && text_eq a.uuid row.uuid) || in_grace now row a)

AllFound : List ProxyRow → List ProxyRow → Type 0
AllFound all [] = Unit {0}
AllFound all (row ∷ rows) = (find? (row_has_id row.id) all ≡ some row) × AllFound all rows

find-later :
    (r s : ProxyRow) (rs : List ProxyRow)
    → any (row_has_id r.id) rs ≡ false
    → find? (row_has_id s.id) rs ≡ some s
    → find? (row_has_id s.id) (r ∷ rs) ≡ some s
unfolding find?
find-later r s rs absent found = elim (Bool-cases (text_eq r.id s.id)) [
  | inr e ↦ ground (arith, e)
  | inl e ↦
      let here = any_of_find (row_has_id s.id) rs s found in
      let same = text_eq→eq r.id s.id e in
      let absent' : any (row_has_id s.id) rs ≡ false = rw same at absent in cc
]

AllFound-later :
    (r : ProxyRow) (rs rows : List ProxyRow)
    → any (row_has_id r.id) rs ≡ false
    → AllFound rs rows
    → AllFound (r ∷ rs) rows
unfolding AllFound
AllFound-later r rs [] absent h = tt
AllFound-later r rs (s ∷ rows) absent (found, h) =
    (find-later r s rs absent found, AllFound-later r rs rows absent h)

AllFound-self :
    (rows : List ProxyRow) → ((id : Text) → count (row_has_id id) rows ≤ 1) → AllFound rows rows
unfolding AllFound count find?
AllFound-self [] unique = tt
AllFound-self (r ∷ rs) unique = (
  ground (arith, text_eq_refl r.id),
  AllFound-later r rs rs
      (not_any_of_count (row_has_id r.id) rs (ground (arith, unique r.id, text_eq_refl r.id)))
      (AllFound-self rs (λ id. ground (arith, unique id))),
)

module _ (host : Host) (env : Env) (panel_domain : Text) where
  abbrev view : ProxyRow → ProxyView
  view row =
      row_to_proxy_account host.platform row panel_domain (auth_secret_of host.config) env.clock

  any-grace :
      (a : RenderAccount) (row : ProxyRow)
      → any (same_account a) (grace_account env.clock (view row) row) ≡ in_grace env.clock row a
  unfolding any grace_account row_to_proxy_account in_grace
  any-grace a row = elim (Option-cases row.previous_uuid) [
    | inl e ↦ ground (arith, e)
    | inr (previous, e) ↦ elim (Option-cases row.previous_uuid_valid_until) [
      | inl k ↦ ground (arith, e, k)
      | inr (until, k) ↦ ground (arith, e, k)
    ]
  ]

  listed-vless : (keys : List ProtocolKey) → has_vless (normalize_protocols keys) ≡ true
  unfolding has_vless normalize_protocols
  listed-vless [] = refl
  listed-vless (ProtocolKey.vless_reality ∷ keys) = refl

  status-listed :
      (row : ProxyRow)
      → is_listed (proxy_status row env.clock)
        ≡ (row.enabled && not (is_expired row.expires_at env.clock))
  unfolding proxy_status
  status-listed row = ground arith

  -- One round of the loop, on a row that is found again under its id.
  round-vouches :
      (a : RenderAccount) (db : Db) (row : ProxyRow)
      → find? (row_has_id row.id) db.proxy_accounts ≡ some row
      → any (same_account a) (render_accounts_of env.clock db (view row)) ≡ vouches env.clock a row
  unfolding any render_accounts_of row_to_proxy_account vouches
  round-vouches a db row found =
      ground (arith, found, any-grace a row, listed-vless row.enabled_protocols, status-listed row)

  rounds :
      (a : RenderAccount) (db : Db) (rows : List ProxyRow)
      → any (same_account a) (render_accounts_from env.clock db (map view rows))
        ≡ any (λ row. any (same_account a) (render_accounts_of env.clock db (view row))) rows
  unfolding any render_accounts_from
  rounds a db [] = refl
  rounds a db (row ∷ rows) =
      any-append (same_account a) (render_accounts_of env.clock db (view row))
        (render_accounts_from env.clock db (map view rows))
      ∙ ap (λ r. any (same_account a) (render_accounts_of env.clock db (view row)) || r)
          (rounds a db rows)

  rounds-vouch :
      (a : RenderAccount) (db : Db) (rows : List ProxyRow)
      → AllFound db.proxy_accounts rows
      → any (λ row. any (same_account a) (render_accounts_of env.clock db (view row))) rows
        ≡ any (vouches env.clock a) rows
  unfolding any AllFound
  rounds-vouch a db [] h = refl
  rounds-vouch a db (row ∷ rows) (found, h) =
      ground (arith, round-vouches a db row found, rounds-vouch a db rows h)

  pub listed-vouch :
      (a : RenderAccount) (db : Db)
      → ((id : Text) → count (row_has_id id) db.proxy_accounts ≤ 1)
      → any
          (same_account a)
          (render_accounts_from env.clock db (list_proxy_accounts host env panel_domain db))
        ≡ any (vouches env.clock a) db.proxy_accounts
  unfolding list_proxy_accounts
  listed-vouch a db unique =
      rounds a db (order_by (λ x y. ltb y.created_at x.created_at) db.proxy_accounts)
      ∙ (any-order_by (λ row. any (same_account a) (render_accounts_of env.clock db (view row)))
            (λ x y. ltb y.created_at x.created_at) db.proxy_accounts
          ∙ rounds-vouch a db db.proxy_accounts (AllFound-self db.proxy_accounts unique))
