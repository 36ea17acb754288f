-- ===== src/Store/Tokens.antt =====
-- packages/db/src/store.ts: subscription tokens and URLs; packages/security/src/index.ts:
-- `maskSubscriptionUrl`.
use cool_tunnel_server.Base.Tables.{find?}
use cool_tunnel_server.Security.Validate.{constant_time_equal, first_meets, validate_id}
use cool_tunnel_server.Security.Platform.{Platform}
use cool_tunnel_server.Security.Texts.{
  split_on, strip_prefix, starts_with, includes_text, is_url_char,
}
use cool_tunnel_server.Base.{
  ℕ, Bool, not, ◌&&◌, ◌||◌, Option, some, none, [], ◌∷◌, ◌++◌, map, ◌==◌, if◌then◌else◌,
}
use cool_tunnel_server.Base.Texts.{Text, is_empty, text_eq, codes}
use cool_tunnel_server.Store.Db.{ProxyRow, Db}

-- `row.subscriptionSecret ? `${row.id}.${row.subscriptionSecret}` : row.id`
unfoldable pub signed_text : Text → Option Text → Text
signed_text id none = id
signed_text id (some secret) = if is_empty secret then id else id ++ (b'.' ∷ secret)

-- The part of a text in front of the first dot, and the part between the first dot and the second.
unfoldable pub dot_parts : Text → Text × Option Text
unfolding split_on
dot_parts s =
    let (first, rest) = split_on (λ c. c == b'.') s in
    (first, elim rest [ [] ↦ none | sig ∷ _ ↦ some sig ])

-- `token.replace(/-/g, "+").replace(/_/g, "/")`
unfoldable pub to_plain_base64 : Text → Text
to_plain_base64 = map λ c. if c == b'-' then b'+' else if c == b'_' then b'/' else c

abbrev pub or_empty : Option Text → Text
or_empty none = []
or_empty (some s) = s

abbrev pub row_has_id : Text → ProxyRow → Bool
row_has_id id row = text_eq row.id id

module _ (platform : Platform) where
  -- `subscriptionToken`, with the secret of the configuration.
  unfoldable pub subscription_token : Text → ProxyRow → Option Text
  subscription_token secret row =
      if is_empty secret
      then none
      else some (
          platform.to_base64url (
            row.id
            ++ (b'.' ∷ platform.hmac_hex secret (signed_text row.id row.subscription_secret))))

  -- The test behind the row that the token names.
  unfoldable pub signature_matches : Text → ProxyRow → Text → Option Text → Bool
  signature_matches secret row id sig =
      constant_time_equal
        (platform.hmac_hex secret (signed_text id (some (or_empty row.subscription_secret))))
        (or_empty sig)

  -- `resolveSubscriptionToken`
  unfoldable pub resolve_subscription_token : Text → Text → Db → Option ProxyRow
  unfolding dot_parts
  resolve_subscription_token secret token db =
      let decoded = platform.of_base64 (to_plain_base64 token) in
      let (id, sig) = dot_parts decoded in
      if not (includes_text (codes ".") decoded) || is_empty secret
      then none
      else if not (validate_id id)
      then none
      else elim (find? (row_has_id id) db.proxy_accounts) [
        | none ↦ none
        | some row ↦ if not (signature_matches secret row id sig) then none else some row
      ]

  -- `subscriptionUrlFor`
  unfoldable pub subscription_url_for : ProxyRow → Text → Text → Option Text
  subscription_url_for row panel_domain secret =
      let token = platform.to_base64url (
        row.id ++ (b'.' ∷ platform.hmac_hex secret (signed_text row.id row.subscription_secret))) in
      if is_empty row.id || is_empty secret
      then none
      else if is_empty token
      then none
      else some (codes "https://" ++ (panel_domain ++ (codes "/api/v1/subscription/" ++ token)))

abbrev subscription_path : Text
subscription_path = codes "/api/v1/subscription/"

unfoldable pub drop_while : (ℕ → Bool) → Text → Text
drop_while p [] = []
drop_while p (c ∷ s) = if p c then drop_while p s else c ∷ s

-- The first match is replaced.
unfoldable pub mask_subscription_path : Text → Text
unfolding drop_while strip_prefix starts_with
mask_subscription_path [] = []
mask_subscription_path (c ∷ s) =
    let rest = strip_prefix subscription_path (c ∷ s) in
    let later = c ∷ mask_subscription_path s in
    if starts_with subscription_path (c ∷ s) && first_meets is_url_char rest
    then subscription_path ++ (codes "<redacted>" ++ drop_while is_url_char rest)
    else later

-- `maskSubscriptionUrl`
unfoldable pub mask_subscription_url : Option Text → Option Text
mask_subscription_url none = none
mask_subscription_url (some url) = if is_empty url then none else some (mask_subscription_path url)
