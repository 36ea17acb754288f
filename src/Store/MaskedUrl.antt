-- ===== src/Store/MaskedUrl.antt =====
-- packages/security/src/index.ts: what `maskSubscriptionUrl` leaves of a subscription URL.
use cool_tunnel_server.Base.{
  ℕ, ◌≡◌, refl, ap, ◌∙◌, ◌⊎◌, inl, inr, Bool, true, false, not, ◌||◌, some, none, [], ◌∷◌, ◌++◌,
  arith, ◌==◌, Bool-cases,
}
use cool_tunnel_server.Base.Texts.{Text, is_empty, codes}
use cool_tunnel_server.Security.Platform.{Platform}
use cool_tunnel_server.Security.Texts.{every, starts_with, strip_prefix, is_url_char}
use cool_tunnel_server.Store.Db.{ProxyRow}
use cool_tunnel_server.Store.Tokens.{
  drop_while, mask_subscription_path, mask_subscription_url, subscription_url_for, signed_text,
}

abbrev path : Text
path = codes "/api/v1/subscription/"

abbrev is_no_slash : ℕ → Bool
is_no_slash c = not (c == b'/')

drop_all : (s : Text) → every is_url_char s ≡ true → drop_while is_url_char s ≡ []
unfolding every drop_while
drop_all [] h = refl
drop_all (c ∷ s) h = ground (arith, drop_all s)

mask_at :
    (c : ℕ) (token : Text)
    → every is_url_char (c ∷ token) ≡ true
    → mask_subscription_path (path ++ (c ∷ token)) ≡ path ++ codes "<redacted>"
unfolding mask_subscription_path starts_with strip_prefix every drop_while
mask_at c token h = ground (arith, drop_all (c ∷ token) h)

mask_skip :
    (c : ℕ) (s : Text)
    → starts_with path (c ∷ s) ≡ false
    → mask_subscription_path (c ∷ s) ≡ c ∷ mask_subscription_path s
unfolding mask_subscription_path
mask_skip c s h = ground (arith, h)

mask_host :
    (panel tail : Text)
    → every is_no_slash panel ≡ true
    → mask_subscription_path (panel ++ tail) ≡ panel ++ mask_subscription_path tail
unfolding every starts_with
mask_host [] tail h = refl
mask_host (c ∷ panel) tail h =
    let skipped : starts_with path (c ∷ (panel ++ tail)) ≡ false = ground arith in
    mask_skip c (panel ++ tail) skipped ∙ ap (λ r. c ∷ r) (mask_host panel tail (ground arith))

-- The slash before the host does not begin the path.
host_start :
    (panel tail : Text)
    → every is_no_slash panel ≡ true
    → starts_with path (b'/' ∷ (panel ++ (path ++ tail))) ≡ false
unfolding every starts_with
host_start [] tail h = refl
host_start (a ∷ []) tail h = ground arith
host_start (a ∷ b ∷ []) tail h = ground arith
host_start (a ∷ b ∷ c ∷ []) tail h = ground arith
host_start (a ∷ b ∷ c ∷ d ∷ panel) tail h = ground arith

mask_url :
    (panel : Text) (c : ℕ) (token : Text)
    → every is_no_slash panel ≡ true
    → every is_url_char (c ∷ token) ≡ true
    → mask_subscription_path (codes "https://" ++ (panel ++ (path ++ (c ∷ token))))
      ≡ codes "https://" ++ (panel ++ (path ++ codes "<redacted>"))
unfolding mask_subscription_path starts_with
mask_url panel c token h k =
    ap (λ r. codes "https:/" ++ r)
      (mask_skip b'/' (panel ++ (path ++ (c ∷ token))) (host_start panel (c ∷ token) h)
        ∙ ap (λ r. b'/' ∷ r)
            (mask_host panel (path ++ (c ∷ token)) h ∙ ap (λ r. panel ++ r) (mask_at c token k)))

-- The masked form of an address whose token is made of URL characters.
abbrev pub masked_form : Text → Text
masked_form panel = codes "https://" ++ (panel ++ (path ++ codes "<redacted>"))

mask_token :
    (panel token : Text)
    → every is_no_slash panel ≡ true
    → every is_url_char token ≡ true
    → is_empty token ≡ false
    → mask_subscription_path (codes "https://" ++ (panel ++ (path ++ token))) ≡ masked_form panel
mask_token panel [] h k nonempty = cc
mask_token panel (c ∷ token) h k nonempty = mask_url panel c token h k

-- Where the panel's domain has no slash and the encoding gives URL characters, the masked form of an
-- account's subscription URL is none or the URL with `<redacted>` for the whole token: it does not
-- depend on the secrets of the account or the server.
pub mask_subscription_url-hides :
    (platform : Platform) (row : ProxyRow) (panel secret : Text)
    → ((s : Text) → every is_url_char (platform.to_base64url s) ≡ true)
    → every is_no_slash panel ≡ true
    → (mask_subscription_url (subscription_url_for platform row panel secret) ≡ none)
      ⊎ (mask_subscription_url (subscription_url_for platform row panel secret)
          ≡ some (masked_form panel))
unfolding mask_subscription_url subscription_url_for
mask_subscription_url-hides platform row panel secret law h =
    let token =
      platform.to_base64url (
        row.id ++ (b'.' ∷ platform.hmac_hex secret (signed_text row.id row.subscription_secret))) in
    elim (Bool-cases (is_empty row.id || is_empty secret)) [
      | inl e ↦ inl (ground (arith, e))
      | inr e ↦ elim (Bool-cases (is_empty token)) [
        | inl k ↦ inl (ground (arith, e, k))
        | inr k ↦
            let masked = mask_token panel token h (law _) k in inr (ground (arith, e, k, masked))
      ]
    ]
