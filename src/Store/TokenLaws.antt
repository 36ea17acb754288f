-- ===== src/Store/TokenLaws.antt =====
-- Subscription tokens lead back to the row that they were made for, and to no other.
use cool_tunnel_server.Base.{
  ℕ, ◌≡◌, refl, sym, subst, Bool, true, false, Option, some, [], ◌∷◌, ◌++◌, arith, ltb, ◌==◌,
}
use cool_tunnel_server.Base.Texts.{Text, text_eq→eq, text_eq_refl, is_empty, codes}
use cool_tunnel_server.Base.Tables.{find?, find?-some}
use cool_tunnel_server.Security.Platform.{Platform}
use cool_tunnel_server.Security.Texts.{
  every, split_on, includes_text, starts_with, is_url_char, is_lower_hex,
}
use cool_tunnel_server.Security.Validate.{validate_id, constant_time_equal}
use cool_tunnel_server.Store.Db.{Db, ProxyRow}
use cool_tunnel_server.Store.Tokens.{
  signed_text, dot_parts, to_plain_base64, or_empty, row_has_id, subscription_token,
  signature_matches, resolve_subscription_token,
}

split-sig : (sig : Text) → every is_lower_hex sig ≡ true → split_on (λ c. c == b'.') sig ≡ (sig, [])
unfolding split_on every
split-sig [] h = refl
split-sig (c ∷ sig) h = ground (arith, split-sig sig)

split-token :
    (id sig : Text)
    → every is_url_char id ≡ true
    → every is_lower_hex sig ≡ true
    → split_on (λ c. c == b'.') (id ++ (b'.' ∷ sig)) ≡ (id, sig ∷ [])
unfolding split_on every
split-token [] sig h k = ground (arith, split-sig sig)
split-token (c ∷ id) sig h k = ground (arith, split-token id sig)

dot_parts-token :
    (id sig : Text)
    → every is_url_char id ≡ true
    → every is_lower_hex sig ≡ true
    → dot_parts (id ++ (b'.' ∷ sig)) ≡ (id, some sig)
unfolding dot_parts
dot_parts-token id sig h k = ground (arith, split-token id sig)

has_dot : (id sig : Text) → includes_text (codes ".") (id ++ (b'.' ∷ sig)) ≡ true
unfolding includes_text starts_with
has_dot [] sig = ground arith
has_dot (c ∷ id) sig = ground (arith, has_dot id sig)

signed-secret :
    (id : Text) (secret : Option Text)
    → signed_text id (some (or_empty secret)) ≡ signed_text id secret
unfolding signed_text
signed-secret id secret = ground arith

abbrev pub is_ascii : ℕ → Bool
is_ascii c = ltb c 128

every-append :
    (p : ℕ → Bool) (s t : Text) → every p s ≡ true → every p t ≡ true → every p (s ++ t) ≡ true
unfolding every
every-append p [] t h k = k
every-append p (c ∷ s) t h k = ground (arith, every-append p s t)

every-weaken :
    (p q : ℕ → Bool)
    → ((c : ℕ) → p c ≡ true → q c ≡ true)
    → (s : Text) → every p s ≡ true
    → every q s ≡ true
unfolding every
every-weaken p q w [] h = refl
every-weaken p q w (c ∷ s) h = ground (arith, w c, every-weaken p q w s)

token-ascii :
    (id sig : Text)
    → every is_url_char id ≡ true
    → every is_lower_hex sig ≡ true
    → every is_ascii (id ++ (b'.' ∷ sig)) ≡ true
unfolding every
token-ascii id sig h k =
    every-append is_ascii id (b'.' ∷ sig)
      (every-weaken is_url_char is_ascii (λ c e. ground arith) id h)
      (every-weaken is_lower_hex is_ascii (λ c e. ground arith) sig k)

module _ (platform : Platform) (secret : Text) where
  abbrev signature : ProxyRow → Text
  signature row = platform.hmac_hex secret (signed_text row.id row.subscription_secret)

  signature_matches-own :
      (row : ProxyRow) → signature_matches platform secret row row.id (some (signature row)) ≡ true
  unfolding signature_matches constant_time_equal
  signature_matches-own row = rw (signed-secret row.id row.subscription_secret) (text_eq_refl _)

  resolve-decoded :
      (row : ProxyRow) (db : Db) (token id sig : Text)
      → platform.of_base64 (to_plain_base64 token) ≡ id ++ (b'.' ∷ sig)
      → dot_parts (id ++ (b'.' ∷ sig)) ≡ (id, some sig)
      → includes_text (codes ".") (id ++ (b'.' ∷ sig)) ≡ true
      → is_empty secret ≡ false
      → validate_id id ≡ true
      → find? (row_has_id id) db.proxy_accounts ≡ some row
      → signature_matches platform secret row id (some sig) ≡ true
      → resolve_subscription_token platform secret token db ≡ some row
  unfolding resolve_subscription_token
  resolve-decoded row db token id sig decoded parts dot filled valid found matches =
      rw decoded (ground arith)

  -- Where the runtime reads back the base64 that it wrote for ASCII texts, and its HMAC digests are
  -- in lower-case hexadecimal, the token made for a row resolves to the row, provided that its id
  -- is valid and in URL characters and that it is the first row with this id.
  pub resolve_subscription_token-subscription_token :
      ((s : Text)
        → every is_ascii s ≡ true
        → platform.of_base64 (to_plain_base64 (platform.to_base64url s)) ≡ s)
      → ((key message : Text) → every is_lower_hex (platform.hmac_hex key message) ≡ true)
      → (row : ProxyRow) (db : Db) (token : Text) → validate_id row.id ≡ true
      → every is_url_char row.id ≡ true
      → find? (row_has_id row.id) db.proxy_accounts ≡ some row
      → subscription_token platform secret row ≡ some token
      → resolve_subscription_token platform secret token db ≡ some row
  unfolding subscription_token
  resolve_subscription_token-subscription_token base64 hex row db token valid url found made =
      let digits = hex secret (signed_text row.id row.subscription_secret) in
      let text = row.id ++ (b'.' ∷ signature row) in
      let filled : is_empty secret ≡ false = ground arith in
      let same : platform.to_base64url text ≡ token = ground arith in
      resolve-decoded row db token row.id (signature row)
        (subst (λ t. platform.of_base64 (to_plain_base64 t) ≡ text) same
          (base64 text (token-ascii row.id (signature row) url digits)))
        (dot_parts-token row.id (signature row) url digits) (has_dot row.id (signature row)) filled
        valid found (signature_matches-own row)

  abbrev decoded_parts : Text → Text × Option Text
  decoded_parts token = dot_parts (platform.of_base64 (to_plain_base64 token))

  resolve-found :
      (token : Text) (db : Db) (row : ProxyRow)
      → resolve_subscription_token platform secret token db ≡ some row
      → (find? (row_has_id (decoded_parts token).0) db.proxy_accounts ≡ some row)
        × (signature_matches platform secret row (decoded_parts token).0 (decoded_parts token).1
            ≡ true)
        × (is_empty secret ≡ false)
  unfolding resolve_subscription_token
  resolve-found token db row e = ground arith

  -- A token that resolves to a row carries the id of the row in front of its first dot and, behind
  -- it, the signature under the secret of the server, which is not empty, and that of the row; and
  -- the row is the first with this id.
  pub resolve_subscription_token_sound :
      (token : Text) (db : Db) (row : ProxyRow)
      → resolve_subscription_token platform secret token db ≡ some row
      → (find? (row_has_id row.id) db.proxy_accounts ≡ some row)
        × ((decoded_parts token).0 ≡ row.id)
        × (signature_matches platform secret row row.id (decoded_parts token).1 ≡ true)
        × (is_empty secret ≡ false)
  resolve_subscription_token_sound token db row e =
      let (found, matches, filled) = resolve-found token db row e in
      let (id, _) = find?-some (row_has_id (decoded_parts token).0) db.proxy_accounts row found in
      let same : row.id ≡ (decoded_parts token).0 = text_eq→eq row.id (decoded_parts token).0 id in
      (
        subst (λ i. find? (row_has_id i) db.proxy_accounts ≡ some row) (sym same) found,
        sym same,
        subst (λ i. signature_matches platform secret row i (decoded_parts token).1 ≡ true)
            (sym same) matches,
        filled,
      )
