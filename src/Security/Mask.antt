-- ===== src/Security/Mask.antt =====
-- packages/security/src/index.ts: `maskSensitive`. The rewriting of free text, `redactSensitive`,
-- is an argument.
use cool_tunnel_server.Base.{ℕ, ◌+◌, Bool, false, ◌||◌, List, [], ◌∷◌, map, if◌then◌else◌}
use cool_tunnel_server.Base.Texts.{Text, codes}
use cool_tunnel_server.Security.Platform.{Platform}
use cool_tunnel_server.Security.Texts.{includes_text, starts_with, ends_with, is_upper}
use cool_tunnel_server.Security.Json.{
  Json, null, bool, num, str, arr, obj, Items, nil, cons, Fields, end, field,
}

-- The case folding of a regular expression's `i` flag, on ASCII words.
abbrev fold_case : ℕ → ℕ
fold_case c = if is_upper c then c + 32 else c

-- The alternatives of `SECRETISH_KEY`, the optional dashes written out.
abbrev secretish_words : List Text
secretish_words =
    codes "password"
    ∷ codes "passwd"
    ∷ codes "pwd"
    ∷ codes "token"
    ∷ codes "secret"
    ∷ codes "cookie"
    ∷ codes "session"
    ∷ codes "authorization"
    ∷ codes "uuid"
    ∷ codes "subscription"
    ∷ codes "database_url"
    ∷ codes "db_url"
    ∷ codes "redis_url"
    ∷ codes "privatekey"
    ∷ codes "private_key"
    ∷ codes "private-key"
    ∷ codes "apikey"
    ∷ codes "api_key"
    ∷ codes "api-key"
    ∷ []

unfoldable pub includes_any : List Text → Text → Bool
unfolding includes_text starts_with
includes_any [] key = false
includes_any (word ∷ words) key = includes_text word key || includes_any words key

-- `SECRETISH_KEY.test(key)`
unfoldable pub is_secretish_key : Text → Bool
unfolding includes_any
is_secretish_key key = includes_any secretish_words (map fold_case key)

-- `SAFE_KEY_SUFFIXES`
abbrev safe_key_suffixes : List Text
safe_key_suffixes =
    codes "ValidUntil"
    ∷ codes "ExpiresAt"
    ∷ codes "CreatedAt"
    ∷ codes "UpdatedAt"
    ∷ codes "RotatedAt"
    ∷ codes "RevealedAt"
    ∷ codes "Fingerprint"
    ∷ codes "Hint"
    ∷ []

unfoldable pub ends_with_any : List Text → Text → Bool
unfolding ends_with
ends_with_any [] key = false
ends_with_any (suffix ∷ suffixes) key = ends_with suffix key || ends_with_any suffixes key

abbrev pub redacted_text : Text
redacted_text = codes "<redacted>"

module _ (platform : Platform) where
  open platform use {lower}

  unfoldable pub is_safe_metadata_key : Text → Bool
  unfolding ends_with_any
  is_safe_metadata_key key = ends_with_any (map lower safe_key_suffixes) (lower key)

  module _ (redact : Text → Text) where
    unfoldable mutual
      pub mask_sensitive : Json → Json
      mask_sensitive null = null
      mask_sensitive (bool b) = bool b
      mask_sensitive (num n) = num n
      mask_sensitive (str s) = str (redact s)
      mask_sensitive (arr items) = arr (mask_items items)
      mask_sensitive (obj fields) = obj (mask_fields fields)

      pub mask_items : Items → Items
      mask_items nil = nil
      mask_items (cons value items) = cons (mask_sensitive value) (mask_items items)

      pub mask_fields : Fields → Fields
      mask_fields end = end
      mask_fields (field key value fields) =
          field key
            (if is_safe_metadata_key key
              then mask_sensitive value
              else if is_secretish_key key
              then str redacted_text
              else mask_sensitive value)
            (mask_fields fields)
