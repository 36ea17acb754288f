-- ===== src/Security/MaskLaws.antt =====
-- What is left of a value behind `maskSensitive`.
use cool_tunnel_server.Base.{◌≡◌, refl, Bool, true, false, not, ◌&&◌, ◌||◌, arith}
use cool_tunnel_server.Base.Texts.{Text, text_eq, text_eq_refl}
use cool_tunnel_server.Security.Platform.{Platform}
use cool_tunnel_server.Security.Json.{
  Json, null, bool, num, str, arr, obj, Items, nil, cons, Fields, end, field,
}
use cool_tunnel_server.Security.Mask.{
  is_secretish_key, is_safe_metadata_key, redacted_text, mask_sensitive, mask_items, mask_fields,
}

abbrev pub is_redacted : Json → Bool
is_redacted (str s) = text_eq s redacted_text
is_redacted _ = false

module _ (platform : Platform) where
  -- Every field at any depth whose key looks secret, and is not that of safe metadata, is redacted.
  unfoldable mutual
    pub hides_secrets : Json → Bool
    hides_secrets null = true
    hides_secrets (bool b) = true
    hides_secrets (num n) = true
    hides_secrets (str s) = true
    hides_secrets (arr items) = hides_secrets_items items
    hides_secrets (obj fields) = hides_secrets_fields fields

    pub hides_secrets_items : Items → Bool
    hides_secrets_items nil = true
    hides_secrets_items (cons value items) = hides_secrets value && hides_secrets_items items

    pub hides_secrets_fields : Fields → Bool
    hides_secrets_fields end = true
    hides_secrets_fields (field key value fields) =
        (is_safe_metadata_key platform key || not (is_secretish_key key) || is_redacted value)
        && hides_secrets value
        && hides_secrets_fields fields

  module _ (redact : Text → Text) where
    mutual
      unfolding mask_sensitive mask_items mask_fields hides_secrets hides_secrets_items
          hides_secrets_fields

      masked : (value : Json) → hides_secrets (mask_sensitive platform redact value) ≡ true
      masked null = refl
      masked (bool b) = refl
      masked (num n) = refl
      masked (str s) = refl
      masked (arr items) = masked_items items
      masked (obj fields) = masked_fields fields

      masked_items : (items : Items) → hides_secrets_items (mask_items platform redact items) ≡ true
      masked_items nil = refl
      masked_items (cons value items) = ground (arith, masked value, masked_items items)

      masked_fields :
          (fields : Fields) → hides_secrets_fields (mask_fields platform redact fields) ≡ true
      masked_fields end = refl
      masked_fields (field key value fields) =
          ground (arith, masked value, masked_fields fields, text_eq_refl redacted_text)

    -- In what `maskSensitive` returns, every field at any depth whose key looks secret, and is not
    -- that of safe metadata, is redacted.
    pub mask_sensitive-hides_secrets :
        (value : Json) → hides_secrets (mask_sensitive platform redact value) ≡ true
    mask_sensitive-hides_secrets value = masked value
