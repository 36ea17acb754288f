-- ===== src/Examples/SecurityCases.antt =====
-- The theorems on `maskSensitive` at a value with a secret in it.
use cool_tunnel_server.Base.{◌≡◌, true}
use cool_tunnel_server.Base.Texts.{codes}
use cool_tunnel_server.Security.Json.{Json, num, str, obj, end, field}
use cool_tunnel_server.Security.Mask.{mask_sensitive}
use cool_tunnel_server.Security.MaskLaws.{hides_secrets, mask_sensitive-hides_secrets}
use cool_tunnel_server.Examples.{platform}

abbrev detail : Json
detail = obj (
    field (codes "username") (str (codes "u"))
      (field (codes "nested") (obj (field (codes "token") (num (codes "1")) end)) end))

mask_sensitive-hides_secrets_example :
    hides_secrets platform (mask_sensitive platform (λ s. s) detail) ≡ true
mask_sensitive-hides_secrets_example = mask_sensitive-hides_secrets platform (λ s. s) detail
