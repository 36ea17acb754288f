-- ===== src/Security/Platform.antt =====
-- What the program takes from the JavaScript runtime, as parameters.
use cool_tunnel_server.Base.{ℕ, Bool, Option}
use cool_tunnel_server.Base.Results.{Result}
use cool_tunnel_server.Base.Texts.{Text}
use cool_tunnel_server.Security.Json.{Json}

-- Instants are milliseconds counted from the earliest instant that a `Date` can hold.
pub record Platform : Type 0 where
  -- `String.prototype.toLowerCase`
  pub lower : Text → Text
  -- `Date.parse`, `none` for NaN
  pub parse_date : Text → Option ℕ
  -- `new URL(value).protocol`, `none` where the constructor throws
  pub url_protocol : Text → Option Text
  -- `createHmac("sha256", key).update(message).digest("hex")`
  pub hmac_hex : Text → Text → Text
  -- `Buffer.from(text).toString("base64url")`
  pub to_base64url : Text → Text
  -- `Buffer.from(text, "base64").toString("utf8")`
  pub of_base64 : Text → Text
  -- `Math.floor(at / 1000)` of the milliseconds since 1970
  pub unix_seconds : ℕ → ℕ
  -- `JSON.stringify` of a natural number
  pub number_text : ℕ → Text
  -- `JSON.stringify`
  pub json_text : Json → Text
  -- `String(value)`, which throws on an object that hides `toString`
  pub to_text : Json → Result Text
  -- `Number(value)`, which throws likewise; `none` for what is no natural number
  pub to_natural : Json → Result (Option ℕ)
  -- Whether a literal is a zero.
  pub is_zero : Text → Bool
  -- `text.replaceAll(search, replacement)`, in that order
  pub replace_all : Text → Text → Text → Text
