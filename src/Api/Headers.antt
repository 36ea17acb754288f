-- ===== src/Api/Headers.antt =====
-- apps/api/src/app.ts: the keys and tokens that requests are compared with.
use cool_tunnel_server.Base.{Bool, ◌&&◌, Option, some, none, [], ◌++◌, ltb, ◌==◌, if◌then◌else◌}
use cool_tunnel_server.Base.Texts.{Text, codes, is_empty, length, take}
use cool_tunnel_server.Security.Platform.{Platform}
use cool_tunnel_server.Security.Texts.{trim, split_on, starts_with}
use cool_tunnel_server.Security.Validate.{constant_time_equal}
use cool_tunnel_server.Store.Tokens.{or_empty}

-- `c.req.header("x-forwarded-for")` and `c.req.header("x-real-ip")`.
pub record ProxyHeaders : Type 0 where
  pub x_forwarded_for : Option Text
  pub x_real_ip : Option Text

-- `a || b`
abbrev pub or_text : Text → Text → Text
or_text a b = if is_empty a then b else a

-- `header?.split(",")[0]?.trim() ?? ""`
unfoldable pub forwarded : Option Text → Text
forwarded none = []
forwarded (some header) = trim (split_on (λ c. c == b',') header).0

unfoldable pub client_ip : ProxyHeaders → Option Text
unfolding forwarded
client_ip headers =
    let ip = or_text (forwarded headers.x_forwarded_for) (or_empty headers.x_real_ip) in
    if is_empty ip then none else some ip

unfoldable pub valid_login_csrf : Text → Text → Bool
valid_login_csrf value cookie_value =
    starts_with (codes "ctcsrf_") value
    && ltb 24 (length value)
    && constant_time_equal value cookie_value

module _ (platform : Platform) (auth_secret : Text) where
  open platform use {lower, hmac_hex}

  unfoldable pub login_throttle_key : ProxyHeaders → Text
  unfolding forwarded
  login_throttle_key headers = take 24 (
      hmac_hex auth_secret (
        or_text (forwarded headers.x_forwarded_for)
          (or_text (or_empty headers.x_real_ip) (codes "unknown"))))

  unfoldable pub account_throttle_key : Text → Text
  account_throttle_key email = take 24 (hmac_hex auth_secret (codes "acct:" ++ lower (trim email)))
