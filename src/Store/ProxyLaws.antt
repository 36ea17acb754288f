-- ===== src/Store/ProxyLaws.antt =====
-- What the checks on the input of a proxy account establish, and what a rotation does.
use cool_tunnel_server.Base.{
  ℕ, ◌≤◌, ◌≡◌, sym, ◌∙◌, ◌≢◌, true, Option, some, none, [], ◌∷◌, arith, if◌then◌else◌,
}
use cool_tunnel_server.Base.Texts.{Text, is_empty}
use cool_tunnel_server.Security.Texts.{trim}
use cool_tunnel_server.Store.Users.{or_current}
use cool_tunnel_server.Base.Results.{ok}
use cool_tunnel_server.Security.Platform.{Platform}
use cool_tunnel_server.Security.Validate.{validate_username, normalize_username}
use cool_tunnel_server.Store.ProxyInput.{
  Number, whole, CreateProxyAccountInput, NormalProxyInput, normal_port, normal_label,
  normalize_proxy_input,
}

normal_port-range :
    (n : Number) (port : ℕ) → normal_port n ≡ ok port → (1024 ≤ port) × (port ≤ 65535)
unfolding normal_port
normal_port-range n port e = ground arith

normalize_username-valid :
    (value username : Text)
    → normalize_username value ≡ ok username
    → validate_username username ≡ true
unfolding normalize_username
normalize_username-valid value username e = ground arith

-- The trimmed label that is kept has a character.
kept_label-filled : (label : Text) → (if is_empty label then none else some label) ≢ some []
kept_label-filled [] e = cc
kept_label-filled (c ∷ label) e = cc

normal_label-filled : (label : Option Text) → normal_label label ≢ some []
normal_label-filled none e = cc
normal_label-filled (some label) e = kept_label-filled (trim label) e

normalize_proxy_input-parts :
    (platform : Platform) (input : CreateProxyAccountInput) (n : NormalProxyInput)
    → normalize_proxy_input platform input ≡ ok n
    → (normalize_username input.username ≡ ok n.username)
      × (normal_port (or_current input.client_default_local_port (whole 1080))
          ≡ ok n.client_default_local_port)
      × (n.label ≡ normal_label input.label)
unfolding normalize_proxy_input
normalize_proxy_input-parts platform input n e = ground arith

-- What `normalizeProxyInput` returns has a port from 1024 to 65535, a username that
-- `validateUsername` accepts, and no empty label.
pub normalize_proxy_input-valid :
    (platform : Platform) (input : CreateProxyAccountInput) (n : NormalProxyInput)
    → normalize_proxy_input platform input ≡ ok n
    → (1024 ≤ n.client_default_local_port)
      × (n.client_default_local_port ≤ 65535)
      × (validate_username n.username ≡ true)
      × (n.label ≢ some [])
normalize_proxy_input-valid platform input n e =
    let (username, port, label) = normalize_proxy_input-parts platform input n e in
    let (low, high) = normal_port-range _ n.client_default_local_port port in
    (
      low,
      high,
      normalize_username-valid input.username n.username username,
      λ empty. normal_label-filled input.label (sym label ∙ empty),
    )
