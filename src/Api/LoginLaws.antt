-- ===== src/Api/LoginLaws.antt =====
-- What `POST /login` answers under too many failures.
use cool_tunnel_server.Base.{
  ℕ, ◌+◌, ◌≤◌, ◌<◌, ◌≡◌, refl, ◌∙◌, subst, true, false, Option, List, ◌∷◌, arith, leb,
}
use cool_tunnel_server.Base.Texts.{Text, is_empty, length}
use cool_tunnel_server.Store.Monad.{Host, Env}
use cool_tunnel_server.Api.Headers.{ProxyHeaders, valid_login_csrf, login_throttle_key}
use cool_tunnel_server.Api.Throttle.{
  Throttle, check_login_throttle, prune_throttle, attempts_over, prune_attempts, Attempt,
}
use cool_tunnel_server.Api.ThrottleLaws.{failures, AllBelow, is_fresh, attempts_over-pruned}
use cool_tunnel_server.Api.Login.{
  LoginForm, SignedIn, login_page, LoginState, check_request, post_login,
}

module _ (host : Host) (auth_secret : Text) where
  check_request-blocked :
      (now : ℕ) (headers : ProxyHeaders) (form : LoginForm) (t : Throttle)
      → attempts_over
          (prune_attempts now t.login_attempts)
          (login_throttle_key host.platform auth_secret headers)
          5
          now
        ≡ true
      → (check_request host auth_secret now headers form t).0.is_ok ≡ false
  unfolding check_request check_login_throttle prune_throttle
  check_request-blocked now headers form t h = rw h refl

  post_login-refused :
      (sign_in : LoginForm → Option SignedIn) (now answered : ℕ) (env : Env)
      (headers : ProxyHeaders) (form : LoginForm) (s : LoginState)
      → valid_login_csrf form.csrf form.csrf_cookie ≡ true
      → (check_request host auth_secret now headers form s.throttle).0.is_ok ≡ false
      → ((post_login host auth_secret sign_in now answered env headers form s).0 ≡ login_page 429)
        × ((post_login host auth_secret sign_in now answered env headers form s).1.db ≡ s.db)
  unfolding post_login
  post_login-refused sign_in now answered env headers form s csrf blocked = ground arith

  -- Where the form carries its CSRF token, the key of the address is not empty, five failures or
  -- more under it stand in the window that is still open, and the map of addresses holds at most
  -- 10,000 keys, the sign-in form is answered with 429, whatever the auth library would say, and
  -- the database stays.
  pub post_login-throttled :
      (sign_in : LoginForm → Option SignedIn) (now answered : ℕ) (env : Env)
      (headers : ProxyHeaders) (form : LoginForm) (s : LoginState) (earlier : List Attempt)
      (first : ℕ) (times : List ℕ)
      → valid_login_csrf form.csrf form.csrf_cookie ≡ true
      → is_empty (login_throttle_key host.platform auth_secret headers) ≡ false
      → s.throttle.login_attempts
        ≡ failures
            (login_throttle_key host.platform auth_secret headers)
            60000
            (first ∷ times)
            earlier
      → is_fresh earlier (login_throttle_key host.platform auth_secret headers) first ≡ true
      → AllBelow (first + 60000) times
      → now < first + 60000
      → 4 ≤ length times
      → length s.throttle.login_attempts ≤ 10000
      → ((post_login host auth_secret sign_in now answered env headers form s).0 ≡ login_page 429)
        × ((post_login host auth_secret sign_in now answered env headers form s).1.db ≡ s.db)
  post_login-throttled sign_in now answered env headers form s earlier first times csrf filled made
        fresh below live many few =
      post_login-refused sign_in now answered env headers form s csrf (
        check_request-blocked now headers form s.throttle (
          rw made (
            attempts_over-pruned (login_throttle_key host.platform auth_secret headers) 60000 filled
              earlier first times 5 now fresh below live (subst (λ m. length m ≤ 10000) made few)
            ∙ five)))
    where
      five : leb 5 (1 + length times) ≡ true
      five = ground arith
