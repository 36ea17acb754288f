-- ===== src/Api/Login.antt =====
-- apps/api/src/app.ts: the order of the checks of `POST /login`. The password check of the auth
-- library is an argument.
use cool_tunnel_server.Base.{ℕ, Bool, not, ◌||◌, Option, some, none, [], if◌then◌else◌}
use cool_tunnel_server.Base.Texts.{Text, is_empty, codes}
use cool_tunnel_server.Store.Db.{Db}
use cool_tunnel_server.Store.Monad.{Host, Env}
use cool_tunnel_server.Store.Accounts.{mark_login}
use cool_tunnel_server.Api.Headers.{
  client_ip, ProxyHeaders, valid_login_csrf, login_throttle_key, account_throttle_key,
}
use cool_tunnel_server.Api.Throttle.{
  Throttle, LoginThrottle, check_login_throttle, record_failed_login, clear_login_throttle,
}

pub record LoginForm : Type 0 where
  pub email : Text
  pub password : Text
  pub csrf : Text
  pub csrf_cookie : Text

-- An ok response of the auth library: `body.twoFactorRedirect === true` and `body.user.id`.
pub record SignedIn : Type 0 where
  pub needs_two_factor : Bool
  pub user_id : Option Text

-- The answer: the login page again under a status, or the redirect with the session's cookies.
pub data LoginOutcome : Type 0 where
  login_page : (status : ℕ) → LoginOutcome
  redirected : (location : Text) → LoginOutcome

-- What the handler changes: the maps of attempts and the database.
pub record LoginState : Type 0 where
  pub throttle : Throttle
  pub db : Db

module _ (host : Host) where
  -- `if (!needsTwoFactor && body?.user?.id) store.markLogin(…)`
  unfoldable pub mark_signed_in : Env → ProxyHeaders → SignedIn → Db → Db
  mark_signed_in env headers signed_in db = elim signed_in.user_id [
    | none ↦ db
    | some id ↦
        if signed_in.needs_two_factor || is_empty id
        then db
        else (mark_login host env id (client_ip headers) db).1
  ]

  -- From the answer of the auth library on; `answered` is the clock of `recordFailedLogin`.
  unfoldable pub after_sign_in :
      (answered : ℕ)
      → Env
      → ProxyHeaders
      → Option SignedIn
      → LoginThrottle
      → LoginState
      → LoginOutcome × LoginState
  after_sign_in answered env headers none throttle s =
      (login_page 401, record s { throttle = record_failed_login answered throttle s.throttle })
  after_sign_in answered env headers (some signed_in) throttle s = (
    redirected (if signed_in.needs_two_factor then codes "/two-factor" else codes "/dashboard"),
    record {
      throttle = clear_login_throttle throttle s.throttle;
      db = mark_signed_in env headers signed_in s.db;
    },
  )

  module _ (auth_secret : Text) where
    -- The keys that `checkLoginThrottle` draws from the request.
    unfoldable pub check_request :
        ℕ → ProxyHeaders → LoginForm → Throttle → LoginThrottle × Throttle
    check_request now headers form t =
        check_login_throttle now (login_throttle_key host.platform auth_secret headers)
          (if is_empty form.email
            then []
            else account_throttle_key host.platform auth_secret form.email)
          t

    -- `app.post("/login", …)`
    unfoldable pub post_login :
        (sign_in : LoginForm → Option SignedIn) (now answered : ℕ)
        → Env
        → ProxyHeaders
        → LoginForm
        → LoginState
        → LoginOutcome × LoginState
    post_login sign_in now answered env headers form s =
        let (throttle, pruned) = check_request now headers form s.throttle in
        let checked : LoginState = record s { throttle = pruned } in
        if not (valid_login_csrf form.csrf form.csrf_cookie)
        then (login_page 403, s)
        else if not throttle.is_ok
        then (login_page 429, checked)
        else after_sign_in answered env headers (sign_in form) throttle checked
