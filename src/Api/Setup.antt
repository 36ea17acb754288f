-- ===== src/Api/Setup.antt =====
-- apps/api/src/app.ts: `POST /setup` and `POST /two-factor`; apps/api/src/jobs/audit-retention.ts.
use cool_tunnel_server.Security.Json.{field, str, num, end}
use cool_tunnel_server.Shared.Roles.{owner}
use cool_tunnel_server.Api.Login.{LoginOutcome, login_page, redirected, mark_signed_in}
use cool_tunnel_server.Api.Headers.{ProxyHeaders, valid_login_csrf}
use cool_tunnel_server.Security.Validate.{valid_bootstrap_token_shape, validate_password}
use cool_tunnel_server.Store.Audit.{prune_audit_log_older_than}
use cool_tunnel_server.Store.Bootstrap.{create_first_owner}
use cool_tunnel_server.Security.Texts.{trim}
use cool_tunnel_server.Api.Replies.{status_from_error}
use cool_tunnel_server.Api.Handlers.{Server}
use cool_tunnel_server.Store.Db.{AdminUser, Db}
use cool_tunnel_server.Base.{
  ℕ, ◌-◌, ◌*◌, false, not, ◌||◌, Option, some, none, ltb, leb, if◌then◌else◌,
}
use cool_tunnel_server.Base.Texts.{is_empty, Text, codes}
use cool_tunnel_server.Store.Monad.{M, ◌>>◌, fail_if, Env, audit_row}
use cool_tunnel_server.Store.Users.{has_owner}
use cool_tunnel_server.Base.Results.{
  Result, ok, throw, http_error, invalid_bootstrap_token, invalid_password,
}

-- The fields of the form, empty where they are missing, and the cookie with the token.
pub record SetupForm : Type 0 where
  pub token : Text
  pub token_cookie : Text
  pub email : Text
  pub username : Text
  pub name : Text
  pub password : Text

-- The page again under a status, or the redirect to the login page.
pub data SetupOutcome : Type 0 where
  setup_page : (status : ℕ) → SetupOutcome
  to_login : SetupOutcome

abbrev setup_answer : Result AdminUser → SetupOutcome
setup_answer (ok created) = to_login
setup_answer (throw e) = setup_page (status_from_error e)

-- `String(form.get("token") ?? "").trim() || cookie`
abbrev setup_token : SetupForm → Text
setup_token form = if is_empty (trim form.token) then form.token_cookie else trim form.token

module _ (server : Server) where
  -- The body of the `try` of `app.post("/setup", …)`.
  unfoldable pub try_setup : Env → SetupForm → M AdminUser
  unfolding create_first_owner
  try_setup env form = do
    fail_if (not (valid_bootstrap_token_shape (setup_token form)))
        (http_error invalid_bootstrap_token 403)
    fail_if (not (validate_password form.password)) (http_error invalid_password 400)
    create_first_owner server.host env
        (record {
          email = form.email;
          username = form.username;
          name = form.name;
          password_hash = server.hash_password form.password;
          role = owner;
          must_change_password = none;
        })
        (server.host.platform.hmac_hex server.config.auth_secret (setup_token form))

  -- `app.post("/setup", …)`
  unfoldable pub post_setup : Env → SetupForm → Db → SetupOutcome × Db
  unfolding try_setup has_owner
  post_setup env form db =
      if has_owner db
      then (setup_page 403, db)
      else let (outcome, after) = try_setup env form db in (setup_answer outcome, after)

  -- `app.post("/two-factor", …)`; `verified` is the answer of the auth library to the code, with
  -- the id of the user, and none where its status is no success.
  unfoldable pub post_two_factor :
      (verified : (method code : Text) → Option (Option Text))
      → Env
      → ProxyHeaders
      → (csrf csrf_cookie method code : Text) → Db
      → LoginOutcome × Db
  post_two_factor verified env headers csrf csrf_cookie method code db =
      if not (valid_login_csrf csrf csrf_cookie)
      then (login_page 403, db)
      else if is_empty (trim code)
      then (login_page 400, db)
      else elim (verified method (trim code)) [
        | none ↦ (login_page 401, db)
        | some user_id ↦ (
          redirected (codes "/dashboard"),
          mark_signed_in server.host env headers
              (record { needs_two_factor = false; user_id = user_id }) db,
        )
      ]

  -- `runAuditRetention`, with the text of the cutoff; a cutoff before the earliest instant throws.
  unfoldable pub run_audit_retention :
      (now retention_days audit_at : ℕ) → (cutoff_text : Text) → Db → Db
  unfolding prune_audit_log_older_than
  run_audit_retention now retention_days audit_at cutoff_text db =
      if leb retention_days 0 || ltb now (retention_days * 24 * 60 * 60 * 1000)
      then db
      else (let (deleted, pruned) =
            prune_audit_log_older_than (now - retention_days * 24 * 60 * 60 * 1000) db in
          audit_row server.host audit_at none (codes "job.audit_retention")
            (some (codes "audit_log")) none
            (field (codes "cutoffIso") (str cutoff_text) (
              field (codes "retentionDays") (num (server.host.platform.number_text retention_days))
                (field (codes "deleted") (num (server.host.platform.number_text deleted)) end)))
            pruned)
