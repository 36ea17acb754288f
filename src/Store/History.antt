-- ===== src/Store/History.antt =====
-- The calls that reach the database: those of the store, `auditLog` writes of apps/api/src/app.ts, and
-- the sessions that the auth library opens and ends. A history is a list of calls.
use cool_tunnel_server.Store.Audit.{prune_audit_log_older_than}
use cool_tunnel_server.Store.SettingsUpdate.{update_settings}
use cool_tunnel_server.Store.Proxy.{
  create_proxy_account, update_proxy_account, regenerate_proxy_uuid, reveal_proxy_subscription,
  delete_proxy_account,
}
use cool_tunnel_server.Security.Json.{Fields}
use cool_tunnel_server.Store.Sessions.{create_session, delete_sessions}
use cool_tunnel_server.Config.{AdminConfig}
use cool_tunnel_server.Store.Settings.{SettingsInput, ensure_defaults, record_render}
use cool_tunnel_server.Store.Bootstrap.{create_bootstrap_token, create_first_owner}
use cool_tunnel_server.Store.ProxyInput.{CreateProxyAccountInput, UpdateProxyAccountInput}
use cool_tunnel_server.Store.NewUser.{CreateUserInput}
use cool_tunnel_server.Store.Accounts.{
  create_user, reset_password, change_own_password, delete_user, mark_login,
}
use cool_tunnel_server.Base.Texts.{Text}
use cool_tunnel_server.Store.Update.{update_user}
use cool_tunnel_server.Store.Users.{Actor, UpdateUserInput}
use cool_tunnel_server.Store.Monad.{Env, Host, audit_row}
use cool_tunnel_server.Base.{ℕ, Bool, Option, List, [], ◌∷◌}
use cool_tunnel_server.Store.Db.{Db, Session}

pub data Call : Type 0 where
  updates : Env → Actor → Text → UpdateUserInput → Call
  creates : Env → Option Actor → CreateUserInput → Call
  resets : Env → Actor → Text → Text → Call
  changes_password : Env → Text → Text → Text → Option Text → Call
  deletes : Env → Actor → Text → Call
  logs_in : Env → Text → Option Text → Call
  makes_token : Env → Text → Text → Text → Text → ℕ → Call
  bootstraps : Env → CreateUserInput → Text → Call
  opens_session : Session → Call
  ends_sessions : (Session → Bool) → Call
  makes_proxy : Env → Actor → CreateProxyAccountInput → Call
  changes_proxy : Env → Actor → Text → UpdateProxyAccountInput → Call
  rotates_proxy : Env → Actor → Text → Text → Call
  reveals_proxy : Env → Actor → Text → Call
  drops_proxy : Env → Actor → Text → Call
  sets_settings : Env → Actor → SettingsInput → Call
  makes_defaults : AdminConfig → ℕ → Call
  audits : ℕ → Option Text → Text → Option Text → Option Text → Fields → Call
  prunes_audit : ℕ → Call
  records_render : Text → ℕ → ℕ → Call

module _ (host : Host) where
  -- The database behind a call, whether it returned or threw.
  unfoldable pub run_call : Call → Db → Db
  run_call (updates env actor id input) db = (update_user host env actor id input db).1
  run_call (creates env actor input) db = (create_user host env actor input db).1
  run_call (resets env actor id hash) db = (reset_password host env actor id hash db).1
  run_call (changes_password env id hash keep ip) db =
      (change_own_password host env id hash keep ip db).1
  run_call (deletes env actor id) db = (delete_user host env actor id db).1
  run_call (logs_in env id ip) db = (mark_login host env id ip db).1
  run_call (makes_token env secret token fingerprint expires_text ttl) db =
      (create_bootstrap_token host env secret token fingerprint expires_text ttl db).1
  run_call (bootstraps env input hash) db = (create_first_owner host env input hash db).1
  run_call (opens_session s) db = create_session s db
  run_call (ends_sessions p) db = delete_sessions p db
  run_call (makes_proxy env actor input) db = (create_proxy_account host env actor input db).1
  run_call (changes_proxy env actor id input) db =
      (update_proxy_account host env actor id input db).1
  run_call (rotates_proxy env actor until id) db =
      (regenerate_proxy_uuid host env actor until id db).1
  run_call (reveals_proxy env actor id) db = (reveal_proxy_subscription host env actor id db).1
  run_call (drops_proxy env actor id) db = (delete_proxy_account host env actor id db).1
  run_call (sets_settings env actor input) db = (update_settings host env actor input db).1
  run_call (makes_defaults config now) db = ensure_defaults config now db
  run_call (audits at actor action target_type target_id detail) db =
      audit_row host at actor action target_type target_id detail db
  run_call (prunes_audit cutoff) db = (prune_audit_log_older_than cutoff db).1
  run_call (records_render hash at updated) db = record_render hash at updated db

  unfoldable pub history : List Call → Db → Db
  unfolding run_call
  history [] db = db
  history (c ∷ cs) db = history cs (run_call c db)
