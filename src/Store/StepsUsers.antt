-- ===== src/Store/StepsUsers.antt =====
-- Each operation on the users is put together from the same few statements: what relates the
-- database before and after each of these relates it before and after the operation.
use cool_tunnel_server.Store.NewUser.{CreateUserInput}
use cool_tunnel_server.Store.Bootstrap.{
  use_token, prune_expired_bootstrap_tokens, insert_token, consume_bootstrap_token_hash, Consumed,
  first_owner, create_first_owner, create_bootstrap_token, refused, token_id, mark_used,
  require_consumed,
}
use cool_tunnel_server.Store.Accounts.{
  insert_user_row, insert_account_row, set_password, set_must_change, delete_other_sessions,
  set_last_login, delete_user_row, insert_user, create_user, reset_password, change_own_password,
  delete_user, mark_login,
}
use cool_tunnel_server.Store.Users.{Actor, UserPlan, UpdateUserInput}
use cool_tunnel_server.Security.Json.{Fields}
use cool_tunnel_server.Base.Texts.{Text}
use cool_tunnel_server.Store.Update.{
  update_user, write_update, set_user, delete_sessions_of, update_user_with,
}
use cool_tunnel_server.Store.Steps.{
  IsPreorder, Steps, return-Steps, step_rules, transaction-Steps, fail-Steps,
}
use cool_tunnel_server.Base.{ℕ, Bool, Option}
use cool_tunnel_server.Store.Db.{Db, AdminUser, BootstrapToken}
use cool_tunnel_server.Store.Monad.{Host, Env, audit_row}

-- The statements of the operations on the users.
pub record UserStatements (host : Host) (R : Db → Db → Type 0) : Type 0 where
  pub order : IsPreorder R
  pub audits :
      (at : ℕ) (actor : Option Text) (action : Text) (target_type target_id : Option Text)
      (detail : Fields) (db : Db)
      → R db (audit_row host at actor action target_type target_id detail db)
  pub sets_user :
      (env : Env) (id : Text) (plan : UserPlan) (db : Db) → R db (set_user env id plan db)
  pub deletes_sessions : (id : Text) (db : Db) → R db (delete_sessions_of id db)
  pub inserts_user : (row : AdminUser) (db : Db) → R db (insert_user_row row db)
  pub inserts_account :
      (env : Env) (row : AdminUser) (hash : Text) (db : Db)
      → R db (insert_account_row env row hash db)
  pub sets_password : (ts : ℕ) (id hash : Text) (db : Db) → R db (set_password ts id hash db)
  pub sets_must_change :
      (flag : Bool) (ts : ℕ) (id : Text) (db : Db) → R db (set_must_change flag ts id db)
  pub deletes_others : (id keep : Text) (db : Db) → R db (delete_other_sessions id keep db)
  pub sets_last_login : (ts : ℕ) (id : Text) (db : Db) → R db (set_last_login ts id db)
  pub deletes_user : (id : Text) (db : Db) → R db (delete_user_row id db)
  pub uses_token : (at : ℕ) (id : Text) (db : Db) → R db (use_token at id db)
  pub prunes_tokens : (now : ℕ) (db : Db) → R db (prune_expired_bootstrap_tokens now db)
  pub inserts_token : (row : BootstrapToken) (db : Db) → R db (insert_token row db)

module _ {host : Host} {R : Db → Db → Type 0} (s : UserStatements host R) where
  open s use {
    order, audits, sets_user, deletes_sessions, inserts_user, inserts_account, sets_password,
    sets_must_change, deletes_others, sets_last_login, deletes_user, uses_token, prunes_tokens,
    inserts_token,
  }

  pub update_user-Steps :
      (env : Env) (actor : Actor) (id : Text) (input : UpdateUserInput)
      → Steps R (update_user host env actor id input)
  unfolding update_user update_user_with write_update
  update_user-Steps env actor id input =
      search (step_rules, order, audits, sets_user, deletes_sessions) depth 14

  insert_user-Steps :
      (env : Env) (actor : Option Actor) (input : CreateUserInput)
      → Steps R (insert_user host env actor input)
  unfolding insert_user
  insert_user-Steps env actor input =
      search (step_rules, order, audits, inserts_user, inserts_account) depth 18

  pub create_user-Steps :
      (env : Env) (actor : Option Actor) (input : CreateUserInput)
      → Steps R (create_user host env actor input)
  unfolding create_user
  create_user-Steps env actor input = transaction-Steps order _ (insert_user-Steps env actor input)

  pub reset_password-Steps :
      (env : Env) (actor : Actor) (id hash : Text) → Steps R (reset_password host env actor id hash)
  unfolding reset_password
  reset_password-Steps env actor id hash =
      search (step_rules, order, audits, sets_password, sets_must_change, deletes_sessions) depth 16

  pub change_own_password-Steps :
      (env : Env) (id hash keep : Text) (ip : Option Text)
      → Steps R (change_own_password host env id hash keep ip)
  unfolding change_own_password
  change_own_password-Steps env id hash keep ip =
      search (step_rules, order, audits, sets_password, sets_must_change, deletes_others) depth 14

  pub delete_user-Steps :
      (env : Env) (actor : Actor) (id : Text) → Steps R (delete_user host env actor id)
  unfolding delete_user
  delete_user-Steps env actor id = search (step_rules, order, audits, deletes_user) depth 10

  pub mark_login-Steps :
      (env : Env) (id : Text) (ip : Option Text) → Steps R (mark_login host env id ip)
  unfolding mark_login
  mark_login-Steps env id ip = search (step_rules, order, audits, sets_last_login) depth 10

  mark_used-Steps : (env : Env) (c : Consumed) → Steps R (mark_used env c)
  unfolding mark_used
  mark_used-Steps env (refused reason) = return-Steps order _
  mark_used-Steps env (token_id id) = search (step_rules, order, uses_token)

  consume-Steps : (env : Env) (hash : Text) → Steps R (consume_bootstrap_token_hash env hash)
  unfolding consume_bootstrap_token_hash
  consume-Steps env hash = search (step_rules, order, mark_used-Steps)

  require_consumed-Steps : (c : Consumed) → Steps R (require_consumed c)
  unfolding require_consumed
  require_consumed-Steps (refused reason) = fail-Steps order _ _
  require_consumed-Steps (token_id id) = return-Steps order _

  first_owner-Steps :
      (env : Env) (input : CreateUserInput) (hash : Text)
      → Steps R (first_owner host env input hash)
  unfolding first_owner
  first_owner-Steps env input hash =
      search (step_rules, order, audits, consume-Steps, require_consumed-Steps, insert_user-Steps)
        depth 16

  pub create_first_owner-Steps :
      (env : Env) (input : CreateUserInput) (hash : Text)
      → Steps R (create_first_owner host env input hash)
  unfolding create_first_owner
  create_first_owner-Steps env input hash =
      transaction-Steps order _ (first_owner-Steps env input hash)

  pub create_bootstrap_token-Steps :
      (env : Env) (secret token fingerprint expires_text : Text) (ttl : ℕ)
      → Steps R (create_bootstrap_token host env secret token fingerprint expires_text ttl)
  unfolding create_bootstrap_token
  create_bootstrap_token-Steps env secret token fingerprint expires_text ttl =
      search (step_rules, order, audits, prunes_tokens, inserts_token) depth 16
