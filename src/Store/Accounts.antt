-- ===== src/Store/Accounts.antt =====
-- packages/db/src/store.ts: creating and deleting users, passwords and sign-ins.
use cool_tunnel_server.Base.{
  ℕ, Bool, true, false, not, ◌&&◌, ◌||◌, Option, some, none, List, ltb, if◌then◌else◌,
}
use cool_tunnel_server.Base.Texts.{Text, text_eq, is_empty, codes}
use cool_tunnel_server.Base.Tables.{any, update_where, delete_where, insert_row, order_by}
use cool_tunnel_server.Base.Results
use cool_tunnel_server.Base.Results.{
  Result, ok, throw, store_error, forbidden, duplicate_user, cannot_delete_self,
}
use cool_tunnel_server.Security.Json.{str, Fields, end, field}
use cool_tunnel_server.Shared.Roles.{owner, disabled, role_eq, can_manage_target}
use cool_tunnel_server.Store.Db.{Db, AdminUser, Account}
use cool_tunnel_server.Store.Monad.{
  M, ◌>>=◌, ◌>>◌, return, read, write, fail_if, write_unless, transaction, Env, Host, audit_row,
}
use cool_tunnel_server.Store.Users.{
  Actor, require_user, has_id, role_text, assert_last_owner_preserved,
}
use cool_tunnel_server.Store.Update.{delete_sessions_of}
use cool_tunnel_server.Store.NewUser.{CreateUserInput, new_user}

-- The UNIQUE constraints of an INSERT into `user`.
unfoldable pub insert_conflicts : AdminUser → Db → Bool
insert_conflicts row db =
    any (has_id row.id) db.users
    || any (λ u. text_eq u.email row.email) db.users
    || any (λ u. text_eq u.username row.username) db.users

abbrev pub credential : Text
credential = codes "credential"

abbrev pub is_credential_of : Text → Account → Bool
is_credential_of user_id account =
    text_eq account.user_id user_id && text_eq account.provider_id credential

unfoldable pub insert_user_row : AdminUser → Db → Db
insert_user_row row db = record db { users = insert_row row db.users }

unfoldable pub insert_account_row : Env → AdminUser → Text → Db → Db
insert_account_row env row password_hash db = record db {
  accounts =
      insert_row
        (record {
          id = env.account_id;
          account_id = row.id;
          provider_id = credential;
          user_id = row.id;
          password = some password_hash;
          created_at = env.ts;
          updated_at = env.ts;
        })
        db.accounts;
}

-- `UPDATE account SET password = …`
unfoldable pub set_password : ℕ → Text → Text → Db → Db
set_password ts user_id password_hash db = record db {
  accounts =
      update_where (is_credential_of user_id)
        (λ a. record a { password = some password_hash; updated_at = ts }) db.accounts;
}

-- `UPDATE user SET mustChangePassword = …`
unfoldable pub set_must_change : Bool → ℕ → Text → Db → Db
set_must_change flag ts user_id db = record db {
  users =
      update_where (has_id user_id) (λ u. record u { must_change_password = flag; updated_at = ts })
        db.users;
}

-- `DELETE FROM session WHERE userId = ? AND token != ?`
unfoldable pub delete_other_sessions : Text → Text → Db → Db
delete_other_sessions user_id keep_session_token db = record db {
  sessions =
      delete_where (λ s. text_eq s.user_id user_id && not (text_eq s.token keep_session_token))
        db.sessions;
}

-- `UPDATE user SET lastLoginAt = ?, updatedAt = ?`
unfoldable pub set_last_login : ℕ → Text → Db → Db
set_last_login ts user_id db = record db {
  users =
      update_where (has_id user_id) (λ u. record u { last_login_at = some ts; updated_at = ts })
        db.users;
}

-- `DELETE FROM user WHERE id = ?`, with its cascades.
unfoldable pub delete_user_row : Text → Db → Db
delete_user_row user_id db = record db {
  users = delete_where (has_id user_id) db.users;
  sessions = delete_where (λ s. text_eq s.user_id user_id) db.sessions;
  accounts = delete_where (λ a. text_eq a.user_id user_id) db.accounts;
}

abbrev pub ip_detail : Option Text → Fields
ip_detail none = end
ip_detail (some ip) = if is_empty ip then end else field (codes "ip") (str ip) end

abbrev pub actor_id : Option Actor → Option Text
actor_id none = none
actor_id (some actor) = some actor.id

abbrev user_target : Option Text
user_target = some (codes "user")

-- `SELECT * FROM user ORDER BY role = 'owner' DESC, createdAt DESC`
abbrev lists_before : AdminUser → AdminUser → Bool
lists_before a b =
    if role_eq a.role owner
    then not (role_eq b.role owner) || ltb b.created_at a.created_at
    else not (role_eq b.role owner) && ltb b.created_at a.created_at

unfoldable pub list_users : Db → List AdminUser
unfolding order_by
list_users db = order_by lists_before db.users

-- The checks of `deleteUser`.
unfoldable pub check_delete : Actor → Text → Db → Result AdminUser
check_delete actor id db = Results.◌>>=◌ (require_user id db) λ target.
    if text_eq actor.id target.id
    then throw (store_error cannot_delete_self 400)
    else if not (role_eq actor.role owner)
    then throw (store_error forbidden 403)
    else Results.◌>>◌ (assert_last_owner_preserved target none disabled db) (ok target)

module _ (host : Host) where
  -- `insertUser`
  unfoldable pub insert_user : Env → Option Actor → CreateUserInput → M AdminUser
  insert_user env actor input = do
    row ← read (λ db. new_user host env actor input)
    conflict ← read (λ db. ok (insert_conflicts row db))
    write_unless conflict (store_error duplicate_user 409) (insert_user_row row)
    taken ← read (λ db. ok (any (λ a. text_eq a.id env.account_id) db.accounts))
    write_unless taken (store_error duplicate_user 409)
        (insert_account_row env row input.password_hash)
    user ← read (require_user row.id)
    write (
        audit_row host env.audit_at (actor_id actor) (codes "user.created") user_target
          (some user.id)
          (field (codes "username") (str user.username)
            (field (codes "role") (str (role_text user.role)) end)))
    return user

  unfoldable pub create_user : Env → Option Actor → CreateUserInput → M AdminUser
  create_user env actor input = transaction (insert_user env actor input)

  unfoldable pub reset_password : Env → Actor → Text → Text → M AdminUser
  reset_password env actor id password_hash = do
    target ← read (require_user id)
    fail_if (not (can_manage_target actor.role target.role)) (store_error forbidden 403)
    write (set_password env.ts id password_hash)
    write (set_must_change true env.ts id)
    write (delete_sessions_of id)
    updated ← read (require_user id)
    write (
        audit_row host env.audit_at (some actor.id) (codes "user.password_reset") user_target
          (some id) end)
    return updated

  unfoldable pub change_own_password : Env → Text → Text → Text → Option Text → M (Unit {0})
  change_own_password env user_id password_hash keep_session_token ip = do
    write (set_password env.ts user_id password_hash)
    write (set_must_change false env.ts user_id)
    write (delete_other_sessions user_id keep_session_token)
    write (
        audit_row host env.audit_at (some user_id) (codes "user.password_changed") user_target
          (some user_id) (ip_detail ip))

  unfoldable pub delete_user : Env → Actor → Text → M (Unit {0})
  delete_user env actor id = do
    target ← read (check_delete actor id)
    write (delete_user_row id)
    write (
        audit_row host env.audit_at (some actor.id) (codes "user.deleted") user_target (some id) (
          field (codes "targetRole") (str (role_text target.role))
            (field (codes "targetUsername") (str target.username) end)))

  unfoldable pub mark_login : Env → Text → Option Text → M (Unit {0})
  mark_login env user_id ip = do
    write (set_last_login env.ts user_id)
    write (
        audit_row host env.audit_at (some user_id) (codes "auth.login") user_target (some user_id)
          (ip_detail ip))
