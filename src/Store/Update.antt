-- ===== src/Store/Update.antt =====
-- packages/db/src/store.ts: `updateUser` behind its checks, `disableUser` and `enableUser`.
use cool_tunnel_server.Base.{ℕ, Bool, false, not, ◌&&◌, ◌||◌, Option, some, none}
use cool_tunnel_server.Base.Texts.{Text, text_eq, codes}
use cool_tunnel_server.Base.Tables.{any, update_where, delete_where}
use cool_tunnel_server.Base.Results.{ok, store_error, plain, duplicate_user, database_error}
use cool_tunnel_server.Security.Json.{str, end, field}
use cool_tunnel_server.Shared.Roles.{UserStatus, is_active}
use cool_tunnel_server.Store.Db.{Db, AdminUser}
use cool_tunnel_server.Store.Monad.{
  M, ◌>>=◌, ◌>>◌, return, read, write, write_if, fail_if, write_unless, Env, Host, audit_row,
}
use cool_tunnel_server.Store.Users.{
  Actor, UpdateUserInput, UserPlan, plan_update, require_user, has_id, role_text, status_text,
  changed_keys,
}

-- `CASE WHEN ? = 'disabled' THEN COALESCE(disabledAt, ?) ELSE NULL END`
abbrev pub next_disabled_at : UserStatus → Option ℕ → ℕ → Option ℕ
next_disabled_at UserStatus.active disabled_at ts = none
next_disabled_at UserStatus.disabled none ts = some ts
next_disabled_at UserStatus.disabled (some at) ts = some at

unfoldable pub apply_plan : UserPlan → ℕ → AdminUser → AdminUser
apply_plan plan ts user = record user {
  email = plan.email;
  username = plan.username;
  name = plan.name;
  role = plan.role;
  status = plan.status;
  must_change_password = plan.must_change_password;
  disabled_at = next_disabled_at plan.status user.disabled_at ts;
  updated_at = ts;
}

-- Another row that holds the text in a UNIQUE column.
abbrev pub taken_by_other : (AdminUser → Text) → Text → Text → AdminUser → Bool
taken_by_other column id value user = not (has_id id user) && text_eq (column user) value

-- The UNIQUE constraints on `email` and `username`.
unfoldable pub conflicts : UserPlan → Text → Db → Bool
conflicts plan id db =
    any (taken_by_other (λ u. u.email) id plan.email) db.users
    || any (taken_by_other (λ u. u.username) id plan.username) db.users

unfoldable pub set_user : Env → Text → UserPlan → Db → Db
unfolding apply_plan
set_user env id plan db = record db {
  users = update_where (has_id id) (apply_plan plan env.ts) db.users;
}

unfoldable pub delete_sessions_of : Text → Db → Db
delete_sessions_of user_id db = record db {
  sessions = delete_where (λ s. text_eq s.user_id user_id) db.sessions;
}

-- Which statements of `updateUser` fail for a reason that is none of the constraints, such as a full
-- disk or a locked file: the readings of the checks, the UPDATE, the DELETE, the reading behind
-- them, and the INSERT of `audit`. No transaction stands around them.
pub record Failures : Type 0 where
  pub checks : Bool
  pub updates : Bool
  pub deletes : Bool
  pub rereads : Bool
  pub audits : Bool

abbrev pub no_failures : Failures
no_failures = record {
  checks = false;
  updates = false;
  deletes = false;
  rereads = false;
  audits = false;
}

module _ (host : Host) where
  -- The UPDATE and the statements behind it. SQLite tests the constraints before it writes.
  unfoldable pub write_update :
      Failures → Env → Actor → Text → UpdateUserInput → UserPlan → M AdminUser
  write_update failures env actor id input plan = do
    conflict ← read (λ db. ok (conflicts plan id db))
    fail_if conflict (store_error duplicate_user 409)
    write_unless failures.updates (store_error database_error 500) (set_user env id plan)
    fail_if (not (is_active plan.status) && failures.deletes) plain
    write_if (not (is_active plan.status)) (delete_sessions_of id)
    fail_if failures.rereads plain
    updated ← read (require_user id)
    fail_if failures.audits plain
    write (
        audit_row host env.audit_at (some actor.id) (codes "user.updated") (some (codes "user"))
          (some id)
          (field (codes "role") (str (role_text updated.role)) (
            field (codes "status") (str (status_text updated.status))
              (field (codes "changed") (changed_keys input) end))))
    return updated

  -- `updateUser` where the statements may fail.
  unfoldable pub update_user_with : Failures → Env → Actor → Text → UpdateUserInput → M AdminUser
  update_user_with failures env actor id input = do
    fail_if failures.checks plain
    plan ← read (plan_update host actor id input)
    write_update failures env actor id input plan

  -- `updateUser` where every statement that meets the constraints is carried out.
  unfoldable pub update_user : Env → Actor → Text → UpdateUserInput → M AdminUser
  update_user env actor id input = update_user_with no_failures env actor id input

  abbrev pub status_only : UserStatus → UpdateUserInput
  status_only status = record {
    email = none;
    username = none;
    name = none;
    role = none;
    status = some status;
    must_change_password = none;
  }

  unfoldable pub disable_user : Env → Actor → Text → M AdminUser
  disable_user env actor id = update_user env actor id (status_only UserStatus.disabled)

  unfoldable pub enable_user : Env → Actor → Text → M AdminUser
  enable_user env actor id = update_user env actor id (status_only UserStatus.active)
