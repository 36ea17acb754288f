-- ===== src/Store/NewUser.antt =====
-- packages/db/src/store.ts: the checks of `insertUser` and the row that it writes.
use cool_tunnel_server.Base.{Bool, true, false, not, ◌&&◌, Option, some, none, ◌==◌, if◌then◌else◌}
use cool_tunnel_server.Base.Texts.{Text, is_empty}
use cool_tunnel_server.Base.Results.{
  Result, ok, ◌>>=◌, ◌>>◌, store_error, throw_if, forbidden, invalid_name,
}
use cool_tunnel_server.Security.Texts.{trim, split_on}
use cool_tunnel_server.Security.Validate.{validate_name, normalize_email, normalize_username}
use cool_tunnel_server.Shared.Roles.{AdminRole, owner, UserStatus, role_eq}
use cool_tunnel_server.Store.Db.{AdminUser}
use cool_tunnel_server.Store.Monad.{Env, Host}
use cool_tunnel_server.Store.Users.{Actor, or_current}

pub record CreateUserInput : Type 0 where
  pub email : Text
  pub username : Text
  pub name : Text
  pub password_hash : Text
  pub role : AdminRole
  pub must_change_password : Option Bool

-- `actor && role === "owner" && actor.role !== "owner"`
abbrev pub may_not_grant : Option Actor → AdminRole → Bool
may_not_grant none role = false
may_not_grant (some actor) role = role_eq role owner && not (role_eq actor.role owner)

-- `email.split("@")[0]`
abbrev local_part : Text → Text
local_part email = (split_on (λ c. c == b'@') email).0

module _ (host : Host) where
  unfoldable pub new_user : Env → Option Actor → CreateUserInput → Result AdminUser
  new_user env actor input = do
    email ← normalize_email host.platform input.email
    username ←
        normalize_username (if is_empty input.username then local_part email else input.username)
    let name = trim input.name
    throw_if (not (validate_name name)) (store_error invalid_name 400)
    throw_if (may_not_grant actor input.role) (store_error forbidden 403)
    ok (record {
      id = env.random_id;
      email = email;
      username = username;
      name = name;
      role = input.role;
      status = UserStatus.active;
      must_change_password = or_current input.must_change_password true;
      two_factor_enabled = false;
      created_at = env.ts;
      updated_at = env.ts;
      last_login_at = none;
      disabled_at = none;
    })
