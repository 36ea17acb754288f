-- ===== src/Store/Users.antt =====
-- packages/db/src/store.ts: reading the users, and `updateUser` with what is built on it.
use cool_tunnel_server.Base.{
  ℕ, Bool, false, not, ◌&&◌, ◌||◌, Option, some, none, ltb, leb, if◌then◌else◌,
}
use cool_tunnel_server.Base.Texts.{Text, text_eq, codes, length}
use cool_tunnel_server.Base.Tables.{count, find?}
use cool_tunnel_server.Base.Results.{
  Result, ok, throw, ◌>>=◌, ◌>>◌, store_error, throw_if, forbidden, last_owner, not_found,
  invalid_name,
}
use cool_tunnel_server.Security.Texts.{trim}
use cool_tunnel_server.Security.Json.{Json, str, arr, Items, nil, cons}
use cool_tunnel_server.Security.Validate.{
  validate_id, validate_name, normalize_email, normalize_username,
}
use cool_tunnel_server.Shared.Roles.{
  AdminRole, owner, admin, operator, viewer, UserStatus, role_eq, is_active, can_manage_target,
}
use cool_tunnel_server.Store.Db.{Db, AdminUser}
use cool_tunnel_server.Store.Monad.{Host}

-- The fields of the acting `AdminUser` that the store reads.
pub record Actor : Type 0 where
  pub id : Text
  pub role : AdminRole

pub record UpdateUserInput : Type 0 where
  pub email : Option Text
  pub username : Option Text
  pub name : Option Text
  pub role : Option AdminRole
  pub status : Option UserStatus
  pub must_change_password : Option Bool

abbrev pub role_text : AdminRole → Text
role_text owner = codes "owner"
role_text admin = codes "admin"
role_text operator = codes "operator"
role_text viewer = codes "viewer"

abbrev pub status_text : UserStatus → Text
status_text UserStatus.active = codes "active"
status_text UserStatus.disabled = codes "disabled"

-- `role = 'owner' AND status = 'active'`
abbrev pub is_active_owner : AdminUser → Bool
is_active_owner user = role_eq user.role owner && is_active user.status

unfoldable pub owner_count : Db → ℕ
owner_count db = count is_active_owner db.users

unfoldable pub has_owner : Db → Bool
unfolding owner_count
has_owner db = ltb 0 (owner_count db)

unfoldable pub user_count : Db → ℕ
user_count db = length db.users

abbrev pub has_id : Text → AdminUser → Bool
has_id id user = text_eq user.id id

unfoldable pub get_user : Text → Db → Option AdminUser
get_user id db = if not (validate_id id) then none else find? (has_id id) db.users

unfoldable pub require_user : Text → Db → Result AdminUser
unfolding get_user
require_user id db = elim (get_user id db) [
  | none ↦ throw (store_error not_found 404)
  | some user ↦ ok user
]

-- `getOwnPasswordHash`
unfoldable pub get_own_password_hash : Text → Db → Option Text
get_own_password_hash user_id db =
    if not (validate_id user_id)
    then none
    else elim (find? (λ a. text_eq a.user_id user_id && text_eq a.provider_id (codes "credential"))
        db.accounts) [ none ↦ none | some account ↦ account.password ]

-- `assertLastOwnerPreserved`; the role "__deleted__" is `none`.
unfoldable pub assert_last_owner_preserved :
    AdminUser → Option AdminRole → UserStatus → Db → Result (Unit {0})
unfolding owner_count
assert_last_owner_preserved target next_role next_status db =
    if not (role_eq target.role owner) || not (is_active target.status)
    then ok tt
    else if (elim next_role [ none ↦ false | some r ↦ role_eq r owner ]) && is_active next_status
    then ok tt
    else throw_if (leb (owner_count db) 1) (store_error last_owner 400)

abbrev pub or_current {ℓ} : {A : Type ℓ} → Option A → A → A
or_current none current = current
or_current (some given) current = given

-- `Object.keys(input).sort()`
abbrev pub key_if {ℓ} : {A : Type ℓ} → Option A → Text → Items → Items
key_if none key items = items
key_if (some _) key items = cons (str key) items

abbrev pub changed_keys : UpdateUserInput → Json
changed_keys input = arr (
    key_if input.email (codes "email") (
      key_if input.must_change_password (codes "mustChangePassword") (
        key_if input.name (codes "name") (
          key_if input.role (codes "role") (
            key_if input.status (codes "status") (key_if input.username (codes "username") nil))))))

-- The values that `updateUser` has computed when it reaches its UPDATE.
pub record UserPlan : Type 0 where
  pub target : AdminUser
  pub email : Text
  pub username : Text
  pub name : Text
  pub role : AdminRole
  pub status : UserStatus
  pub must_change_password : Bool

-- The checks of `updateUser` on the target and on the role and the status that it is to have.
unfoldable pub check_update : Actor → Text → UpdateUserInput → Db → Result AdminUser
check_update actor id input db = do
  target ← require_user id db
  throw_if (not (can_manage_target actor.role target.role)) (store_error forbidden 403)
  let role = or_current input.role target.role
  throw_if (role_eq role owner && not (role_eq actor.role owner)) (store_error forbidden 403)
  assert_last_owner_preserved target (some role) (or_current input.status target.status) db
  ok target

module _ (host : Host) where
  unfoldable pub next_email : UpdateUserInput → AdminUser → Result Text
  next_email input target = elim input.email [
    | none ↦ ok target.email
    | some given ↦ normalize_email host.platform given
  ]

  unfoldable pub next_username : UpdateUserInput → AdminUser → Result Text
  next_username input target = elim input.username [
    | none ↦ ok target.username
    | some given ↦ normalize_username given
  ]

  unfoldable pub next_name : UpdateUserInput → AdminUser → Text
  next_name input target = elim input.name [ none ↦ target.name | some given ↦ trim given ]

  -- All of `updateUser` down to its UPDATE.
  unfoldable pub plan_update : Actor → Text → UpdateUserInput → Db → Result UserPlan
  plan_update actor id input db = do
    target ← check_update actor id input db
    email ← next_email input target
    username ← next_username input target
    let name = next_name input target
    throw_if (not (validate_name name)) (store_error invalid_name 400)
    ok (record {
      target = target;
      email = email;
      username = username;
      name = name;
      role = or_current input.role target.role;
      status = or_current input.status target.status;
      must_change_password = or_current input.must_change_password target.must_change_password;
    })
