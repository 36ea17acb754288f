-- ===== src/Shared/Roles.antt =====
-- packages/shared/src/index.ts: the role and permission tables, and the checks over them.
use cool_tunnel_server.Base.{
  ℕ, Bool, true, false, ◌||◌, not, List, [], ◌∷◌, ltb, ◌==◌, if◌then◌else◌,
}

-- The constructors stand in the order of `ADMIN_ROLES`.
pub data AdminRole : Type 0 where
  owner admin operator viewer : AdminRole

pub data UserStatus : Type 0 where
  active disabled : UserStatus

pub data ProxyAccountStatus : Type 0 where
  active disabled expired : ProxyAccountStatus

pub data ProtocolKey : Type 0 where
  vless_reality : ProtocolKey

abbrev pub default_protocol_keys : List ProtocolKey
default_protocol_keys = vless_reality ∷ []

-- One constructor for each text of `PERMISSIONS`, "users:read" being `users_read`.
pub data Permission : Type 0 where
  dashboard_read users_read users_create users_update users_disable users_delete : Permission
  users_reset_password proxy_accounts_read proxy_accounts_write settings_read : Permission
  settings_update status_read audit_read ops_doctor ops_render ops_restart : Permission
  ops_backup ops_restore : Permission

-- `===` on roles, statuses and permissions, by their places.
abbrev pub role_index : AdminRole → ℕ
role_index owner = 0
role_index admin = 1
role_index operator = 2
role_index viewer = 3

abbrev pub role_eq : AdminRole → AdminRole → Bool
role_eq a b = role_index a == role_index b

abbrev pub is_active : UserStatus → Bool
is_active UserStatus.active = true
is_active UserStatus.disabled = false

abbrev pub permission_index : Permission → ℕ
permission_index dashboard_read = 0
permission_index users_read = 1
permission_index users_create = 2
permission_index users_update = 3
permission_index users_disable = 4
permission_index users_delete = 5
permission_index users_reset_password = 6
permission_index proxy_accounts_read = 7
permission_index proxy_accounts_write = 8
permission_index settings_read = 9
permission_index settings_update = 10
permission_index status_read = 11
permission_index audit_read = 12
permission_index ops_doctor = 13
permission_index ops_render = 14
permission_index ops_restart = 15
permission_index ops_backup = 16
permission_index ops_restore = 17

abbrev pub permission_eq : Permission → Permission → Bool
permission_eq p q = permission_index p == permission_index q

-- `ROLE_RANK`
unfoldable pub role_rank : AdminRole → ℕ
role_rank viewer = 10
role_rank operator = 20
role_rank admin = 30
role_rank owner = 40

-- `PERMISSIONS`
unfoldable pub permissions : List Permission
permissions =
    dashboard_read ∷ users_read ∷ users_create ∷ users_update ∷ users_disable ∷ users_delete
    ∷ users_reset_password ∷ proxy_accounts_read ∷ proxy_accounts_write ∷ settings_read
    ∷ settings_update ∷ status_read ∷ audit_read ∷ ops_doctor ∷ ops_render ∷ ops_restart
    ∷ ops_backup ∷ ops_restore ∷ []

-- `ROLE_PERMISSIONS`
unfoldable pub role_permissions : AdminRole → List Permission
unfolding permissions
role_permissions owner = permissions
role_permissions admin =
    dashboard_read ∷ users_read ∷ users_create ∷ users_update ∷ users_disable ∷ users_reset_password
    ∷ proxy_accounts_read ∷ proxy_accounts_write ∷ settings_read ∷ status_read ∷ audit_read
    ∷ ops_doctor ∷ ops_render ∷ ops_restart ∷ ops_backup ∷ []
role_permissions operator =
    dashboard_read ∷ proxy_accounts_read ∷ settings_read ∷ status_read ∷ audit_read ∷ ops_doctor
    ∷ ops_render ∷ ops_restart ∷ []
role_permissions viewer =
    dashboard_read ∷ proxy_accounts_read ∷ settings_read ∷ status_read ∷ audit_read ∷ []

-- `Array.prototype.includes`
unfoldable pub includes : Permission → List Permission → Bool
includes p [] = false
includes p (q ∷ qs) = permission_eq q p || includes p qs

-- `hasPermission`, on the role and the status of the user.
unfoldable pub has_permission : AdminRole → UserStatus → Permission → Bool
unfolding role_permissions includes
has_permission role status permission =
    if not (is_active status) then false else includes permission (role_permissions role)

-- `canManageTarget`, on the roles of the actor and the target.
unfoldable pub can_manage_target : AdminRole → AdminRole → Bool
unfolding role_rank
can_manage_target actor target =
    if role_eq actor owner
    then true
    else if role_eq actor admin
    then ltb (role_rank target) (role_rank admin)
    else false

unfoldable pub can_create_role : AdminRole → AdminRole → Bool
can_create_role actor target =
    if role_eq actor owner
    then true
    else if not (role_eq actor admin)
    then false
    else role_eq target operator || role_eq target viewer

unfoldable pub can_delete_role : AdminRole → AdminRole → Bool
can_delete_role actor target =
    if role_eq actor owner
    then true
    else if not (role_eq actor admin)
    then false
    else role_eq target operator || role_eq target viewer
