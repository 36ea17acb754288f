-- ===== src/Shared/Laws.antt =====
-- What the tables of packages/shared/src/index.ts promise together.
use cool_tunnel_server.Base.{◌≤◌, ◌≡◌, true, ◌&&◌, ◌||◌, arith, ltb}
use cool_tunnel_server.Shared.Roles.{
  AdminRole, owner, admin, UserStatus, Permission, role_rank, role_eq, has_permission,
  can_manage_target, can_create_role, can_delete_role,
}

-- Whatever a role may do, an active user whose role ranks at least as high may do too.
pub has_permission_mono :
    (low high : AdminRole) (status : UserStatus) (p : Permission)
    → role_rank low ≤ role_rank high
    → has_permission low status p ≡ true
    → has_permission high UserStatus.active p ≡ true
unfolding has_permission role_rank
has_permission_mono low high status p h e = ground arith

-- On any two roles `canCreateRole` and `canDeleteRole` answer as `canManageTarget` does: an owner
-- may always, an admin where the other role ranks lower, and the rest never.
pub can_create_role-can_manage_target :
    (actor target : AdminRole)
    → (can_create_role actor target ≡ can_manage_target actor target)
      × (can_delete_role actor target ≡ can_manage_target actor target)
      × (can_manage_target actor target ≡ (
          role_eq actor owner || (role_eq actor admin && ltb (role_rank target) (role_rank actor))))
unfolding can_create_role can_manage_target can_delete_role role_rank
can_create_role-can_manage_target actor target = ground arith
