-- ===== src/Store/Guards.antt =====
-- What the checks of `updateUser` and `deleteUser` have established when they pass.
use cool_tunnel_server.Base.{◌<◌, Bool, true, false, not, ◌&&◌, Option, some, none, ◌≡◌, ◌⊎◌, arith}
use cool_tunnel_server.Base.Texts.{Text, text_eq}
use cool_tunnel_server.Base.Tables.{find?}
use cool_tunnel_server.Base.Results.{ok}
use cool_tunnel_server.Shared.Roles.{
  AdminRole, UserStatus, owner, role_eq, is_active, can_manage_target,
}
use cool_tunnel_server.Store.Db.{Db, AdminUser}
use cool_tunnel_server.Store.Monad.{Host}
use cool_tunnel_server.Store.Users.{
  check_update, or_current, Actor, UpdateUserInput, UserPlan, plan_update, has_id, require_user,
  owner_count, is_active_owner, assert_last_owner_preserved,
}
use cool_tunnel_server.Store.Accounts.{check_delete}

-- Unless an active owner is taken away, nothing is lost; otherwise another one is there.
abbrev pub SparesOwner : AdminUser → Bool → Db → Type 0
SparesOwner target stays db =
    (is_active_owner target ≡ false) ⊎ (stays ≡ true) ⊎ (1 < owner_count db)

pub require_user-ok :
    (id : Text) (db : Db) (user : AdminUser)
    → require_user id db ≡ ok user
    → find? (has_id id) db.users ≡ some user
unfolding require_user
require_user-ok id db user e = ground arith

assert_last_owner-ok :
    (target : AdminUser) (next_role : Option AdminRole) (next_status : UserStatus) (db : Db)
    → assert_last_owner_preserved target next_role next_status db ≡ ok tt
    → SparesOwner target
        ((elim next_role [ none ↦ false | some r ↦ role_eq r owner ]) && is_active next_status)
        db
unfolding assert_last_owner_preserved
assert_last_owner-ok target next_role next_status db e = ground arith

-- The checks passed: `target` is the row with the id, the actor may manage it and may give it the
-- role, and an active owner is left.
pub record Allowed (actor : Actor) (id : Text) (target : AdminUser) (role : AdminRole)
    (status : UserStatus) (db : Db) : Type 0 where
  pub found : find? (has_id id) db.users ≡ some target
  pub managed : can_manage_target actor.role target.role ≡ true
  pub no_grant : (role_eq role owner && not (role_eq actor.role owner)) ≡ false
  pub spares : SparesOwner target (role_eq role owner && is_active status) db

pub check_update-Allowed :
    (actor : Actor) (id : Text) (input : UpdateUserInput) (db : Db) (target : AdminUser)
    → check_update actor id input db ≡ ok target
    → Allowed actor id target
        (or_current input.role target.role)
        (or_current input.status target.status)
        db
unfolding check_update
check_update-Allowed actor id input db target e = ground (
  arith,
  require_user-ok id db target,
  assert_last_owner-ok target (some (or_current input.role target.role))
      (or_current input.status target.status) db,
)

pub plan_update-check :
    (host : Host) (actor : Actor) (id : Text) (input : UpdateUserInput) (db : Db) (plan : UserPlan)
    → plan_update host actor id input db ≡ ok plan
    → (check_update actor id input db ≡ ok plan.target)
      × (plan.role ≡ or_current input.role plan.target.role)
      × (plan.status ≡ or_current input.status plan.target.status)
unfolding plan_update
plan_update-check host actor id input db plan e = ground arith

pub plan_update-Allowed :
    (host : Host) (actor : Actor) (id : Text) (input : UpdateUserInput) (db : Db) (plan : UserPlan)
    → plan_update host actor id input db ≡ ok plan
    → Allowed actor id plan.target plan.role plan.status db
plan_update-Allowed host actor id input db plan e =
    let (checked, role, status) = plan_update-check host actor id input db plan e in
    rw (role, status) (check_update-Allowed actor id input db plan.target checked)

pub check_delete-ok :
    (actor : Actor) (id : Text) (db : Db) (target : AdminUser)
    → check_delete actor id db ≡ ok target
    → (find? (has_id id) db.users ≡ some target)
      × (text_eq actor.id target.id ≡ false)
      × (role_eq actor.role owner ≡ true)
      × SparesOwner target false db
unfolding check_delete
check_delete-ok actor id db target e =
    ground
      (arith, require_user-ok id db target, assert_last_owner-ok target none UserStatus.disabled db)
