-- ===== src/Store/UpdateLaws.antt =====
-- What `updateUser` returns, and that it throws before it has written anything.
use cool_tunnel_server.Base.{
  ◌≡◌, refl, ap, ◌∙◌, subst, ◌⊎◌, inl, inr, Bool, true, false, not, ◌&&◌, some, List, [], ◌∷◌,
  arith, Bool-cases,
}
use cool_tunnel_server.Base.Texts.{Text}
use cool_tunnel_server.Base.Tables.{find?, update_where}
use cool_tunnel_server.Base.Results.{Result-cases, ok, throw, Fault, store_error, duplicate_user}
use cool_tunnel_server.Shared.Roles.{owner, role_eq, is_active, can_manage_target}
use cool_tunnel_server.Store.Db.{Db, AdminUser}
use cool_tunnel_server.Store.Monad.{
  Env, Host, ◌>>=◌, ◌>>◌, return, fail, read, write, fail_if, write_unless, write_if, transaction,
}
use cool_tunnel_server.Store.Users.{
  Actor, UpdateUserInput, UserPlan, plan_update, check_update, require_user, get_user, has_id,
}
use cool_tunnel_server.Store.Update.{
  no_failures, apply_plan, conflicts, set_user, delete_sessions_of, write_update, update_user,
}
use cool_tunnel_server.Store.Guards.{require_user-ok, plan_update-Allowed, SparesOwner}
use cool_tunnel_server.Store.Refine.{update_user-planned, update_user-refused}
use cool_tunnel_server.Security.Validate.{validate_id}

pub find?-update {ℓ} :
    {A : Type ℓ} (q : A → Bool) (f : A → A)
    → ((x : A) → q (f x) ≡ q x)
    → (xs : List A) (x : A) → find? q xs ≡ some x
    → find? q (update_where q f xs) ≡ some (f x)
unfolding find? update_where
find?-update q f same [] x e = cc
find?-update q f same (y ∷ xs) x e = ground (arith, same y, find?-update q f same xs x)

pub require_user-valid :
    (id : Text) (db : Db) (user : AdminUser) → require_user id db ≡ ok user → validate_id id ≡ true
unfolding require_user get_user
require_user-valid id db user e = ground arith

pub require_user-found :
    (id : Text) (db : Db) (user : AdminUser)
    → validate_id id ≡ true
    → find? (has_id id) db.users ≡ some user
    → require_user id db ≡ ok user
unfolding require_user get_user
require_user-found id db user valid found = ground arith

pub plan_update-target :
    (host : Host) (actor : Actor) (id : Text) (input : UpdateUserInput) (db : Db) (plan : UserPlan)
    → plan_update host actor id input db ≡ ok plan
    → require_user id db ≡ ok plan.target
unfolding plan_update check_update
plan_update-target host actor id input db plan e = ground arith

module _ (host : Host) (env : Env) (actor : Actor) (id : Text) (db : Db)
    (input : UpdateUserInput) where
  abbrev pub written : UserPlan → AdminUser
  written plan = apply_plan plan env.ts plan.target

  apply_plan-id :
      (plan : UserPlan) (u : AdminUser) → has_id id (apply_plan plan env.ts u) ≡ has_id id u
  unfolding apply_plan
  apply_plan-id plan u = refl

  -- Behind its writes, `updateUser` finds the row again.
  pub found_again :
      (plan : UserPlan) (after : Db)
      → plan_update host actor id input db ≡ ok plan
      → after.users ≡ update_where (has_id id) (apply_plan plan env.ts) db.users
      → require_user id after ≡ ok (written plan)
  found_again plan after planned users =
      let target = plan_update-target host actor id input db plan planned in
      require_user-found id after (written plan) (require_user-valid id db plan.target target) (
        rw users (
          find?-update (has_id id) (apply_plan plan env.ts) (apply_plan-id plan) db.users
            plan.target (require_user-ok id db plan.target target)))

  abbrev pub after_set : UserPlan → Db
  after_set plan =
      (write_if (not (is_active plan.status)) (delete_sessions_of id) (set_user env id plan db)).1

  pub after_set-users :
      (plan : UserPlan)
      → (after_set plan).users ≡ update_where (has_id id) (apply_plan plan env.ts) db.users
  unfolding write_if set_user delete_sessions_of
  after_set-users plan = ground arith

  write_update-result :
      (plan : UserPlan)
      → conflicts plan id db ≡ false
      → require_user id (after_set plan) ≡ ok (written plan)
      → (write_update host no_failures env actor id input plan db).0 ≡ ok (written plan)
  unfolding write_update ◌>>=◌ ◌>>◌ return fail read write fail_if write_unless write_if transaction
  write_update-result plan free again = ground arith

  write_update-conflict :
      (plan : UserPlan)
      → conflicts plan id db ≡ true
      → write_update host no_failures env actor id input plan db
        ≡ (throw (store_error duplicate_user 409), db)
  unfolding write_update ◌>>=◌ ◌>>◌ return fail read write fail_if write_unless write_if transaction
  write_update-conflict plan taken = ground arith

  -- `updateUser` returns the row as the plan of its checks has it, or throws and leaves the database.
  pub update_user-cases :
      ((plan : UserPlan) × (plan_update host actor id input db ≡ ok plan)
        × (conflicts plan id db ≡ false)
        × ((update_user host env actor id input db).0 ≡ ok (written plan)))
      ⊎ ((e : Fault) × (update_user host env actor id input db ≡ (throw e, db)))
  update_user-cases = elim (Result-cases (plan_update host actor id input db)) [
    | inl (plan, planned) ↦ elim (Bool-cases (conflicts plan id db)) [
      | inl taken ↦ inr (
        store_error duplicate_user 409,
        update_user-planned host env actor id db input plan planned
            ∙ write_update-conflict plan taken,
      )
      | inr free ↦ inl (
        plan,
        planned,
        free,
        ap (λ r. r.0) (update_user-planned host env actor id db input plan planned)
            ∙ write_update-result plan free
                (found_again plan (after_set plan) planned (after_set-users plan)),
      )
    ]
    | inr (e, refused) ↦ inr (e, update_user-refused host env actor id db input e refused)
  ]

  -- When `updateUser` returns a user, the row with the id was one that the actor may manage; an
  -- actor who is not an owner has not made it an owner; and if the row was an active owner and is
  -- none any more, there were two active owners at least.
  pub update_user-privilege :
      (user : AdminUser)
      → (update_user host env actor id input db).0 ≡ ok user
      → (target : AdminUser) × (find? (has_id id) db.users ≡ some target)
        × (can_manage_target actor.role target.role ≡ true)
        × ((role_eq user.role owner && not (role_eq actor.role owner)) ≡ false)
        × SparesOwner target (role_eq user.role owner && is_active user.status) db
  unfolding apply_plan
  update_user-privilege user returned = elim update_user-cases [
    | inl (plan, planned, free, done) ↦
        let allowed = plan_update-Allowed host actor id input db plan planned in
        let same : written plan ≡ user = ground arith in
        subst
          (λ (u : AdminUser).
            (target : AdminUser) × (find? (has_id id) db.users ≡ some target)
            × (can_manage_target actor.role target.role ≡ true)
            × ((role_eq u.role owner && not (role_eq actor.role owner)) ≡ false)
            × SparesOwner target (role_eq u.role owner && is_active u.status) db)
          same (plan.target, allowed.found, allowed.managed, allowed.no_grant, allowed.spares)
    | inr (f, refused) ↦ cc
  ]
