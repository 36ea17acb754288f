-- ===== src/Store/LockOut.antt =====
-- A user who is disabled loses every session, and cannot open another.
use cool_tunnel_server.Base.{◌≡◌, refl, sym, ap, ◌∙◌, subst, inl, inr, false, not, some, arith}
use cool_tunnel_server.Base.Texts.{Text}
use cool_tunnel_server.Base.Tables.{count, find?}
use cool_tunnel_server.Base.Results.{ok}
use cool_tunnel_server.Shared.Roles.{is_active}
use cool_tunnel_server.Store.Db.{Db, AdminUser, Session}
use cool_tunnel_server.Store.Monad.{Host, Env}
use cool_tunnel_server.Store.Users.{Actor, UpdateUserInput, UserPlan, has_id, plan_update}
use cool_tunnel_server.Store.Update.{apply_plan, update_user, conflicts}
use cool_tunnel_server.Store.Sessions.{session_create_before, create_session}
use cool_tunnel_server.Store.Frames.{of_user}
use cool_tunnel_server.Store.Guards.{require_user-ok}
use cool_tunnel_server.Store.Refine.{update_user-planned, write_update-done, closed_sessions}
use cool_tunnel_server.Store.UpdateLaws.{update_user-cases, plan_update-target, find?-update}

module _ (host : Host) (env : Env) (actor : Actor) (id : Text) (db : Db)
    (input : UpdateUserInput) where
  abbrev after : Db
  after = (update_user host env actor id input db).1

  written-plan :
      (plan : UserPlan) (user : AdminUser)
      → (update_user host env actor id input db).0 ≡ ok (apply_plan plan env.ts plan.target)
      → (update_user host env actor id input db).0 ≡ ok user
      → apply_plan plan env.ts plan.target ≡ user
  written-plan plan user p q = ground arith

  disabled-effect :
      (plan : UserPlan)
      → plan_update host actor id input db ≡ ok plan
      → conflicts plan id db ≡ false
      → is_active plan.status ≡ false
      → (count (of_user id) after.sessions ≡ 0)
        × (find? (has_id id) after.users ≡ some (apply_plan plan env.ts plan.target))
  unfolding apply_plan
  disabled-effect plan planned free off =
      let (users, sessions) = write_update-done host env actor id db input plan free in
      let same = ap (λ r. r.1) (update_user-planned host env actor id db input plan planned) in
      let (_, gone) =
        closed_sessions id db after (not (is_active plan.status))
          (ap (λ d. d.sessions) same ∙ sessions) in
      (
        gone (ap not off),
        subst (λ rows. find? (has_id id) rows ≡ some (apply_plan plan env.ts plan.target))
            (sym (ap (λ d. d.users) same ∙ users))
            (find?-update (has_id id) (apply_plan plan env.ts) (λ x. refl) db.users plan.target
              (require_user-ok id db plan.target
                (plan_update-target host actor id input db plan planned))),
      )

  create_session-refused :
      (s : Session) (user : AdminUser) (d : Db)
      → find? (has_id s.user_id) d.users ≡ some user
      → is_active user.status ≡ false
      → create_session s d ≡ d
  unfolding create_session session_create_before
  create_session-refused s user d found off = ground arith

  -- When `updateUser` returns a user who is disabled, no session of this user is left, and the hook
  -- of the auth library lets none be created.
  pub disabled-locked_out :
      (user : AdminUser)
      → (update_user host env actor id input db).0 ≡ ok user
      → is_active user.status ≡ false
      → (count (of_user id) after.sessions ≡ 0)
        × ((s : Session) → s.user_id ≡ id → create_session s after ≡ after)
  unfolding apply_plan
  disabled-locked_out user returned off = elim (update_user-cases host env actor id db input) [
    | inl (plan, planned, free, done) ↦
        let same = written-plan plan user done returned in
        let off_plan : is_active plan.status ≡ false =
          subst (λ (u : AdminUser). is_active u.status ≡ false) (sym same) off in
        let (gone, found) = disabled-effect plan planned free off_plan in
        (
          gone,
          λ s e.
              create_session-refused s (apply_plan plan env.ts plan.target) after
                (subst
                  (λ i. find? (has_id i) after.users ≡ some (apply_plan plan env.ts plan.target))
                  (sym e) found)
                off_plan,
        )
    | inr (f, refused) ↦ cc
  ]
