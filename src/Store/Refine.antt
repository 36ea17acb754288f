-- ===== src/Store/Refine.antt =====
-- Every operation on the users and the sessions makes a change of `Frames.Change`, on each branch.
use cool_tunnel_server.Store.Accounts.{
  reset_password, set_password, set_must_change, change_own_password, mark_login, delete_user,
  delete_user_row, check_delete, delete_other_sessions, set_last_login,
}
use cool_tunnel_server.Shared.Roles.{is_active}
use cool_tunnel_server.Base.Results.{ok, Result-cases, Fault, throw}
use cool_tunnel_server.Store.Users.{Actor, UpdateUserInput, UserPlan, plan_update, has_id}
use cool_tunnel_server.Store.Update.{
  no_failures, write_update, set_user, delete_sessions_of, conflicts, apply_plan, update_user,
  update_user_with,
}
use cool_tunnel_server.Base.Tables.{
  delete_where, count-delete_le, count, count-delete_self, update_where,
}
use cool_tunnel_server.Store.Monad.{
  Host, Env, audit_row, ◌>>=◌, ◌>>◌, return, fail, read, write, fail_if, write_unless, write_if,
  transaction,
}
use cool_tunnel_server.Base.Texts.{Text, text_eq}
use cool_tunnel_server.Store.Db.{Db, Session, AdminUser}
use cool_tunnel_server.Base.{
  ◌≡◌, refl, ap, ◌⊎◌, inl, inr, Bool, true, false, not, ◌&&◌, Option, some, arith, if◌then◌else◌,
  Bool-cases,
}
use cool_tunnel_server.Store.Frames.{
  Change, FewerSessions, of_user, kept, updated, touched, deleted,
}

pub same_sessions : (db after : Db) → after.sessions ≡ db.sessions → FewerSessions after db
same_sessions db after e v = rw e (omega arith)

pub fewer_deleted :
    (db after : Db) (p : Session → Bool)
    → after.sessions ≡ delete_where p db.sessions
    → FewerSessions after db
fewer_deleted db after p e v = rw e (count-delete_le (of_user v) p db.sessions)

-- Nothing is left of what a deletion names.
none_left :
    (id : Text) (db after : Db)
    → after.sessions ≡ delete_where (of_user id) db.sessions
    → count (of_user id) after.sessions ≡ 0
none_left id db after e = rw e (count-delete_self (of_user id) db.sessions)

pub unchanged :
    {host : Host} (db after : Db)
    → after.users ≡ db.users
    → after.sessions ≡ db.sessions
    → Change host db after
unchanged db after e s = kept e (same_sessions db after s)

-- A deletion of a user's sessions under a condition.
pub closed_sessions :
    (id : Text) (db after : Db) (wanted : Bool)
    → after.sessions ≡ (if wanted then delete_where (of_user id) db.sessions else db.sessions)
    → FewerSessions after db × (wanted ≡ true → count (of_user id) after.sessions ≡ 0)
closed_sessions id db after true e =
    (fewer_deleted db after (of_user id) e, λ _. none_left id db after e)
closed_sessions id db after false e = (same_sessions db after e, λ h. cc)

module _ (host : Host) (env : Env) (actor : Actor) (id : Text) (db : Db) where
  module _ (input : UpdateUserInput) (plan : UserPlan) where
    write_update-refused :
        conflicts plan id db ≡ true
        → ((write_update host no_failures env actor id input plan db).1.users ≡ db.users)
          × ((write_update host no_failures env actor id input plan db).1.sessions ≡ db.sessions)
    unfolding write_update ◌>>=◌ ◌>>◌ return fail read write fail_if write_unless write_if
        transaction
    write_update-refused taken = ground arith

    pub write_update-done :
        conflicts plan id db ≡ false
        → ((write_update host no_failures env actor id input plan db).1.users
            ≡ update_where (has_id id) (apply_plan plan env.ts) db.users)
          × ((write_update host no_failures env actor id input plan db).1.sessions ≡ (
              if not (is_active plan.status)
              then delete_where (of_user id) db.sessions
              else db.sessions))
    unfolding write_update set_user delete_sessions_of audit_row ◌>>=◌ ◌>>◌ return fail read write
        fail_if write_unless write_if transaction
    write_update-done free = ground arith

    updated-Change :
        (after : Db)
        → plan_update host actor id input db ≡ ok plan
        → conflicts plan id db ≡ false
        → (after.users ≡ update_where (has_id id) (apply_plan plan env.ts) db.users)
          × (after.sessions ≡ (
              if not (is_active plan.status)
              then delete_where (of_user id) db.sessions
              else db.sessions))
        → Change host db after
    updated-Change after planned free (users, sessions) =
        let (fewer, gone) = closed_sessions id db after (not (is_active plan.status)) sessions in
        updated actor id input env.ts plan planned free users fewer (λ off. gone (ap not off))

    write_update-Change :
        plan_update host actor id input db ≡ ok plan
        → Change host db (write_update host no_failures env actor id input plan db).1
    write_update-Change planned = elim (Bool-cases (conflicts plan id db)) [
      | inl taken ↦
          let (users, sessions) = write_update-refused taken in unchanged db _ users sessions
      | inr free ↦
          updated-Change (write_update host no_failures env actor id input plan db).1 planned free
            (write_update-done free)
    ]

  pub update_user-planned :
      (input : UpdateUserInput) (plan : UserPlan)
      → plan_update host actor id input db ≡ ok plan
      → update_user host env actor id input db
        ≡ write_update host no_failures env actor id input plan db
  unfolding update_user update_user_with ◌>>=◌ ◌>>◌ return fail read write fail_if write_unless
      write_if transaction
  update_user-planned input plan planned = ground arith

  pub update_user-refused :
      (input : UpdateUserInput) (e : Fault)
      → plan_update host actor id input db ≡ throw e
      → update_user host env actor id input db ≡ (throw e, db)
  unfolding update_user update_user_with ◌>>=◌ ◌>>◌ return fail read write fail_if write_unless
      write_if transaction
  update_user-refused input e refused = ground arith

  pub update_user-Change :
      (input : UpdateUserInput) → Change host db (update_user host env actor id input db).1
  update_user-Change input = elim (Result-cases (plan_update host actor id input db)) [
    | inl (plan, planned) ↦
        rw (update_user-planned input plan planned) (write_update-Change input plan planned)
    | inr (e, refused) ↦ rw (update_user-refused input e refused) (unchanged db db refl refl)
  ]

  reset_password-effect :
      (password_hash : Text)
      → (((reset_password host env actor id password_hash db).1.users ≡ db.users)
          × ((reset_password host env actor id password_hash db).1.sessions ≡ db.sessions))
        ⊎ (((reset_password host env actor id password_hash db).1.users
              ≡ update_where
                  (has_id id)
                  (λ u. record u { must_change_password = true; updated_at = env.ts })
                  db.users)
            × ((reset_password host env actor id password_hash db).1.sessions
                ≡ delete_where (of_user id) db.sessions))
  unfolding reset_password set_password set_must_change delete_sessions_of audit_row ◌>>=◌ ◌>>◌
      return fail read write fail_if write_unless write_if transaction
  reset_password-effect password_hash = ground arith

  pub reset_password-Change :
      (password_hash : Text) → Change host db (reset_password host env actor id password_hash db).1
  reset_password-Change password_hash = elim (reset_password-effect password_hash) [
    | inl (users, sessions) ↦ unchanged db _ users sessions
    | inr (users, sessions) ↦
        touched id (λ u. record u { must_change_password = true; updated_at = env.ts })
          (λ u. (refl, refl, refl, refl, refl)) users
          (fewer_deleted db (reset_password host env actor id password_hash db).1 (of_user id)
            sessions)
  ]

  change_own_password-effect :
      (password_hash keep : Text) (ip : Option Text)
      → ((change_own_password host env id password_hash keep ip db).1.users
          ≡ update_where
              (has_id id)
              (λ u. record u { must_change_password = false; updated_at = env.ts })
              db.users)
        × ((change_own_password host env id password_hash keep ip db).1.sessions
            ≡ delete_where (λ s. of_user id s && not (text_eq s.token keep)) db.sessions)
  unfolding change_own_password set_password set_must_change delete_other_sessions audit_row ◌>>=◌
      ◌>>◌ return fail read write fail_if write_unless write_if transaction
  change_own_password-effect password_hash keep ip = (refl, refl)

  pub change_own_password-Change :
      (password_hash keep : Text) (ip : Option Text)
      → Change host db (change_own_password host env id password_hash keep ip db).1
  change_own_password-Change password_hash keep ip =
      let (users, sessions) = change_own_password-effect password_hash keep ip in
      touched id (λ u. record u { must_change_password = false; updated_at = env.ts })
        (λ u. (refl, refl, refl, refl, refl)) users
        (fewer_deleted db (change_own_password host env id password_hash keep ip db).1
          (λ s. of_user id s && not (text_eq s.token keep)) sessions)

  mark_login-effect :
      (ip : Option Text)
      → ((mark_login host env id ip db).1.users
          ≡ update_where
              (has_id id)
              (λ u. record u { last_login_at = some env.ts; updated_at = env.ts })
              db.users)
        × ((mark_login host env id ip db).1.sessions ≡ db.sessions)
  unfolding mark_login set_last_login audit_row ◌>>=◌ ◌>>◌ return fail read write fail_if
      write_unless write_if transaction
  mark_login-effect ip = (refl, refl)

  pub mark_login-Change : (ip : Option Text) → Change host db (mark_login host env id ip db).1
  mark_login-Change ip =
      let (users, sessions) = mark_login-effect ip in
      touched id (λ u. record u { last_login_at = some env.ts; updated_at = env.ts })
        (λ u. (refl, refl, refl, refl, refl)) users
        (same_sessions db (mark_login host env id ip db).1 sessions)

  delete_user-done :
      (target : AdminUser)
      → check_delete actor id db ≡ ok target
      → ((delete_user host env actor id db).1.users ≡ delete_where (has_id id) db.users)
        × ((delete_user host env actor id db).1.sessions ≡ delete_where (of_user id) db.sessions)
  unfolding delete_user delete_user_row audit_row ◌>>=◌ ◌>>◌ return fail read write fail_if
      write_unless write_if transaction
  delete_user-done target checked = ground arith

  delete_user-refused :
      (e : Fault)
      → check_delete actor id db ≡ throw e
      → delete_user host env actor id db ≡ (throw e, db)
  unfolding delete_user ◌>>=◌ ◌>>◌ return fail read write fail_if write_unless write_if transaction
  delete_user-refused e refused = ground arith

  pub delete_user-Change : Change host db (delete_user host env actor id db).1
  delete_user-Change = elim (Result-cases (check_delete actor id db)) [
    | inl (target, checked) ↦
        let after = (delete_user host env actor id db).1 in
        let (users, sessions) = delete_user-done target checked in
        deleted actor id target checked users (fewer_deleted db after (of_user id) sessions)
          (none_left id db after sessions)
    | inr (e, refused) ↦ rw (delete_user-refused e refused) (unchanged db db refl refl)
  ]
