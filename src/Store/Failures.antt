-- ===== src/Store/Failures.antt =====
-- What `updateUser` leaves when a statement of it fails, without a transaction around them.
use cool_tunnel_server.Base.{◌≡◌, sym, ap, ◌∙◌, ◌⊎◌, inl, inr, true, false, ◌||◌, arith, Bool-cases}
use cool_tunnel_server.Base.Texts.{Text}
use cool_tunnel_server.Base.Results.{Result-cases, ok, throw, Fault, plain}
use cool_tunnel_server.Shared.Roles.{is_active}
use cool_tunnel_server.Store.Db.{Db}
use cool_tunnel_server.Store.Monad.{
  Env, Host, ◌>>=◌, ◌>>◌, return, fail, read, write, fail_if, write_unless, write_if, transaction,
}
use cool_tunnel_server.Store.Users.{Actor, UpdateUserInput, UserPlan, plan_update, require_user}
use cool_tunnel_server.Store.Update.{Failures, conflicts, set_user, write_update, update_user_with}
use cool_tunnel_server.Store.UpdateLaws.{found_again, after_set, after_set-users, written}

module _ (host : Host) (failures : Failures) (env : Env) (actor : Actor) (id : Text) (db : Db)
    (input : UpdateUserInput) where
  -- The statements behind the UPDATE that a failure has cut off: the sessions are still there
  -- although the user is disabled, or only the entry in the audit log is missing.
  abbrev pub CutOff : UserPlan → Db → Type 0
  CutOff plan after =
      ((after ≡ set_user env id plan db)
        × (is_active plan.status ≡ false)
        × (failures.deletes ≡ true))
      ⊎ ((after ≡ after_set host env actor id db input plan)
          × (failures.rereads ≡ true ⊎ failures.audits ≡ true))

  write_update-cut :
      (plan : UserPlan) (e : Fault)
      → conflicts plan id db ≡ false
      → failures.updates ≡ false
      → require_user id (after_set host env actor id db input plan)
        ≡ ok (written host env actor id db input plan)
      → (write_update host failures env actor id input plan db).0 ≡ throw e
      → CutOff plan (write_update host failures env actor id input plan db).1
  unfolding write_update ◌>>=◌ ◌>>◌ return fail read write fail_if write_unless write_if transaction
  write_update-cut plan e free runs again thrown = elim (Bool-cases (is_active plan.status)) [
    | inl on ↦ ground (arith, free, runs, again, thrown, on)
    | inr off ↦ elim (Bool-cases failures.deletes) [
      | inl cut ↦ inl (ground (arith, free, runs, off, cut), off, cut)
      | inr done ↦ ground (arith, free, runs, again, thrown, off, done)
    ]
  ]

  write_update-refused :
      (plan : UserPlan)
      → (conflicts plan id db || failures.updates) ≡ true
      → (write_update host failures env actor id input plan db).1 ≡ db
  unfolding write_update ◌>>=◌ ◌>>◌ return fail read write fail_if write_unless write_if transaction
  write_update-refused plan h = ground arith

  planned_with :
      (plan : UserPlan)
      → failures.checks ≡ false
      → plan_update host actor id input db ≡ ok plan
      → update_user_with host failures env actor id input db
        ≡ write_update host failures env actor id input plan db
  unfolding update_user_with ◌>>=◌ ◌>>◌ return fail read write fail_if write_unless write_if
      transaction
  planned_with plan runs planned = ground arith

  refused_with :
      (e : Fault)
      → (failures.checks ≡ true) ⊎ (plan_update host actor id input db ≡ throw e)
      → (update_user_with host failures env actor id input db).1 ≡ db
  unfolding update_user_with ◌>>=◌ ◌>>◌ return fail read write fail_if write_unless write_if
      transaction
  refused_with e h = ground arith

  -- When `updateUser` throws, because of its checks, a constraint or a statement that fails, the
  -- database is as it was, or the UPDATE is written and a statement behind it has failed: then the
  -- sessions of the disabled user are still there if that is the DELETE, and only the entry in the
  -- audit log is missing if not.
  pub update_user_with-left :
      (e : Fault)
      → (update_user_with host failures env actor id input db).0 ≡ throw e
      → ((update_user_with host failures env actor id input db).1 ≡ db)
        ⊎ ((plan : UserPlan) × (plan_update host actor id input db ≡ ok plan)
            × (conflicts plan id db ≡ false)
            × CutOff plan (update_user_with host failures env actor id input db).1)
  update_user_with-left e thrown = elim (Bool-cases failures.checks) [
    | inl cut ↦ inl (refused_with plain (inl cut))
    | inr runs ↦ elim (Result-cases (plan_update host actor id input db)) [
      | inr (f, refused) ↦ inl (refused_with f (inr refused))
      | inl (plan, planned) ↦
          let same = planned_with plan runs planned in
          elim (Bool-cases (conflicts plan id db || failures.updates)) [
            | inl h ↦ inl (ap (λ r. r.1) same ∙ write_update-refused plan h)
            | inr h ↦
                let free : conflicts plan id db ≡ false = ground (arith, h) in
                let again =
                  found_again host env actor id db input plan
                    (after_set host env actor id db input plan) planned
                    (after_set-users host env actor id db input plan) in
                inr (
                  plan,
                  planned,
                  free,
                  rw same (
                      write_update-cut plan e free (ground (arith, h)) again
                        (sym (ap (λ r. r.0) same) ∙ thrown)),
                )
          ]
    ]
  ]
