-- ===== src/Store/Refinement.antt =====
-- Every call makes one of the changes of `Frames.Change`, so the invariants hold after any history.
use cool_tunnel_server.Store.Audit.{prune_audit_log_older_than}
use cool_tunnel_server.Base.Texts.{Text}
use cool_tunnel_server.Shared.Roles.{owner}
use cool_tunnel_server.Store.RefineInsert.{create_user-Change, create_first_owner-Change}
use cool_tunnel_server.Store.StepsProxy.{
  ProxyStatements, create_proxy-Steps, update_proxy-Steps, regenerate-Steps, reveal-Steps,
  delete_proxy-Steps, update_settings-Steps,
}
use cool_tunnel_server.Store.Proxy.{insert_proxy_row, set_proxy_row, delete_proxy_row}
use cool_tunnel_server.Store.Sessions.{create_session, session_create_before, delete_sessions}
use cool_tunnel_server.Store.SettingsUpdate.{set_config}
use cool_tunnel_server.Store.History.{
  history, run_call, Call, updates, creates, resets, changes_password, deletes, logs_in,
  makes_token, bootstraps, opens_session, ends_sessions, makes_proxy, changes_proxy, rotates_proxy,
  reveals_proxy, drops_proxy, sets_settings, makes_defaults, audits, prunes_audit, records_render,
}
use cool_tunnel_server.Store.Bootstrap.{
  create_bootstrap_token, prune_expired_bootstrap_tokens, insert_token,
}
use cool_tunnel_server.Store.Refine.{
  unchanged, update_user-Change, reset_password-Change, change_own_password-Change,
  delete_user-Change, mark_login-Change, fewer_deleted,
}
use cool_tunnel_server.Shared.Roles.{is_active}
use cool_tunnel_server.Store.Users.{has_id}
use cool_tunnel_server.Base.Tables.{find?, insert_row}
use cool_tunnel_server.Store.Settings.{ensure_defaults, record_render}
use cool_tunnel_server.Store.Monad.{
  audit_row, Host, M, ◌>>=◌, ◌>>◌, return, fail, read, write, fail_if, write_unless, Env,
}
use cool_tunnel_server.Store.Invariant.{IsConsistent}
use cool_tunnel_server.Store.Consistent.{Change-IsConsistent}
use cool_tunnel_server.Store.Owner.{Change-owner}
use cool_tunnel_server.Store.Users.{owner_count}
use cool_tunnel_server.Store.Steps.{IsPreorder, Steps, run-Steps}
use cool_tunnel_server.Base.{
  ℕ, ◌<◌, ◌≡◌, refl, ap, ◌∙◌, ◌⊎◌, inl, inr, true, some, List, [], ◌∷◌, arith,
}
use cool_tunnel_server.Store.Db.{Db, Session, AdminUser}
use cool_tunnel_server.Store.Frames.{Change, kept, opened}

-- The tables `user` and `session` as they were.
SameUsers : Db → Db → Type 0
SameUsers db after = (after.users ≡ db.users) × (after.sessions ≡ db.sessions)

SameUsers-order : IsPreorder SameUsers
unfolding SameUsers
SameUsers-order = record { same = λ db. (refl, refl); trans = λ a b c p q. (q.0 ∙ p.0, q.1 ∙ p.1) }

SameUsers-statements : (host : Host) → ProxyStatements host SameUsers
unfolding SameUsers audit_row ensure_defaults set_config insert_proxy_row set_proxy_row
    delete_proxy_row
SameUsers-statements host = record {
  order = SameUsers-order;
  audits = λ at actor action target_type target_id detail db. (refl, refl);
  makes_defaults = λ config now db. (refl, refl);
  sets_config = λ row db. (refl, refl);
  inserts_row = λ row db. (refl, refl);
  sets_row = λ id f db. (refl, refl);
  deletes_row = λ id db. (refl, refl);
}

module _ (host : Host) where
  SameUsers-Change : (db after : Db) → SameUsers db after → Change host db after
  unfolding SameUsers
  SameUsers-Change db after (users, sessions) = unchanged db after users sessions

  unseen : {A : Type 0} (m : M A) → Steps SameUsers m → (db : Db) → Change host db (m db).1
  unseen m h db = SameUsers-Change db (m db).1 (run-Steps SameUsers m h db)

  create_bootstrap_token-same :
      (env : Env) (secret token fingerprint expires_text : Text) (ttl : ℕ) (db : Db)
      → SameUsers db
          (create_bootstrap_token host env secret token fingerprint expires_text ttl db).1
  unfolding SameUsers create_bootstrap_token prune_expired_bootstrap_tokens insert_token audit_row
      ◌>>=◌ ◌>>◌ return fail read write fail_if write_unless
  create_bootstrap_token-same env secret token fingerprint expires_text ttl db = ground arith

  create_session-cases :
      (s : Session) (db : Db)
      → ((user : AdminUser) × (find? (has_id s.user_id) db.users ≡ some user)
          × (is_active user.status ≡ true)
          × (create_session s db ≡ record db { sessions = insert_row s db.sessions }))
        ⊎ (create_session s db ≡ db)
  unfolding create_session session_create_before
  create_session-cases s db = ground arith

  create_session-Change : (s : Session) (db : Db) → Change host db (create_session s db)
  create_session-Change s db = elim (create_session-cases s db) [
    | inl (user, found, on, e) ↦
        opened s user found on (ap (λ d. d.users) e) (ap (λ d. d.sessions) e)
    | inr e ↦ unchanged db (create_session s db) (ap (λ d. d.users) e) (ap (λ d. d.sessions) e)
  ]

  -- Every call, whether it returns or throws, makes one of the changes that `Frames.Change` allows:
  -- no user row is touched in what the invariants see, or one is updated behind the checks of
  -- `updateUser`, inserted with free keys, or deleted behind the checks of `deleteUser`; sessions
  -- only go, but for one that is opened for an active user.
  pub run_call-Change : (c : Call) (db : Db) → Change host db (run_call host c db)
  unfolding run_call delete_sessions ensure_defaults audit_row prune_audit_log_older_than
      record_render
  run_call-Change (updates env actor id input) db = update_user-Change host env actor id db input
  run_call-Change (creates env actor input) db = create_user-Change host env actor input db
  run_call-Change (resets env actor id hash) db = reset_password-Change host env actor id db hash
  run_call-Change (changes_password env id hash keep ip) db =
      change_own_password-Change host env (record { id = id; role = owner }) id db hash keep ip
  run_call-Change (deletes env actor id) db = delete_user-Change host env actor id db
  run_call-Change (logs_in env id ip) db =
      mark_login-Change host env (record { id = id; role = owner }) id db ip
  run_call-Change (makes_token env secret token fingerprint expires_text ttl) db =
      SameUsers-Change db _
        (create_bootstrap_token-same env secret token fingerprint expires_text ttl db)
  run_call-Change (bootstraps env input hash) db = create_first_owner-Change host env input hash db
  run_call-Change (opens_session s) db = create_session-Change s db
  run_call-Change (ends_sessions p) db = kept refl (fewer_deleted db (delete_sessions p db) p refl)
  run_call-Change (makes_proxy env actor input) db =
      unseen _ (create_proxy-Steps (SameUsers-statements host) env actor input) db
  run_call-Change (changes_proxy env actor id input) db =
      unseen _ (update_proxy-Steps (SameUsers-statements host) env actor id input) db
  run_call-Change (rotates_proxy env actor until id) db =
      unseen _ (regenerate-Steps (SameUsers-statements host) env actor until id) db
  run_call-Change (reveals_proxy env actor id) db =
      unseen _ (reveal-Steps (SameUsers-statements host) env actor id) db
  run_call-Change (drops_proxy env actor id) db =
      unseen _ (delete_proxy-Steps (SameUsers-statements host) env actor id) db
  run_call-Change (sets_settings env actor input) db =
      unseen _ (update_settings-Steps (SameUsers-statements host) env actor input) db
  run_call-Change (makes_defaults config now) db =
      unchanged db (ensure_defaults config now db) refl refl
  run_call-Change (audits at actor action target_type target_id detail) db =
      unchanged db (audit_row host at actor action target_type target_id detail db) refl refl
  run_call-Change (prunes_audit cutoff) db =
      unchanged db (prune_audit_log_older_than cutoff db).1 refl refl
  run_call-Change (records_render hash at updated) db =
      unchanged db (record_render hash at updated db) refl refl

  pub run_call-IsConsistent :
      (c : Call) (db : Db) → IsConsistent db → IsConsistent (run_call host c db)
  run_call-IsConsistent c db h = Change-IsConsistent (run_call-Change c db) h

  -- From a consistent database, any history of calls, whether they return or throw, leads to one in
  -- which ids, emails and usernames are unique and every session belongs to an active user.
  pub history-IsConsistent :
      (cs : List Call) (db : Db) → IsConsistent db → IsConsistent (history host cs db)
  unfolding history
  history-IsConsistent [] db h = h
  history-IsConsistent (c ∷ cs) db h =
      history-IsConsistent cs (run_call host c db) (run_call-IsConsistent c db h)

  -- From a consistent database with an active owner, any history of calls, whether they return or
  -- throw, leads to one with an active owner.
  pub history-owner :
      (cs : List Call) (db : Db)
      → IsConsistent db
      → 0 < owner_count db
      → 0 < owner_count (history host cs db)
  unfolding history
  history-owner [] db h some_owner = some_owner
  history-owner (c ∷ cs) db h some_owner =
      history-owner cs (run_call host c db) (run_call-IsConsistent c db h)
        (Change-owner (run_call-Change c db) h some_owner)
