-- ===== src/Store/Frames.antt =====
-- How an operation may change the tables `user` and `session`: an abstract description that every
-- operation of packages/db/src/store.ts, and the session hook of apps/api/src/auth.ts, refines.
use cool_tunnel_server.Store.Accounts.{insert_conflicts, check_delete}
use cool_tunnel_server.Shared.Roles.{is_active}
use cool_tunnel_server.Store.Update.{conflicts, apply_plan}
use cool_tunnel_server.Base.Results.{ok}
use cool_tunnel_server.Store.Users.{has_id, Actor, UpdateUserInput, UserPlan, plan_update}
use cool_tunnel_server.Store.Monad.{Host}
use cool_tunnel_server.Store.Db.{Db, AdminUser, Session}
use cool_tunnel_server.Base.Texts.{Text, text_eq}
use cool_tunnel_server.Base.{ℕ, ◌≤◌, Bool, true, false, ◌≡◌, some}
use cool_tunnel_server.Base.Tables.{count, update_where, delete_where, insert_row, find?}

abbrev pub of_user : Text → Session → Bool
of_user id s = text_eq s.user_id id

-- No user has more sessions than before.
abbrev pub FewerSessions : Db → Db → Type 0
FewerSessions after db =
    (v : Text) → count (of_user v) after.sessions ≤ count (of_user v) db.sessions

-- A change of a user row that the invariants do not see.
abbrev pub KeepsIdentity : (AdminUser → AdminUser) → Type 0
KeepsIdentity f =
    (u : AdminUser)
    → ((f u).id ≡ u.id)
      × ((f u).email ≡ u.email)
      × ((f u).username ≡ u.username)
      × ((f u).role ≡ u.role)
      × ((f u).status ≡ u.status)

pub data Change (host : Host) (db after : Db) : Type 0 where
  kept : after.users ≡ db.users → FewerSessions after db → Change host db after
  touched :
      (id : Text) (f : AdminUser → AdminUser)
      → KeepsIdentity f
      → after.users ≡ update_where (has_id id) f db.users
      → FewerSessions after db
      → Change host db after
  updated :
      (actor : Actor) (id : Text) (input : UpdateUserInput) (ts : ℕ) (plan : UserPlan)
      → plan_update host actor id input db ≡ ok plan
      → conflicts plan id db ≡ false
      → after.users ≡ update_where (has_id id) (apply_plan plan ts) db.users
      → FewerSessions after db
      → (is_active plan.status ≡ false → count (of_user id) after.sessions ≡ 0)
      → Change host db after
  inserted :
      (row : AdminUser)
      → is_active row.status ≡ true
      → insert_conflicts row db ≡ false
      → after.users ≡ insert_row row db.users
      → FewerSessions after db
      → Change host db after
  deleted :
      (actor : Actor) (id : Text) (target : AdminUser)
      → check_delete actor id db ≡ ok target
      → after.users ≡ delete_where (has_id id) db.users
      → FewerSessions after db
      → count (of_user id) after.sessions ≡ 0
      → Change host db after
  opened :
      (s : Session) (user : AdminUser)
      → find? (has_id s.user_id) db.users ≡ some user
      → is_active user.status ≡ true
      → after.users ≡ db.users
      → after.sessions ≡ insert_row s db.sessions
      → Change host db after
