-- ===== src/Store/Sessions.antt =====
-- apps/api/src/auth.ts: the hook before a session is created, and the session that the auth
-- library then writes; the library also deletes sessions, on sign-out and on expiry.
use cool_tunnel_server.Shared.Roles.{is_active}
use cool_tunnel_server.Store.Users.{has_id}
use cool_tunnel_server.Base.Tables.{find?, insert_row, delete_where}
use cool_tunnel_server.Base.{Bool, false, some, none, if◌then◌else◌}
use cool_tunnel_server.Base.Texts.{Text}
use cool_tunnel_server.Store.Db.{Db, Session}

-- `databaseHooks.session.create.before`; false keeps the session from being created.
unfoldable pub session_create_before : Text → Db → Bool
session_create_before user_id db = elim (find? (has_id user_id) db.users) [
  | none ↦ false
  | some user ↦ is_active user.status
]

unfoldable pub create_session : Session → Db → Db
create_session s db =
    if session_create_before s.user_id db
    then record db { sessions = insert_row s db.sessions }
    else db

unfoldable pub delete_sessions : (Session → Bool) → Db → Db
delete_sessions p db = record db { sessions = delete_where p db.sessions }
