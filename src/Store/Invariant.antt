-- ===== src/Store/Invariant.antt =====
-- The invariants of the tables `user` and `session`: keys are unique, only active users have
-- sessions, and an active owner is never lost.
use cool_tunnel_server.Shared.Roles.{is_active}
use cool_tunnel_server.Store.Frames.{of_user}
use cool_tunnel_server.Store.Users.{has_id}
use cool_tunnel_server.Base.Tables.{count}
use cool_tunnel_server.Base.Texts.{Text, text_eq}
use cool_tunnel_server.Store.Db.{AdminUser, Db}
use cool_tunnel_server.Base.{◌≤◌, Bool, ◌<◌, ◌&&◌}

-- At most one row has the value in the column.
abbrev pub IsUnique : (AdminUser → Text) → Db → Type 0
IsUnique column db = (v : Text) → count (λ u. text_eq (column u) v) db.users ≤ 1

abbrev pub is_active_with_id : Text → AdminUser → Bool
is_active_with_id v u = has_id v u && is_active u.status

pub record IsConsistent (db : Db) : Type 0 where
  pub unique_id : IsUnique (λ u. u.id) db
  pub unique_email : IsUnique (λ u. u.email) db
  pub unique_username : IsUnique (λ u. u.username) db
  pub sessions_active :
      (v : Text) → 0 < count (of_user v) db.sessions → 0 < count (is_active_with_id v) db.users
