-- ===== src/Store/SessionsActive.antt =====
-- Only active users have sessions, under each statement.
use cool_tunnel_server.Store.Invariant.{is_active_with_id}
use cool_tunnel_server.Base.Tables.{
  find?, count, update_where, delete_where, insert_row, count-update_keeps, count-delete_loss,
  count-and_disjoint, count-and_of_found, count-insert_row,
}
use cool_tunnel_server.Store.Frames.{KeepsIdentity, of_user}
use cool_tunnel_server.Shared.Roles.{is_active}
use cool_tunnel_server.Store.Users.{UserPlan, has_id}
use cool_tunnel_server.Store.Db.{Db, AdminUser, Session}
use cool_tunnel_server.Store.Update.{apply_plan}
use cool_tunnel_server.Base.Texts.{Text, text_eq, text_eq→eq}
use cool_tunnel_server.Base.{
  ℕ, ◌≤◌, true, false, ◌≡◌, List, some, Bool-cases, arith, ◌<◌, ap, inl, inr,
}

-- What a row shows of itself to the invariant on sessions.
is_active_with_id_keeps :
    (v : Text) (a b : AdminUser)
    → a.id ≡ b.id
    → is_active a.status ≡ is_active b.status
    → is_active_with_id v b ≡ true
    → is_active_with_id v a ≡ true
is_active_with_id_keeps v a b e s h = rw (e, s) h

pub touched_sessions :
    (id : Text) (f : AdminUser → AdminUser) (v : Text)
    → KeepsIdentity f
    → (users : List AdminUser)
    → count (is_active_with_id v) users
      ≤ count (is_active_with_id v) (update_where (has_id id) f users)
touched_sessions id f v same users =
    count-update_keeps (is_active_with_id v) (has_id id) f
      (λ x _ h.
        let (same_id, _, _, _, status) = same x in
        is_active_with_id_keeps v (f x) x same_id (ap is_active status) h)
      users

two_ids :
    (id v : Text) (x : AdminUser)
    → text_eq id v ≡ false
    → has_id id x ≡ true
    → is_active_with_id v x ≡ false
two_ids id v x other e = rw (text_eq→eq x.id id e, other)

pub updated_sessions :
    (id : Text) (plan : UserPlan) (ts : ℕ) (v : Text)
    → (text_eq id v ≡ true → is_active plan.status ≡ true)
    → (users : List AdminUser)
    → count (is_active_with_id v) users
      ≤ count (is_active_with_id v) (update_where (has_id id) (apply_plan plan ts) users)
unfolding apply_plan
updated_sessions id plan ts v stays users = elim (Bool-cases (text_eq id v)) [
  | inl same ↦
      count-update_keeps (is_active_with_id v) (has_id id) (apply_plan plan ts)
        (λ x _ h. ground (arith, stays same)) users
  | inr other ↦
      count-update_keeps (is_active_with_id v) (has_id id) (apply_plan plan ts)
        (λ x e h. ground (arith, two_ids id v x other e)) users
]

pub deleted_sessions :
    (id v : Text)
    → text_eq id v ≡ false
    → (users : List AdminUser)
    → count (is_active_with_id v) users
      ≤ count (is_active_with_id v) (delete_where (has_id id) users)
deleted_sessions id v other users = omega (
  arith,
  count-delete_loss (is_active_with_id v) (has_id id) users,
  count-and_disjoint (is_active_with_id v) (has_id id) (λ x e. two_ids id v x other e) users,
)

pub opened_sessions :
    (db after : Db) (s : Session) (user : AdminUser)
    → find? (has_id s.user_id) db.users ≡ some user
    → is_active user.status ≡ true
    → after.sessions ≡ insert_row s db.sessions
    → (v : Text) → (0 < count (of_user v) db.sessions → 0 < count (is_active_with_id v) db.users)
    → 0 < count (of_user v) after.sessions
    → 0 < count (is_active_with_id v) db.users
opened_sessions db after s user found live e v h more = elim (Bool-cases (of_user v s)) [
  | inl same ↦
      rw (← text_eq→eq s.user_id v same)
        (count-and_of_found (λ u. is_active u.status) (has_id s.user_id) db.users user found live)
  | inr other ↦
      let more' : 0 < count (of_user v) (insert_row s db.sessions) = rw e at more in
      ground (arith, h, count-insert_row (of_user v) s db.sessions)
]
