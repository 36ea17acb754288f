-- ===== src/Store/Consistent.antt =====
-- Unique keys, and sessions of active users only, whatever change the tables undergo.
use cool_tunnel_server.Store.SessionsActive.{
  touched_sessions, deleted_sessions, updated_sessions, opened_sessions,
}
use cool_tunnel_server.Store.Unique.{insert_unique, keep_unique, update_unique, delete_unique}
use cool_tunnel_server.Shared.Roles.{is_active}
use cool_tunnel_server.Base.Tables.{
  any, update_where, insert_row, delete_where, count, count-insert_row,
}
use cool_tunnel_server.Store.Frames.{
  Change, KeepsIdentity, kept, FewerSessions, of_user, touched, updated, inserted, deleted, opened,
}
use cool_tunnel_server.Base.Texts.{Text, text_eq, text_eq→eq}
use cool_tunnel_server.Store.Invariant.{IsConsistent, is_active_with_id}
use cool_tunnel_server.Store.Users.{UserPlan, has_id}
use cool_tunnel_server.Store.Monad.{Host}
use cool_tunnel_server.Store.Db.{Db, AdminUser}
use cool_tunnel_server.Store.Accounts.{insert_conflicts}
use cool_tunnel_server.Store.Update.{conflicts, apply_plan, taken_by_other}
use cool_tunnel_server.Base.{ℕ, true, false, ◌≡◌, ◌<◌, refl, arith, Bool-cases, inl, inr}

-- `conflicts` and `insert_conflicts`, taken apart.
conflicts-parts :
    (plan : UserPlan) (id : Text) (db : Db)
    → conflicts plan id db ≡ false
    → (any (taken_by_other (λ u. u.email) id plan.email) db.users ≡ false)
      × (any (taken_by_other (λ u. u.username) id plan.username) db.users ≡ false)
unfolding conflicts
conflicts-parts plan id db h = ground arith

insert_conflicts-parts :
    (row : AdminUser) (db : Db)
    → insert_conflicts row db ≡ false
    → (any (has_id row.id) db.users ≡ false)
      × (any (λ u. text_eq u.email row.email) db.users ≡ false)
      × (any (λ u. text_eq u.username row.username) db.users ≡ false)
unfolding insert_conflicts
insert_conflicts-parts row db h = ground arith

apply_plan-fields :
    (plan : UserPlan) (ts : ℕ) (u : AdminUser)
    → ((apply_plan plan ts u).id ≡ u.id)
      × ((apply_plan plan ts u).email ≡ plan.email)
      × ((apply_plan plan ts u).username ≡ plan.username)
unfolding apply_plan
apply_plan-fields plan ts u = (refl, refl, refl)

-- Behind a change that touches no key.
same_users :
    {db after : Db}
    → after.users ≡ db.users
    → IsConsistent db
    → ((v : Text) → 0 < count (of_user v) after.sessions → 0 < count (is_active_with_id v) db.users)
    → IsConsistent after
same_users e valid live = record {
  unique_id = rw e valid.unique_id;
  unique_email = rw e valid.unique_email;
  unique_username = rw e valid.unique_username;
  sessions_active = rw e live;
}

updated-IsConsistent :
    (db after : Db) (id : Text) (plan : UserPlan) (ts : ℕ)
    → conflicts plan id db ≡ false
    → after.users ≡ update_where (has_id id) (apply_plan plan ts) db.users
    → FewerSessions after db
    → (is_active plan.status ≡ false → count (of_user id) after.sessions ≡ 0)
    → IsConsistent db
    → IsConsistent after
updated-IsConsistent db after id plan ts free e fewer closed valid = record {
  unique_id = rw e (
      keep_unique (λ u. u.id) db id (apply_plan plan ts) (λ u. (apply_plan-fields plan ts u).0)
        valid.unique_id);
  unique_email = rw e (
      update_unique (λ u. u.email) db id plan.email (apply_plan plan ts)
        (λ u. (apply_plan-fields plan ts u).1) (conflicts-parts plan id db free).0
        (valid.unique_id id) valid.unique_email);
  unique_username = rw e (
      update_unique (λ u. u.username) db id plan.username (apply_plan plan ts)
        (λ u. (apply_plan-fields plan ts u).2) (conflicts-parts plan id db free).1
        (valid.unique_id id) valid.unique_username);
  sessions_active = λ v some_session. rw e (
      omega (
        arith,
        fewer v,
        valid.sessions_active v (omega (arith, fewer v)),
        updated_sessions id plan ts v (stays v some_session) db.users,
      ));
}
  where
    stays :
        (v : Text)
        → 0 < count (of_user v) after.sessions
        → text_eq id v ≡ true
        → is_active plan.status ≡ true
    stays v some_session same = elim (Bool-cases (is_active plan.status)) [
      | inl live ↦ live
      | inr off ↦ absurd (omega (arith, rw (text_eq→eq id v same) at (closed off)))
    ]

inserted-IsConsistent :
    (db after : Db) (row : AdminUser)
    → insert_conflicts row db ≡ false
    → after.users ≡ insert_row row db.users
    → FewerSessions after db
    → IsConsistent db
    → IsConsistent after
inserted-IsConsistent db after row free e fewer valid =
    let (no_id, no_email, no_username) = insert_conflicts-parts row db free in
    record {
      unique_id = rw e (insert_unique (λ u. u.id) db row no_id valid.unique_id);
      unique_email = rw e (insert_unique (λ u. u.email) db row no_email valid.unique_email);
      unique_username =
          rw e (insert_unique (λ u. u.username) db row no_username valid.unique_username);
      sessions_active = λ v some_session. rw e (
          omega (
            arith,
            valid.sessions_active v (omega (arith, fewer v)),
            count-insert_row (is_active_with_id v) row db.users,
          ));
    }

deleted-IsConsistent :
    (db after : Db) (id : Text)
    → after.users ≡ delete_where (has_id id) db.users
    → FewerSessions after db
    → count (of_user id) after.sessions ≡ 0
    → IsConsistent db
    → IsConsistent after
deleted-IsConsistent db after id e fewer closed valid = record {
  unique_id = rw e (delete_unique (λ u. u.id) db id valid.unique_id);
  unique_email = rw e (delete_unique (λ u. u.email) db id valid.unique_email);
  unique_username = rw e (delete_unique (λ u. u.username) db id valid.unique_username);
  sessions_active = λ v some_session. rw e (live v some_session);
}
  where
    live :
        (v : Text)
        → 0 < count (of_user v) after.sessions
        → 0 < count (is_active_with_id v) (delete_where (has_id id) db.users)
    live v some_session = elim (Bool-cases (text_eq id v)) [
      | inl same ↦ absurd (omega (arith, rw (text_eq→eq id v same) at closed))
      | inr other ↦ omega (
        arith,
        valid.sessions_active v (omega (arith, fewer v)),
        deleted_sessions id v other db.users,
      )
    ]

touched-IsConsistent :
    (db after : Db) (id : Text) (f : AdminUser → AdminUser)
    → KeepsIdentity f
    → after.users ≡ update_where (has_id id) f db.users
    → FewerSessions after db
    → IsConsistent db
    → IsConsistent after
touched-IsConsistent db after id f same e fewer valid = record {
  unique_id = rw e (keep_unique (λ u. u.id) db id f (λ u. (same u).0) valid.unique_id);
  unique_email = rw e (keep_unique (λ u. u.email) db id f (λ u. (same u).1) valid.unique_email);
  unique_username =
      rw e (keep_unique (λ u. u.username) db id f (λ u. (same u).2) valid.unique_username);
  sessions_active = λ v some_session. rw e (
      omega (
        arith,
        valid.sessions_active v (omega (arith, fewer v)),
        touched_sessions id f v same db.users,
      ));
}

-- The invariants hold behind every change.
pub Change-IsConsistent :
    {host : Host} {db after : Db} → Change host db after → IsConsistent db → IsConsistent after
Change-IsConsistent {db} {after} (kept e fewer) valid =
    same_users e valid (λ v h. valid.sessions_active v (omega (arith, fewer v)))
Change-IsConsistent {db} {after} (touched id f same e fewer) valid =
    touched-IsConsistent db after id f same e fewer valid
Change-IsConsistent {db} {after} (updated actor id input ts plan _ free e fewer closed) valid =
    updated-IsConsistent db after id plan ts free e fewer closed valid
Change-IsConsistent {db} {after} (inserted row _ free e fewer) valid =
    inserted-IsConsistent db after row free e fewer valid
Change-IsConsistent {db} {after} (deleted actor id target _ e fewer closed) valid =
    deleted-IsConsistent db after id e fewer closed valid
Change-IsConsistent {db} {after} (opened s user found live e grown) valid =
    same_users e valid
      (λ v h. opened_sessions db after s user found live grown v (valid.sessions_active v) h)
