-- ===== src/Store/Owner.antt =====
-- An active owner is never lost, whatever change the tables undergo.
use cool_tunnel_server.Store.Guards.{SparesOwner, plan_update-Allowed, check_delete-ok}
use cool_tunnel_server.Store.Invariant.{IsConsistent}
use cool_tunnel_server.Shared.Roles.{role_eq, owner, is_active}
use cool_tunnel_server.Base.Tables.{
  find?, count, update_where, delete_where, count-and_of_find, count-update_keeps,
  count-update_loss, count-delete_loss, count-and_le, count-insert_row,
}
use cool_tunnel_server.Store.Monad.{Host}
use cool_tunnel_server.Store.Frames.{
  KeepsIdentity, Change, kept, touched, updated, inserted, deleted, opened,
}
use cool_tunnel_server.Store.Db.{AdminUser, Db}
use cool_tunnel_server.Store.Update.{apply_plan}
use cool_tunnel_server.Store.Users.{owner_count, UserPlan, is_active_owner, has_id}
use cool_tunnel_server.Base.Texts.{Text}
use cool_tunnel_server.Base.{
  ℕ, ◌≤◌, Bool, true, false, ◌≡◌, some, ◌<◌, ◌&&◌, inl, refl, arith, inr, ◌∙◌,
}

module _ (id : Text) (db : Db) (target : AdminUser) (stays : Bool) where
  -- An update of the row with the id leaves an active owner.
  update_owner :
      (f : AdminUser → AdminUser)
      → ((u : AdminUser) → is_active_owner (f u) ≡ stays)
      → find? (has_id id) db.users ≡ some target
      → count (has_id id) db.users ≤ 1
      → SparesOwner target stays db
      → 0 < count is_active_owner db.users
      → 0 < count is_active_owner (update_where (has_id id) f db.users)
  unfolding owner_count
  update_owner f h found once (inl other) some_owner = omega (
    arith,
    count-and_of_find is_active_owner (has_id id) db.users target found other once,
    count-update_loss is_active_owner (has_id id) f db.users,
  )
  update_owner f h found once (inr (inl stay)) some_owner =
      omega (arith, count-update_keeps is_active_owner (has_id id) f (λ x _ _. h x ∙ stay) db.users)
  update_owner f h found once (inr (inr two)) some_owner = omega (
    arith,
    count-update_loss is_active_owner (has_id id) f db.users,
    count-and_le is_active_owner (has_id id) db.users,
  )

delete_owner :
    (id : Text) (db : Db) (target : AdminUser)
    → find? (has_id id) db.users ≡ some target
    → count (has_id id) db.users ≤ 1
    → SparesOwner target false db
    → 0 < count is_active_owner db.users
    → 0 < count is_active_owner (delete_where (has_id id) db.users)
unfolding owner_count
delete_owner id db target found once (inl other) some_owner = omega (
  arith,
  count-and_of_find is_active_owner (has_id id) db.users target found other once,
  count-delete_loss is_active_owner (has_id id) db.users,
)
delete_owner id db target found once (inr (inl stay)) some_owner = cc
delete_owner id db target found once (inr (inr two)) some_owner = omega (
  arith,
  count-delete_loss is_active_owner (has_id id) db.users,
  count-and_le is_active_owner (has_id id) db.users,
)

apply_plan-owner :
    (plan : UserPlan) (ts : ℕ) (u : AdminUser)
    → is_active_owner (apply_plan plan ts u) ≡ (role_eq plan.role owner && is_active plan.status)
unfolding apply_plan
apply_plan-owner plan ts u = refl

keeps_owner :
    (f : AdminUser → AdminUser)
    → KeepsIdentity f
    → (q : AdminUser → Bool) (x : AdminUser) → q x ≡ true
    → is_active_owner x ≡ true
    → is_active_owner (f x) ≡ true
keeps_owner f h q x _ e = let (_, _, _, role, status) = h x in rw (role, status) e

-- Whatever change the tables undergo, an active owner is left where there was one.
pub Change-owner :
    {host : Host} {db after : Db}
    → Change host db after
    → IsConsistent db
    → 0 < owner_count db
    → 0 < owner_count after
unfolding owner_count
Change-owner (kept e _) v h = rw e h
Change-owner {db} (touched id f same e _) v h = rw e (
    omega (
      arith,
      count-update_keeps is_active_owner (has_id id) f (keeps_owner f same (has_id id)) db.users,
    ))
Change-owner {host} {db} (updated actor id input ts plan p _ e _ _) v h =
    let allowed = plan_update-Allowed host actor id input db plan p in
    rw e (
      update_owner id db plan.target (role_eq plan.role owner && is_active plan.status)
        (apply_plan plan ts) (apply_plan-owner plan ts) allowed.found (v.unique_id id)
        allowed.spares h)
Change-owner {db} (inserted row _ _ e _) v h =
    rw e (omega (arith, count-insert_row is_active_owner row db.users))
Change-owner {db} (deleted actor id target c e _ _) v h =
    let (found, _, _, spares) = check_delete-ok actor id db target c in
    rw e (delete_owner id db target found (v.unique_id id) spares h)
Change-owner (opened s user _ _ e _) v h = rw e h
