-- ===== src/Store/Unique.antt =====
-- The UNIQUE columns of `user` under each statement.
use cool_tunnel_server.Store.Users.{has_id}
use cool_tunnel_server.Store.Update.{taken_by_other}
use cool_tunnel_server.Base.Tables.{
  any, count, update_where, insert_row, delete_where, count-update_bound, count-update_le,
  count-delete_le, count_of_not_any, count-insert_row,
}
use cool_tunnel_server.Store.Db.{AdminUser, Db}
use cool_tunnel_server.Base.Texts.{Text, text_eq, text_eq→eq}
use cool_tunnel_server.Base.{◌≤◌, Bool, true, false, ◌≡◌, Bool-cases, arith, inl, inr}

set_other :
    (v value was now : Text)
    → was ≡ value
    → text_eq value v ≡ false
    → text_eq was v ≡ true
    → text_eq now v ≡ true
set_other v value was now e other h = cc

module _ (column : AdminUser → Text) (db : Db) where
  abbrev with_value : Text → AdminUser → Bool
  with_value v u = text_eq (column u) v

  -- The updated row takes a value that no other row has.
  pub update_unique :
      (id value : Text) (f : AdminUser → AdminUser)
      → ((u : AdminUser) → column (f u) ≡ value)
      → any (taken_by_other column id value) db.users ≡ false
      → count (has_id id) db.users ≤ 1
      → ((v : Text) → count (with_value v) db.users ≤ 1)
      → (v : Text) → count (with_value v) (update_where (has_id id) f db.users) ≤ 1
  update_unique id value f set free once unique v = elim (Bool-cases (text_eq value v)) [
    | inl same ↦
        let bound = count-update_bound (with_value v) (has_id id) f db.users in
        let others = count_of_not_any (taken_by_other column id value) db.users free in
        let others' : count (taken_by_other column id v) db.users ≡ 0 =
          rw (← text_eq→eq value v same) others in
        omega arith
    | inr other ↦ omega (
      arith,
      unique v,
      count-update_le (with_value v) (has_id id) f
          (λ x _ e. set_other v value (column (f x)) (column x) (set x) other e) db.users,
    )
  ]

  pub keep_unique :
      (id : Text) (f : AdminUser → AdminUser)
      → ((u : AdminUser) → column (f u) ≡ column u)
      → ((v : Text) → count (with_value v) db.users ≤ 1)
      → (v : Text) → count (with_value v) (update_where (has_id id) f db.users) ≤ 1
  keep_unique id f same unique v = omega (
    arith,
    unique v,
    count-update_le (with_value v) (has_id id) f (λ x _ e. rw (same x) at e) db.users,
  )

  pub insert_unique :
      (row : AdminUser)
      → any (with_value (column row)) db.users ≡ false
      → ((v : Text) → count (with_value v) db.users ≤ 1)
      → (v : Text) → count (with_value v) (insert_row row db.users) ≤ 1
  insert_unique row free unique v = elim (Bool-cases (text_eq (column row) v)) [
    | inl same ↦
        let none_yet : count (with_value v) db.users ≡ 0 =
          rw (← text_eq→eq (column row) v same)
            (count_of_not_any (with_value (column row)) db.users free) in
        ground (arith, count-insert_row (with_value v) row db.users)
    | inr other ↦ ground (arith, unique v, count-insert_row (with_value v) row db.users)
  ]

  pub delete_unique :
      (id : Text)
      → ((v : Text) → count (with_value v) db.users ≤ 1)
      → (v : Text) → count (with_value v) (delete_where (has_id id) db.users) ≤ 1
  delete_unique id unique v =
      omega (arith, unique v, count-delete_le (with_value v) (has_id id) db.users)
