-- ===== src/Store/RefineInsert.antt =====
-- Creating a user, and the first owner, make changes of `Frames.Change`.
use cool_tunnel_server.Store.Bootstrap.{
  consume_bootstrap_token_hash, first_owner, create_first_owner, use_token, mark_used,
  require_consumed,
}
use cool_tunnel_server.Base.Texts.{Text}
use cool_tunnel_server.Base.Tables.{insert_row}
use cool_tunnel_server.Store.NewUser.{CreateUserInput, new_user}
use cool_tunnel_server.Store.Accounts.{
  insert_conflicts, insert_user, create_user, insert_user_row, insert_account_row,
}
use cool_tunnel_server.Store.Users.{Actor}
use cool_tunnel_server.Base.Results.{ok, Fault, Result-cases, throw, Result}
use cool_tunnel_server.Shared.Roles.{is_active}
use cool_tunnel_server.Store.Refine.{unchanged, same_sessions}
use cool_tunnel_server.Store.Monad.{
  Host, M, transaction, Env, audit_row, ◌>>=◌, ◌>>◌, return, fail, read, write, fail_if,
  write_unless, write_if,
}
use cool_tunnel_server.Store.Db.{Db, AdminUser}
use cool_tunnel_server.Base.{
  ◌≡◌, refl, sym, ap, ◌∙◌, subst, ◌⊎◌, inl, inr, true, false, Option, some, none, arith, Bool-cases,
}
use cool_tunnel_server.Store.Frames.{Change, inserted}

-- Nothing on the users, or one new active user whose keys were free.
abbrev pub Inserts : Db → Db → Type 0
Inserts db after =
    ((after.users ≡ db.users) × (after.sessions ≡ db.sessions))
    ⊎ ((row : AdminUser) × (is_active row.status ≡ true)
        × (insert_conflicts row db ≡ false)
        × (after.users ≡ insert_row row db.users)
        × (after.sessions ≡ db.sessions))

pub Inserts-Change : {host : Host} (db after : Db) → Inserts db after → Change host db after
Inserts-Change db after (inl (users, sessions)) = unchanged db after users sessions
Inserts-Change db after (inr (row, live, free, users, sessions)) =
    inserted row live free users (same_sessions db after sessions)

transaction_from :
    {A : Type 0} (m : M A) (db : Db) (r : Result A) (d : Db)
    → m db ≡ (r, d)
    → ((transaction m db).1 ≡ db)
      ⊎ (((transaction m db).1 ≡ (m db).1) × ((a : A) × (m db ≡ (ok a, (m db).1))))
unfolding transaction
transaction_from m db (ok a) d e = inr (ground arith, (a, ground arith))
transaction_from m db (throw f) d e = inl (ground arith)

pub transaction-cases :
    {A : Type 0} (m : M A) (db : Db)
    → ((transaction m db).1 ≡ db)
      ⊎ (((transaction m db).1 ≡ (m db).1) × ((a : A) × (m db ≡ (ok a, (m db).1))))
transaction-cases m db = transaction_from m db (m db).0 (m db).1 refl

module _ (host : Host) (env : Env) (actor : Option Actor) (input : CreateUserInput) (db : Db) where
  new_user-active :
      (row : AdminUser) → new_user host env actor input ≡ ok row → is_active row.status ≡ true
  unfolding new_user
  new_user-active row e = ground arith

  insert_user-refused :
      (e : Fault)
      → new_user host env actor input ≡ throw e
      → insert_user host env actor input db ≡ (throw e, db)
  unfolding insert_user ◌>>=◌ ◌>>◌ return fail read write fail_if write_unless write_if transaction
  insert_user-refused e refused = ground arith

  insert_user-taken :
      (row : AdminUser)
      → new_user host env actor input ≡ ok row
      → insert_conflicts row db ≡ true
      → (insert_user host env actor input db).1 ≡ db
  unfolding insert_user ◌>>=◌ ◌>>◌ return fail read write fail_if write_unless write_if transaction
  insert_user-taken row e taken = ground arith

  insert_user-done :
      (row : AdminUser)
      → new_user host env actor input ≡ ok row
      → insert_conflicts row db ≡ false
      → ((insert_user host env actor input db).1.users ≡ insert_row row db.users)
        × ((insert_user host env actor input db).1.sessions ≡ db.sessions)
  unfolding insert_user insert_user_row insert_account_row audit_row ◌>>=◌ ◌>>◌ return fail read
      write fail_if write_unless write_if transaction
  insert_user-done row e free = ground arith

  pub insert_user-Inserts : Inserts db (insert_user host env actor input db).1
  insert_user-Inserts = elim (Result-cases (new_user host env actor input)) [
    | inl (row, e) ↦ elim (Bool-cases (insert_conflicts row db)) [
      | inl taken ↦ rw (insert_user-taken row e taken) (inl (refl, refl))
      | inr free ↦
          let (users, sessions) = insert_user-done row e free in
          inr (row, new_user-active row e, free, users, sessions)
    ]
    | inr (e, refused) ↦ rw (insert_user-refused e refused) (inl (refl, refl))
  ]

  pub create_user-Change : Change host db (create_user host env actor input db).1
  unfolding create_user ◌>>=◌ ◌>>◌ return fail read write fail_if write_unless write_if transaction
  create_user-Change = elim (transaction-cases (insert_user host env actor input) db) [
    | inl rolled_back ↦
        unchanged db _ (ap (λ d. d.users) rolled_back) (ap (λ d. d.sessions) rolled_back)
    | inr (committed, _) ↦
        subst (Change host db) (sym committed) (Inserts-Change db _ insert_user-Inserts)
  ]

-- The first owner.
module _ (host : Host) (env : Env) (input : CreateUserInput) (token_hash : Text) (db : Db) where
  abbrev first_input : CreateUserInput
  first_input = record input { must_change_password = some false }

  abbrev consumed_db : Db
  consumed_db = (consume_bootstrap_token_hash env token_hash db).1

  pub consume-keeps : (consumed_db.users ≡ db.users) × (consumed_db.sessions ≡ db.sessions)
  unfolding consume_bootstrap_token_hash mark_used use_token ◌>>=◌ ◌>>◌ return fail read write
      fail_if write_unless write_if transaction
  consume-keeps = ground arith

  Inserts-consumed : (after : Db) → Inserts consumed_db after → Inserts db after
  unfolding insert_conflicts
  Inserts-consumed after (inl (users, sessions)) =
      inl (users ∙ consume-keeps.0, sessions ∙ consume-keeps.1)
  Inserts-consumed after (inr (row, live, free, users, sessions)) = inr (
    row,
    live,
    ground (arith, consume-keeps),
    ground (arith, consume-keeps),
    sessions ∙ consume-keeps.1,
  )

  first_owner-effect :
      (((first_owner host env input token_hash db).1.users ≡ db.users)
        × ((first_owner host env input token_hash db).1.sessions ≡ db.sessions))
      ⊎ (((first_owner host env input token_hash db).1.users
            ≡ (insert_user host env none first_input consumed_db).1.users)
          × ((first_owner host env input token_hash db).1.sessions
              ≡ (insert_user host env none first_input consumed_db).1.sessions))
  unfolding first_owner require_consumed audit_row ◌>>=◌ ◌>>◌ return fail read write fail_if
      write_unless write_if transaction
  first_owner-effect = ground (arith, consume-keeps)

  Inserts-same :
      (after after' : Db)
      → after'.users ≡ after.users
      → after'.sessions ≡ after.sessions
      → Inserts db after
      → Inserts db after'
  Inserts-same after after' u s (inl (users, sessions)) = inl (u ∙ users, s ∙ sessions)
  Inserts-same after after' u s (inr (row, live, free, users, sessions)) =
      inr (row, live, free, u ∙ users, s ∙ sessions)

  first_owner-Inserts : Inserts db (first_owner host env input token_hash db).1
  first_owner-Inserts = elim first_owner-effect [
    | inl (users, sessions) ↦ inl (users, sessions)
    | inr (users, sessions) ↦
        let after = (insert_user host env none first_input consumed_db).1 in
        Inserts-same after (first_owner host env input token_hash db).1 users sessions
          (Inserts-consumed after (insert_user-Inserts host env none first_input consumed_db))
  ]

  pub create_first_owner-Change : Change host db (create_first_owner host env input token_hash db).1
  unfolding create_first_owner ◌>>=◌ ◌>>◌ return fail read write fail_if write_unless write_if
      transaction
  create_first_owner-Change = elim (transaction-cases (first_owner host env input token_hash) db) [
    | inl rolled_back ↦
        unchanged db _ (ap (λ d. d.users) rolled_back) (ap (λ d. d.sessions) rolled_back)
    | inr (committed, _) ↦
        subst (Change host db) (sym committed) (Inserts-Change db _ first_owner-Inserts)
  ]
