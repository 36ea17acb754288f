-- ===== src/Store/BootstrapLaws.antt =====
-- The first owner is made once, and with a token that is still good.
use cool_tunnel_server.Base.{
  ℕ, ◌<◌, ◌≡◌, refl, sym, ◌∙◌, Bool, true, false, Option, some, none, List, arith,
}
use cool_tunnel_server.Base.Texts.{Text}
use cool_tunnel_server.Base.Tables.{find?}
use cool_tunnel_server.Base.Results.{ok, throw, Fault, store_error, bootstrap_disabled}
use cool_tunnel_server.Shared.Roles.{owner, role_eq}
use cool_tunnel_server.Store.Db.{Db, AdminUser, BootstrapToken}
use cool_tunnel_server.Store.Monad.{
  M, Host, Env, ◌>>=◌, ◌>>◌, return, fail, read, write, fail_if, write_unless, write_if,
  transaction,
}
use cool_tunnel_server.Store.Users.{has_owner, owner_count}
use cool_tunnel_server.Store.NewUser.{CreateUserInput}
use cool_tunnel_server.Store.Bootstrap.{
  Consumed, refused, token_id, judge, has_hash, is_unused, mark_used, consume_bootstrap_token_hash,
  require_consumed, first_owner, create_first_owner,
}
use cool_tunnel_server.Store.Invariant.{IsConsistent}
use cool_tunnel_server.Store.History.{Call, history}
use cool_tunnel_server.Store.Refinement.{history-owner}

-- What a transaction returns, its body returned; and a throw leaves the database.
transaction-result : {A : Type 0} (m : M A) (db : Db) → (transaction m db).0 ≡ (m db).0
unfolding transaction
transaction-result m db = ground arith

pub transaction-atomic :
    {A : Type 0} (m : M A) (db : Db) (e : Fault)
    → (transaction m db).0 ≡ throw e
    → (transaction m db).1 ≡ db
unfolding transaction
transaction-atomic m db e h = ground arith

transaction-throw :
    {A : Type 0} (m : M A) (db : Db) (e : Fault)
    → m db ≡ (throw e, db)
    → transaction m db ≡ (throw e, db)
unfolding transaction
transaction-throw m db e h = ground arith

abbrev is_token : Consumed → Bool
is_token (token_id id) = true
is_token (refused reason) = false

module _ (host : Host) where
  first_owner-disabled :
      (env : Env) (input : CreateUserInput) (token_hash : Text) (db : Db)
      → has_owner db ≡ true
      → first_owner host env input token_hash db ≡ (throw (store_error bootstrap_disabled 403), db)
  unfolding first_owner ◌>>=◌ ◌>>◌ return fail read write fail_if write_unless write_if transaction
  first_owner-disabled env input token_hash db h = ground arith

  create_first_owner-disabled :
      (env : Env) (input : CreateUserInput) (token_hash : Text) (db : Db)
      → 0 < owner_count db
      → create_first_owner host env input token_hash db
        ≡ (throw (store_error bootstrap_disabled 403), db)
  unfolding create_first_owner has_owner
  create_first_owner-disabled env input token_hash db h =
      transaction-throw (first_owner host env input token_hash) db _
        (first_owner-disabled env input token_hash db (ground arith))

  -- Once a consistent database has an active owner, then after any history of calls, whatever they
  -- return or throw, `createFirstOwner` throws `bootstrap_disabled` and changes nothing.
  pub bootstrap-closed :
      (cs : List Call) (db : Db) (env : Env) (input : CreateUserInput) (token_hash : Text)
      → IsConsistent db
      → 0 < owner_count db
      → create_first_owner host env input token_hash (history host cs db)
        ≡ (throw (store_error bootstrap_disabled 403), history host cs db)
  bootstrap-closed cs db env input token_hash valid some_owner =
      create_first_owner-disabled env input token_hash (history host cs db)
        (history-owner host cs db valid some_owner)

  abbrev found_token : Text → Db → Option BootstrapToken
  found_token token_hash db = find? (has_hash token_hash) db.bootstrap_tokens

  judge-token :
      (now : ℕ) (found : Option BootstrapToken)
      → is_token (judge now found) ≡ true
      → (t : BootstrapToken) × (found ≡ some t) × (is_unused t ≡ true) × (now < t.expires_at)
  judge-token now none e = cc
  judge-token now (some t) e = (t, refl, ground arith, ground arith)

  consumed-judge :
      (env : Env) (token_hash : Text) (db : Db)
      → (consume_bootstrap_token_hash env token_hash db).0
        ≡ ok (judge env.clock (found_token token_hash db))
  unfolding consume_bootstrap_token_hash mark_used ◌>>=◌ ◌>>◌ return fail read write fail_if
      write_unless write_if transaction
  consumed-judge env token_hash db = ground arith

  first_owner-checks :
      (env : Env) (input : CreateUserInput) (token_hash : Text) (db : Db) (user : AdminUser)
      → (first_owner host env input token_hash db).0 ≡ ok user
      → (has_owner db ≡ false)
        × (is_token (judge env.clock (found_token token_hash db)) ≡ true)
        × (role_eq input.role owner ≡ true)
  unfolding first_owner require_consumed ◌>>=◌ ◌>>◌ return fail read write fail_if write_unless
      write_if transaction
  first_owner-checks env input token_hash db user e =
      ground (arith, consumed-judge env token_hash db)

  create_first_owner-result :
      (env : Env) (input : CreateUserInput) (token_hash : Text) (db : Db)
      → (create_first_owner host env input token_hash db).0
        ≡ (first_owner host env input token_hash db).0
  unfolding create_first_owner
  create_first_owner-result env input token_hash db =
      transaction-result (first_owner host env input token_hash) db

  -- When `createFirstOwner` returns a user, no active owner was there, the role asked for is that of
  -- an owner, and a token with the hash was there, neither used nor expired.
  pub create_first_owner-checks :
      (env : Env) (input : CreateUserInput) (token_hash : Text) (db : Db) (user : AdminUser)
      → (create_first_owner host env input token_hash db).0 ≡ ok user
      → (owner_count db ≡ 0)
        × (role_eq input.role owner ≡ true)
        × ((t : BootstrapToken) × (found_token token_hash db ≡ some t)
            × (is_unused t ≡ true)
            × (env.clock < t.expires_at))
  unfolding has_owner
  create_first_owner-checks env input token_hash db user e =
      let (none_yet, good, role) =
        first_owner-checks env input token_hash db user
          (sym (create_first_owner-result env input token_hash db) ∙ e) in
      (ground arith, role, judge-token env.clock (found_token token_hash db) good)
