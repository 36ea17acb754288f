-- ===== src/Store/Bootstrap.antt =====
-- packages/db/src/store.ts: bootstrap tokens and the first owner.
use cool_tunnel_server.Base.{
  ℕ, ◌+◌, ◌*◌, Bool, true, false, not, ◌&&◌, ◌||◌, Option, some, none, leb, if◌then◌else◌,
}
use cool_tunnel_server.Base.Texts.{Text, text_eq, codes}
use cool_tunnel_server.Base.Tables.{find?, update_where, delete_where, insert_row, any}
use cool_tunnel_server.Base.Results.{
  ok, store_error, plain, bootstrap_disabled, invalid_bootstrap_token, invalid_role,
}
use cool_tunnel_server.Security.Json.{str, end, field}
use cool_tunnel_server.Shared.Roles.{owner, role_eq}
use cool_tunnel_server.Store.Db.{Db, AdminUser, BootstrapToken}
use cool_tunnel_server.Store.Monad.{
  M, ◌>>=◌, ◌>>◌, return, read, write, fail, fail_if, write_unless, transaction, Env, Host,
  audit_row,
}
use cool_tunnel_server.Store.Users.{has_owner}
use cool_tunnel_server.Store.NewUser.{CreateUserInput}
use cool_tunnel_server.Store.Accounts.{insert_user}

pub data Refusal : Type 0 where
  missing used expired : Refusal

pub data Consumed : Type 0 where
  token_id : Text → Consumed
  refused : Refusal → Consumed

abbrev pub has_hash : Text → BootstrapToken → Bool
has_hash token_hash t = text_eq t.token_hash token_hash

abbrev pub is_unused : BootstrapToken → Bool
is_unused t = elim t.used_at [ none ↦ true | some at ↦ false ]

-- The branches of `consumeBootstrapTokenHash` on the row it has found.
abbrev pub judge : ℕ → Option BootstrapToken → Consumed
judge now none = refused missing
judge now (some t) =
    if not (is_unused t)
    then refused used
    else if leb t.expires_at now
    then refused expired
    else token_id t.id

unfoldable pub use_token : ℕ → Text → Db → Db
use_token at id db = record db {
  bootstrap_tokens =
      update_where (λ t. text_eq t.id id && is_unused t) (λ t. record t { used_at = some at })
        db.bootstrap_tokens;
}

-- The UPDATE of `consumeBootstrapTokenHash`, on its last branch.
unfoldable pub mark_used : Env → Consumed → M Consumed
mark_used env (refused reason) = return (refused reason)
mark_used env (token_id id) = do write (use_token env.ts id); return (token_id id)

-- `consumeBootstrapTokenHash`
unfoldable pub consume_bootstrap_token_hash : Env → Text → M Consumed
consume_bootstrap_token_hash env token_hash = do
  verdict ← read (λ db. ok (judge env.clock (find? (has_hash token_hash) db.bootstrap_tokens)))
  mark_used env verdict

-- `if (!token.ok) throw …`
unfoldable pub require_consumed : Consumed → M (Unit {0})
require_consumed (refused reason) = fail (store_error invalid_bootstrap_token 403)
require_consumed (token_id id) = return tt

-- `pruneExpiredBootstrapTokens`
unfoldable pub prune_expired_bootstrap_tokens : ℕ → Db → Db
prune_expired_bootstrap_tokens now db = record db {
  bootstrap_tokens =
      delete_where (λ t. leb t.expires_at now || not (is_unused t)) db.bootstrap_tokens;
}

abbrev pub new_token : Env → Text → ℕ → BootstrapToken
new_token env token_hash ttl_minutes = record {
  id = env.random_id;
  token_hash = token_hash;
  expires_at = env.clock + ttl_minutes * 60000;
  used_at = none;
  created_at = env.ts;
}

-- The PRIMARY KEY and the UNIQUE constraint of an INSERT into `bootstrap_token`.
unfoldable pub token_conflicts : BootstrapToken → Db → Bool
token_conflicts t db =
    any (λ o. text_eq o.id t.id) db.bootstrap_tokens
    || any (has_hash t.token_hash) db.bootstrap_tokens

unfoldable pub insert_token : BootstrapToken → Db → Db
insert_token row db = record db { bootstrap_tokens = insert_row row db.bootstrap_tokens }

module _ (host : Host) where
  -- `createBootstrapToken`. The token and its fingerprint are drawn from the runtime, the hash is
  -- HMAC-SHA-256 under the secret; `expiresAt` in the audit detail is the row's.
  unfoldable pub create_bootstrap_token :
      Env → (secret token fingerprint expires_text : Text) → ℕ → M BootstrapToken
  create_bootstrap_token env secret token fingerprint expires_text ttl_minutes = do
    disabled ← read (λ db. ok (has_owner db))
    fail_if disabled (store_error bootstrap_disabled 403)
    write (prune_expired_bootstrap_tokens env.ts)
    let row = new_token env (host.platform.hmac_hex secret token) ttl_minutes
    conflict ← read (λ db. ok (token_conflicts row db))
    write_unless conflict plain (insert_token row)
    write (
        audit_row host env.audit_at none (codes "bootstrap.token.created")
          (some (codes "bootstrap_token")) none
          (field (codes "tokenFingerprint") (str fingerprint)
            (field (codes "expiresAt") (str expires_text) end)))
    return row

  -- The body of the transaction of `createFirstOwner`.
  unfoldable pub first_owner : Env → CreateUserInput → Text → M AdminUser
  first_owner env input token_hash = do
    disabled ← read (λ db. ok (has_owner db))
    fail_if disabled (store_error bootstrap_disabled 403)
    consumed ← consume_bootstrap_token_hash env token_hash
    require_consumed consumed
    fail_if (not (role_eq input.role owner)) (store_error invalid_role 400)
    user ← insert_user host env none (record input { must_change_password = some false })
    write (
        audit_row host env.audit_at (some user.id) (codes "bootstrap.owner.created")
          (some (codes "user")) (some user.id) (field (codes "username") (str user.username) end))
    return user

  unfoldable pub create_first_owner : Env → CreateUserInput → Text → M AdminUser
  create_first_owner env input token_hash = transaction (first_owner env input token_hash)
