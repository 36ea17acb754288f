-- ===== src/Store/Monad.antt =====
-- Store operations: a step on the database that returns or throws. What was written before a
-- throw stays written, unless a transaction stands around it.
use cool_tunnel_server.Base.{ℕ, Option, Bool, true, false, suc, ◌+◌}
use cool_tunnel_server.Base.Texts.{Text}
use cool_tunnel_server.Base.Tables.{insert_row}
use cool_tunnel_server.Base.Results.{Result, ok, throw, Fault}
use cool_tunnel_server.Security.Platform.{Platform}
use cool_tunnel_server.Security.Json.{obj, Fields}
use cool_tunnel_server.Security.Mask.{mask_sensitive}
use cool_tunnel_server.Config.{AdminConfig}
use cool_tunnel_server.Store.Db.{Db}

abbrev pub M : Type 0 → Type 0
M A = Db → Result A × Db

infixl 5 ◌>>=◌ ◌>>◌
unfoldable pub ◌>>=◌ : {A B : Type 0} → M A → (A → M B) → M B
◌>>=◌ m f db = let (r, db') = m db in elim r [ ok a ↦ f a db' | throw e ↦ (throw e, db') ]

unfoldable pub ◌>>◌ : {B : Type 0} → M (Unit {0}) → M B → M B
m >> k = m >>= λ _. k

unfoldable pub return : {A : Type 0} → A → M A
return a db = (ok a, db)

unfoldable pub fail : {A : Type 0} → Fault → M A
fail e db = (throw e, db)

-- A reading of the database that may throw.
unfoldable pub read : {A : Type 0} → (Db → Result A) → M A
read f db = (f db, db)

-- A statement that writes.
unfoldable pub write : (Db → Db) → M (Unit {0})
write f db = (ok tt, f db)

-- `if (bad) throw e`
unfoldable pub fail_if : Bool → Fault → M (Unit {0})
fail_if true e db = (throw e, db)
fail_if false e db = (ok tt, db)

-- A statement that a constraint may reject.
unfoldable pub write_unless : Bool → Fault → (Db → Db) → M (Unit {0})
write_unless true e f db = (throw e, db)
write_unless false e f db = (ok tt, f db)

-- A statement under a condition.
unfoldable pub write_if : Bool → (Db → Db) → M (Unit {0})
write_if true f db = (ok tt, f db)
write_if false f db = (ok tt, db)

-- `db.transaction(() => …)()`: a throw takes every write back.
unfoldable pub transaction : {A : Type 0} → M A → M A
transaction m db = let (r, db') = m db in elim r [ ok a ↦ (ok a, db') | throw e ↦ (throw e, db) ]

-- What one call draws from outside: the clock, at each place that reads it, and fresh random values.
pub record Env : Type 0 where
  -- `nowIso()` for the rows that the operation writes
  pub ts : ℕ
  -- `Date.now()` for an expiry that the operation tests or sets
  pub clock : ℕ
  -- `nowIso()` in `audit`
  pub audit_at : ℕ
  pub random_id : Text
  pub account_id : Text
  pub uuid : Text
  pub random_token : Text

-- What the store is built over: the runtime, `redactSensitive`, the numbers that SQLite leaves out
-- before the next one of an AUTOINCREMENT column, and the configuration, if it has one.
pub record Host : Type 0 where
  pub platform : Platform
  pub redact : Text → Text
  pub skipped_ids : ℕ → ℕ
  pub config : Option AdminConfig

module _ (host : Host) where
  -- `audit`. AUTOINCREMENT gives a number above every one that it has given before.
  unfoldable pub audit_row : ℕ → Option Text → Text → Option Text → Option Text → Fields → Db → Db
  audit_row at actor action target_type target_id detail db = record db {
    audit_log =
        insert_row
          (record {
            id = db.next_audit_id + host.skipped_ids db.next_audit_id;
            action = action;
            actor_user_id = actor;
            target_type = target_type;
            target_id = target_id;
            detail = mask_sensitive host.platform host.redact (obj detail);
            created_at = at;
          })
          db.audit_log;
    next_audit_id = suc (db.next_audit_id + host.skipped_ids db.next_audit_id);
  }
