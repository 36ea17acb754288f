-- ===== src/Store/Steps.antt =====
-- A rule for each way to put store operations together, for any reflexive and transitive relation
-- between the database before and after.
use cool_tunnel_server.Base.Results.{Result, Fault, ok, throw}
use cool_tunnel_server.Base.{Bool, true, false}
use cool_tunnel_server.Store.Db.{Db}
use cool_tunnel_server.Store.Monad.{
  M, ◌>>=◌, ◌>>◌, return, write_if, transaction, read, fail, fail_if, write_unless, write,
}

-- Whatever it returns or throws, the operation leaves a related database.
unfoldable pub Steps : (Db → Db → Type 0) → {A : Type 0} → M A → Type 0
Steps R m = (db : Db) → R db (m db).1

pub record IsPreorder (R : Db → Db → Type 0) : Type 0 where
  pub same : (db : Db) → R db db
  pub trans : (a b c : Db) → R a b → R b c → R a c

module _ {R : Db → Db → Type 0} (order : IsPreorder R) where
  bind_from :
      {A B : Type 0} (f : A → M B) (db d : Db) (r : Result A)
      → ((a : A) → Steps R (f a))
      → R db d
      → R db (◌>>=◌ (λ _. (r, d)) f db).1
  unfolding Steps ◌>>=◌ ◌>>◌ return fail read write fail_if write_unless write_if transaction
  bind_from f db d (ok a) g h = order.trans db d (f a d).1 h (g a d)
  bind_from f db d (throw e) g h = h

  pub bind-Steps :
      {A B : Type 0} (m : M A) (f : A → M B)
      → Steps R m
      → ((a : A) → Steps R (f a))
      → Steps R (m >>= f)
  unfolding Steps ◌>>=◌ ◌>>◌ return fail read write fail_if write_unless write_if transaction
  bind-Steps m f h g db = bind_from f db (m db).1 (m db).0 g (h db)

  pub then-Steps :
      {B : Type 0} (m : M (Unit {0})) (k : M B) → Steps R m → Steps R k → Steps R (m >> k)
  unfolding ◌>>◌
  then-Steps m k h g = bind-Steps m (λ _. k) h (λ _. g)

  pub write-Steps : (f : Db → Db) → ((db : Db) → R db (f db)) → Steps R (write f)
  unfolding Steps write
  write-Steps f h db = h db

  pub read-Steps : {A : Type 0} (f : Db → Result A) → Steps R (read f)
  unfolding Steps ◌>>=◌ ◌>>◌ return fail read write fail_if write_unless write_if transaction
  read-Steps f db = order.same db

  pub return-Steps : {A : Type 0} (a : A) → Steps R (return a)
  unfolding Steps ◌>>=◌ ◌>>◌ return fail read write fail_if write_unless write_if transaction
  return-Steps a db = order.same db

  pub fail-Steps : (A : Type 0) (e : Fault) → Steps R (fail {A = A} e)
  unfolding Steps ◌>>=◌ ◌>>◌ return fail read write fail_if write_unless write_if transaction
  fail-Steps A e db = order.same db

  pub fail_if-Steps : (bad : Bool) (e : Fault) → Steps R (fail_if bad e)
  unfolding Steps ◌>>=◌ ◌>>◌ return fail read write fail_if write_unless write_if transaction
  fail_if-Steps true e db = order.same db
  fail_if-Steps false e db = order.same db

  pub write_unless-Steps :
      (rejected : Bool) (e : Fault) (f : Db → Db)
      → ((db : Db) → R db (f db))
      → Steps R (write_unless rejected e f)
  unfolding Steps ◌>>=◌ ◌>>◌ return fail read write fail_if write_unless write_if transaction
  write_unless-Steps true e f h db = order.same db
  write_unless-Steps false e f h db = h db

  pub write_if-Steps :
      (wanted : Bool) (f : Db → Db) → ((db : Db) → R db (f db)) → Steps R (write_if wanted f)
  unfolding Steps ◌>>=◌ ◌>>◌ return fail read write fail_if write_unless write_if transaction
  write_if-Steps true f h db = h db
  write_if-Steps false f h db = order.same db

  transaction_from :
      {A : Type 0} (db d : Db) (r : Result A) → R db d → R db (transaction (λ _. (r, d)) db).1
  unfolding Steps ◌>>=◌ ◌>>◌ return fail read write fail_if write_unless write_if transaction
  transaction_from db d (ok a) h = h
  transaction_from db d (throw e) h = order.same db

  pub transaction-Steps : {A : Type 0} (m : M A) → Steps R m → Steps R (transaction m)
  unfolding Steps ◌>>=◌ ◌>>◌ return fail read write fail_if write_unless write_if transaction
  transaction-Steps m h db = transaction_from db (m db).1 (m db).0 (h db)

pub run-Steps :
    (R : Db → Db → Type 0) {A : Type 0} (m : M A) → Steps R m → (db : Db) → R db (m db).1
unfolding Steps
run-Steps R m h db = h db

pub ruleset step_rules = (
  bind-Steps, then-Steps, read-Steps, return-Steps, fail-Steps, fail_if-Steps, write_unless-Steps,
  write_if-Steps, write-Steps, transaction-Steps,
)
