-- ===== src/Api/Yields.antt =====
-- What a store operation returns, where it returns: rules for each way to put operations together.
use cool_tunnel_server.Store.Db.{Db}
use cool_tunnel_server.Base.{◌≡◌, ap, subst, arith}
use cool_tunnel_server.Base.Results.{ok-injective, Result, Fault, ok, throw}
use cool_tunnel_server.Store.Monad.{M, ◌>>=◌, ◌>>◌, return, fail}

-- Whatever the database, a value that the operation returns meets the predicate.
unfoldable pub Yields : {A : Type 0} → (A → Type 0) → M A → Type 0
Yields {A} P m = (db : Db) (a : A) → (m db).0 ≡ ok a → P a

module _ {A B : Type 0} (f : A → M B) where
  bind_ok_from : (r : Result A) (d : Db) (a : A) → r ≡ ok a → ◌>>=◌ (λ _. (r, d)) f d ≡ f a d
  unfolding ◌>>=◌
  bind_ok_from (ok x) d a e = ap (λ y. f y d) (ok-injective x a e)
  bind_ok_from (throw fault) d a e = cc

  -- Behind an operation that returned.
  pub bind-ok : (m : M A) (db : Db) (a : A) → (m db).0 ≡ ok a → (m >>= f) db ≡ f a (m db).1
  unfolding ◌>>=◌
  bind-ok m db a e = bind_ok_from (m db).0 (m db).1 a e

  bind_throw_from :
      (r : Result A) (d : Db) (fault : Fault)
      → r ≡ throw fault
      → (◌>>=◌ (λ _. (r, d)) f d).0 ≡ throw fault
  unfolding ◌>>=◌
  bind_throw_from r d fault e = ground (arith, e)

  -- Behind an operation that threw.
  pub bind-throw :
      (m : M A) (db : Db) (fault : Fault) → (m db).0 ≡ throw fault → ((m >>= f) db).0 ≡ throw fault
  unfolding ◌>>=◌
  bind-throw m db fault e = bind_throw_from (m db).0 (m db).1 fault e

module _ {B : Type 0} (P : B → Type 0) where
  bind_from :
      {A : Type 0} (f : A → M B) (d : Db) (r : Result A) (b : B)
      → ((a : A) → Yields P (f a))
      → (◌>>=◌ (λ _. (r, d)) f d).0 ≡ ok b
      → P b
  unfolding Yields ◌>>=◌
  bind_from f d (ok a) b h e = h a d b e
  bind_from f d (throw fault) b h e = cc

  pub bind-Yields :
      {A : Type 0} (m : M A) (f : A → M B) → ((a : A) → Yields P (f a)) → Yields P (m >>= f)
  unfolding Yields ◌>>=◌
  bind-Yields m f h db b e = bind_from f (m db).1 (m db).0 b h e

  pub then-Yields : (m : M (Unit {0})) (k : M B) → Yields P k → Yields P (m >> k)
  unfolding ◌>>◌
  then-Yields m k h = bind-Yields m (λ _. k) (λ _. h)

  pub return-Yields : (b : B) → P b → Yields P (return b)
  unfolding Yields return
  return-Yields b h db a e = subst P (ok-injective b a e) h

  pub fail-Yields : (e : Fault) → Yields P (fail e)
  unfolding Yields fail
  fail-Yields fault db a e = cc

pub ruleset yields_rules = (bind-Yields, then-Yields, return-Yields, fail-Yields)
