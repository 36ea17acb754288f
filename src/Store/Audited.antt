-- ===== src/Store/Audited.antt =====
-- Every operation of an administrator that returns has added one entry to the audit log.
use cool_tunnel_server.Base.{ℕ, ◌≡◌, refl, ap, ◌∙◌, Option, [], ◌∷◌, ◌++◌}
use cool_tunnel_server.Base.Results.{Result, ok, throw}
use cool_tunnel_server.Base.Texts.{Text}
use cool_tunnel_server.Security.Json.{Fields}
use cool_tunnel_server.Store.Db.{Db, AuditEntry}
use cool_tunnel_server.Store.Monad.{M, Host, ◌>>=◌, ◌>>◌, return, write, transaction, audit_row}
use cool_tunnel_server.Store.Steps.{IsPreorder, Steps, step_rules}

-- The audit log is as it was.
abbrev pub SameLog : Db → Db → Type 0
SameLog db after = after.audit_log ≡ db.audit_log

pub SameLog-order : IsPreorder SameLog
SameLog-order = record { same = λ db. refl; trans = λ a b c p q. q ∙ p }

-- One entry has been added, by this actor for this action.
abbrev pub LogsOne : Option Text → Text → Db → Db → Type 0
LogsOne actor action db after =
    (entry : AuditEntry) × (after.audit_log ≡ db.audit_log ++ (entry ∷ []))
    × (entry.actor_user_id ≡ actor)
    × (entry.action ≡ action)

-- Where the operation returns, it has added the entry.
unfoldable pub Logged : Option Text → Text → {A : Type 0} → M A → Type 0
Logged actor action {A} m = (db : Db) (a : A) → (m db).0 ≡ ok a → LogsOne actor action db (m db).1

module _ (host : Host) (actor : Option Text) (action : Text) where
  shift :
      (db d after : Db)
      → SameLog db d
      → LogsOne actor action d after
      → LogsOne actor action db after
  shift db d after e (entry, log, who, what) =
      (entry, log ∙ ap (λ l. l ++ (entry ∷ [])) e, who, what)

  bind_from :
      {A B : Type 0} (f : A → M B) (db d : Db) (r : Result A)
      → ((a : A) → Logged actor action (f a))
      → SameLog db d
      → (b : B) → (◌>>=◌ (λ _. (r, d)) f db).0 ≡ ok b
      → LogsOne actor action db (◌>>=◌ (λ _. (r, d)) f db).1
  unfolding Logged ◌>>=◌
  bind_from f db d (ok a) g h b e = shift db d (f a d).1 h (g a d b e)
  bind_from f db d (throw x) g h b e = cc

  pub bind-Logged :
      {A B : Type 0} (m : M A) (f : A → M B)
      → Steps SameLog m
      → ((a : A) → Logged actor action (f a))
      → Logged actor action (m >>= f)
  unfolding Logged Steps ◌>>=◌
  bind-Logged m f h g db b e = bind_from f db (m db).1 (m db).0 g (h db) b e

  pub then-Logged :
      {B : Type 0} (m : M (Unit {0})) (k : M B)
      → Steps SameLog m
      → Logged actor action k
      → Logged actor action (m >> k)
  unfolding ◌>>◌
  then-Logged m k h g = bind-Logged m (λ _. k) h (λ _. g)

  -- The INSERT of `audit`, and nothing behind it but the result.
  pub audit-Logged :
      {A : Type 0} (at : ℕ) (target_type target_id : Option Text) (detail : Fields) (a : A)
      → Logged actor action
          (write (audit_row host at actor action target_type target_id detail) >> return a)
  unfolding Logged ◌>>=◌ ◌>>◌ write return audit_row
  audit-Logged at target_type target_id detail a db b e = (_, refl, refl, refl)

  transaction_from :
      {A : Type 0} (db d : Db) (r : Result A)
      → ((a : A) → r ≡ ok a → LogsOne actor action db d)
      → (a : A) → (transaction (λ _. (r, d)) db).0 ≡ ok a
      → LogsOne actor action db (transaction (λ _. (r, d)) db).1
  unfolding transaction
  transaction_from db d (ok b) h a e = h b refl
  transaction_from db d (throw x) h a e = cc

  pub transaction-Logged :
      {A : Type 0} (m : M A) → Logged actor action m → Logged actor action (transaction m)
  unfolding Logged transaction
  transaction-Logged m h db a e = transaction_from db (m db).1 (m db).0 (λ b k. h db b k) a e

  pub last-Logged :
      (at : ℕ) (target_type target_id : Option Text) (detail : Fields)
      → Logged actor action (write (audit_row host at actor action target_type target_id detail))
  unfolding Logged write audit_row
  last-Logged at target_type target_id detail db b e = (_, refl, refl, refl)

pub ruleset logged_rules = (
  transaction-Logged, bind-Logged, then-Logged, audit-Logged, last-Logged, step_rules,
  SameLog-order,
)
