-- ===== src/Base/Results.antt =====
-- What the program throws, and results.
use Prim.Native.Nat.{ℕ}
use mathlib.Core.Bool.{Bool, true, false}
use mathlib.Core.Path.{◌≡◌, refl, ap}
use mathlib.Core.Logic.{◌⊎◌, inl, inr}

-- The `code` texts of `StoreError` (packages/db/src/errors.ts) and `HttpError` (apps/api/src/app.ts).
pub data Code : Type 0 where
  bootstrap_disabled invalid_bootstrap_token invalid_role forbidden invalid_status : Code
  invalid_name duplicate_user database_error cannot_delete_self last_owner not_found : Code
  invalid_port invalid_expires_at invalid_settings invalid_acme_directory : Code
  invalid_doh_resolver settings_missing config_required csrf unauthorized : Code
  password_change_required invalid_password invalid_current_password password_reused : Code
  unknown_action invalid_json bad_request internal_error contract_violation : Code

-- `store_error` and `http_error` carry the code and the HTTP status; any other `Error` is `plain`.
pub data Fault : Type 0 where
  store_error http_error : Code → ℕ → Fault
  plain : Fault

pub data Result {ℓ} (A : Type ℓ) : Type ℓ where
  ok : A → Result A
  throw : Fault → Result A

infixl 5 ◌>>=◌ ◌>>◌
abbrev pub ◌>>=◌ {ℓ κ} : {A : Type ℓ} {B : Type κ} → Result A → (A → Result B) → Result B
ok a >>= f = f a
throw e >>= f = throw e

abbrev pub ◌>>◌ {ℓ} : {B : Type ℓ} → Result (Unit {0}) → Result B → Result B
m >> k = m >>= λ _. k

-- `if (bad) throw e`
abbrev pub throw_if : Bool → Fault → Result (Unit {0})
throw_if true e = throw e
throw_if false e = ok tt

pub Result-cases {ℓ} :
    {A : Type ℓ} (r : Result A) → ((a : A) × (r ≡ ok a)) ⊎ ((e : Fault) × (r ≡ throw e))
Result-cases (ok a) = inl (a, refl)
Result-cases (throw e) = inr (e, refl)

ok_of {ℓ} : {A : Type ℓ} → A → Result A → A
ok_of a (ok b) = b
ok_of a (throw e) = a

pub ok-injective {ℓ} : {A : Type ℓ} (a b : A) → ok a ≡ ok b → a ≡ b
unfolding ok_of
ok-injective a b e = ap (ok_of a) e
