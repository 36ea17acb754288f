-- ===== src/Api/Throttle.antt =====
-- apps/api/src/app.ts: the maps of login attempts. A JavaScript `Map` keeps its keys in the order in
-- which they were first set.
use cool_tunnel_server.Base.{
  ℕ, ◌+◌, ◌*◌, Bool, false, not, ◌||◌, Option, some, none, List, [], ◌∷◌, ltb, leb, if◌then◌else◌,
}
use cool_tunnel_server.Base.Texts.{Text, text_eq, is_empty, length}
use cool_tunnel_server.Base.Tables.{any, find?, update_where, delete_where, insert_row}

-- A key of the map with its `AttemptEntry`.
pub record Attempt : Type 0 where
  pub key : Text
  pub count : ℕ
  pub reset_at : ℕ

abbrev pub Attempts : Type 0
Attempts = List Attempt

abbrev pub has_key : Text → Attempt → Bool
has_key key entry = text_eq entry.key key

abbrev pub login_throttle_window_ms : ℕ
login_throttle_window_ms = 60000

abbrev pub login_throttle_max : ℕ
login_throttle_max = 5

abbrev pub account_throttle_window_ms : ℕ
account_throttle_window_ms = 15 * 60000

abbrev pub account_throttle_max : ℕ
account_throttle_max = 10

abbrev pub login_throttle_max_keys : ℕ
login_throttle_max_keys = 10000

-- The `while` loop of `pruneAttempts`: the oldest keys go until `max` are left.
unfoldable pub drop_oldest : (max : ℕ) → Attempts → Attempts
drop_oldest max [] = []
drop_oldest max (entry ∷ attempts) =
    if ltb max (length (entry ∷ attempts)) then drop_oldest max attempts else entry ∷ attempts

unfoldable pub prune_attempts : ℕ → Attempts → Attempts
prune_attempts now attempts =
    drop_oldest login_throttle_max_keys (delete_where (λ entry. leb entry.reset_at now) attempts)

unfoldable pub attempts_over : Attempts → Text → (max now : ℕ) → Bool
attempts_over attempts key max now =
    if is_empty key then false else elim (find? (has_key key) attempts) [
      | none ↦ false
      | some current ↦ if leb current.reset_at now then false else leb max current.count
    ]

-- `attempts.set(key, …)`
unfoldable pub set_attempt : Attempt → Attempts → Attempts
set_attempt entry attempts =
    if any (has_key entry.key) attempts
    then update_where (has_key entry.key) (λ _. entry) attempts
    else insert_row entry attempts

-- The entry that `bumpAttempts` sets.
unfoldable pub bumped : Option Attempt → Text → (window_ms now : ℕ) → Attempt
bumped none key window_ms now = record { key = key; count = 1; reset_at = now + window_ms }
bumped (some current) key window_ms now =
    if leb current.reset_at now
    then record { key = key; count = 1; reset_at = now + window_ms }
    else record { key = key; count = current.count + 1; reset_at = current.reset_at }

unfoldable pub bump_attempts : Attempts → Text → (window_ms now : ℕ) → Attempts
bump_attempts attempts key window_ms now =
    if is_empty key
    then attempts
    else set_attempt (bumped (find? (has_key key) attempts) key window_ms now) attempts

-- `loginAttempts` and `accountAttempts`.
pub record Throttle : Type 0 where
  pub login_attempts : Attempts
  pub account_attempts : Attempts

pub record LoginThrottle : Type 0 where
  pub is_ok : Bool
  pub ip_key : Text
  pub account_key : Text

-- The two calls of `pruneAttempts` in `checkLoginThrottle`.
unfoldable pub prune_throttle : ℕ → Throttle → Throttle
prune_throttle now t = record {
  login_attempts = prune_attempts now t.login_attempts;
  account_attempts = prune_attempts now t.account_attempts;
}

-- `checkLoginThrottle`, on the keys of the request, with the pruned maps.
unfoldable pub check_login_throttle :
    ℕ → (ip_key account_key : Text) → Throttle → LoginThrottle × Throttle
check_login_throttle now ip_key account_key t =
    let pruned = prune_throttle now t in
    let blocked =
      attempts_over pruned.login_attempts ip_key login_throttle_max now
      || attempts_over pruned.account_attempts account_key account_throttle_max now in
    (record { is_ok = not blocked; ip_key = ip_key; account_key = account_key }, pruned)

unfoldable pub record_failed_login : ℕ → LoginThrottle → Throttle → Throttle
record_failed_login now throttle t = record {
  login_attempts = bump_attempts t.login_attempts throttle.ip_key login_throttle_window_ms now;
  account_attempts =
      bump_attempts t.account_attempts throttle.account_key account_throttle_window_ms now;
}

unfoldable pub clear_login_throttle : LoginThrottle → Throttle → Throttle
clear_login_throttle throttle t = record {
  login_attempts = delete_where (has_key throttle.ip_key) t.login_attempts;
  account_attempts =
      if is_empty throttle.account_key
      then t.account_attempts
      else delete_where (has_key throttle.account_key) t.account_attempts;
}
