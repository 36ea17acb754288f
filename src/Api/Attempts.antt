-- ===== src/Api/Attempts.antt =====
-- What a map of login attempts holds for a key after a pruning and after a failure.
use cool_tunnel_server.Base.{
  ℕ, ◌≤◌, ◌<◌, ◌≡◌, refl, Bool, true, false, Option, some, [], ◌∷◌, arith, leb,
}
use cool_tunnel_server.Base.Texts.{Text, is_empty, length, text_eq_refl, text_eq, text_eq→eq}
use cool_tunnel_server.Base.Tables.{any, find?, update_where, delete_where, insert_row}
use cool_tunnel_server.Api.Throttle.{
  Attempt, Attempts, has_key, drop_oldest, prune_attempts, login_throttle_max_keys, set_attempt,
  bumped, bump_attempts,
}

drop_oldest-length : (max : ℕ) (attempts : Attempts) → length (drop_oldest max attempts) ≤ max
unfolding drop_oldest
drop_oldest-length max [] = omega arith
drop_oldest-length max (entry ∷ attempts) = ground (arith, drop_oldest-length max attempts)

-- After a pruning, a map holds at most 10,000 keys.
pub length-prune_attempts :
    (now : ℕ) (attempts : Attempts) → length (prune_attempts now attempts) ≤ 10000
unfolding prune_attempts
length-prune_attempts now attempts = drop_oldest-length login_throttle_max_keys _

drop_oldest-few :
    (max : ℕ) (attempts : Attempts) → length attempts ≤ max → drop_oldest max attempts ≡ attempts
unfolding drop_oldest
drop_oldest-few max [] h = refl
drop_oldest-few max (entry ∷ attempts) h = ground arith

delete-length :
    (p : Attempt → Bool) (attempts : Attempts) → length (delete_where p attempts) ≤ length attempts
unfolding delete_where
delete-length p [] = omega arith
delete-length p (entry ∷ attempts) = ground (arith, delete-length p attempts)

-- A map of at most 10,000 keys loses its expired entries only.
pub prune_attempts-few :
    (now : ℕ) (attempts : Attempts)
    → length attempts ≤ 10000
    → prune_attempts now attempts ≡ delete_where (λ entry. leb entry.reset_at now) attempts
unfolding prune_attempts
prune_attempts-few now attempts h =
    drop_oldest-few login_throttle_max_keys _
      (omega (arith, delete-length (λ entry. leb entry.reset_at now) attempts))

module _ (key : Text) where
  find-update :
      (entry : Attempt) (attempts : Attempts)
      → has_key key entry ≡ true
      → any (has_key key) attempts ≡ true
      → find? (has_key key) (update_where (has_key key) (λ _. entry) attempts) ≡ some entry
  unfolding find? update_where any
  find-update entry [] k h = cc
  find-update entry (x ∷ attempts) k h = ground (arith, find-update entry attempts)

  find-insert :
      (entry : Attempt) (attempts : Attempts)
      → has_key key entry ≡ true
      → any (has_key key) attempts ≡ false
      → find? (has_key key) (insert_row entry attempts) ≡ some entry
  unfolding find? any
  find-insert entry [] k h = ground arith
  find-insert entry (x ∷ attempts) k h = ground (arith, find-insert entry attempts)

  -- `get` behind `set` on the key.
  find-set :
      (entry : Attempt) (attempts : Attempts)
      → entry.key ≡ key
      → find? (has_key key) (set_attempt entry attempts) ≡ some entry
  unfolding set_attempt
  find-set entry attempts k = rw k (
      ground (
        arith,
        find-update entry attempts (rw k (text_eq_refl key)),
        find-insert entry attempts (rw k (text_eq_refl key)),
      ))

  bumped-key :
      (found : Option Attempt) (window_ms now : ℕ) → (bumped found key window_ms now).key ≡ key
  unfolding bumped
  bumped-key found window_ms now = ground arith

  pub find-bump :
      (attempts : Attempts) (window_ms now : ℕ)
      → is_empty key ≡ false
      → find? (has_key key) (bump_attempts attempts key window_ms now)
        ≡ some (bumped (find? (has_key key) attempts) key window_ms now)
  unfolding bump_attempts
  find-bump attempts window_ms now h = rw h (
      find-set (bumped (find? (has_key key) attempts) key window_ms now) attempts
        (bumped-key (find? (has_key key) attempts) window_ms now))

  find-update_other :
      (entry : Attempt) (attempts : Attempts)
      → text_eq entry.key key ≡ false
      → find? (has_key key) (update_where (has_key entry.key) (λ _. entry) attempts)
        ≡ find? (has_key key) attempts
  unfolding find? update_where
  find-update_other entry [] h = refl
  find-update_other entry (x ∷ attempts) h =
      ground (arith, find-update_other entry attempts, text_eq→eq x.key entry.key)

  find-insert_other :
      (entry : Attempt) (attempts : Attempts)
      → text_eq entry.key key ≡ false
      → find? (has_key key) (insert_row entry attempts) ≡ find? (has_key key) attempts
  unfolding find?
  find-insert_other entry [] h = ground arith
  find-insert_other entry (x ∷ attempts) h = ground (arith, find-insert_other entry attempts)

  find-set_other :
      (entry : Attempt) (attempts : Attempts)
      → text_eq entry.key key ≡ false
      → find? (has_key key) (set_attempt entry attempts) ≡ find? (has_key key) attempts
  unfolding set_attempt
  find-set_other entry attempts h =
      ground (arith, find-update_other entry attempts, find-insert_other entry attempts)

  -- An entry that has not expired outlives the pruning of expired entries.
  pub find-delete_expired :
      (now : ℕ) (attempts : Attempts) (e : Attempt)
      → find? (has_key key) attempts ≡ some e
      → now < e.reset_at
      → find? (has_key key) (delete_where (λ entry. leb entry.reset_at now) attempts) ≡ some e
  unfolding find? delete_where
  find-delete_expired now [] e h live = cc
  find-delete_expired now (x ∷ attempts) e h live =
      ground (arith, find-delete_expired now attempts e)
