-- ===== src/Api/ThrottleLaws.antt =====
-- Over how many failures, and for how long, a key is blocked.
use cool_tunnel_server.Base.{
  ℕ, ◌+◌, ◌≤◌, ◌<◌, ◌≡◌, ap, ◌∙◌, Bool, true, false, ◌&&◌, some, none, List, [], ◌∷◌, arith, ltb,
  leb,
}
use cool_tunnel_server.Base.Texts.{Text, is_empty, length}
use cool_tunnel_server.Base.Tables.{find?}
use cool_tunnel_server.Api.Throttle.{
  Attempt, Attempts, has_key, prune_attempts, bumped, bump_attempts, attempts_over,
}
use cool_tunnel_server.Api.Attempts.{prune_attempts-few, find-bump, find-delete_expired}

-- The failures of one key, at the given times.
unfoldable pub failures : Text → (window_ms : ℕ) → List ℕ → Attempts → Attempts
failures key window_ms [] attempts = attempts
failures key window_ms (at ∷ times) attempts =
    failures key window_ms times (bump_attempts attempts key window_ms at)

abbrev pub AllBelow : ℕ → List ℕ → Type 0
AllBelow limit [] = Unit {0}
AllBelow limit (at ∷ times) = (at < limit) × AllBelow limit times

-- The key has no entry, or one that has expired.
unfoldable pub is_fresh : Attempts → Text → ℕ → Bool
is_fresh attempts key now = elim (find? (has_key key) attempts) [
  | none ↦ true
  | some current ↦ leb current.reset_at now
]

module _ (key : Text) (window_ms : ℕ) (filled : is_empty key ≡ false) where
  abbrev entry_of : (count reset_at : ℕ) → Attempt
  entry_of count reset_at = record { key = key; count = count; reset_at = reset_at }

  bumped-live :
      (count reset_at now : ℕ)
      → now < reset_at
      → bumped (some (entry_of count reset_at)) key window_ms now ≡ entry_of (count + 1) reset_at
  unfolding bumped
  bumped-live count reset_at now h = ground arith

  bumped-fresh :
      (attempts : Attempts) (now : ℕ)
      → is_fresh attempts key now ≡ true
      → bumped (find? (has_key key) attempts) key window_ms now ≡ entry_of 1 (now + window_ms)
  unfolding is_fresh bumped
  bumped-fresh attempts now h = ground arith

  -- Within the window, each failure counts one up, and the end of the window stays.
  find-failures :
      (times : List ℕ) (attempts : Attempts) (count reset_at : ℕ)
      → find? (has_key key) attempts ≡ some (entry_of count reset_at)
      → AllBelow reset_at times
      → find? (has_key key) (failures key window_ms times attempts)
        ≡ some (entry_of (count + length times) reset_at)
  unfolding failures
  find-failures [] attempts count reset_at h _ = ground arith
  find-failures (at ∷ times) attempts count reset_at h (below, rest) = ground (
    arith,
    find-failures times (bump_attempts attempts key window_ms at) (count + 1) reset_at
        (find-bump key attempts window_ms at filled
          ∙ (ap (λ f. some (bumped f key window_ms at)) h
              ∙ ap some (bumped-live count reset_at at below)))
        rest,
  )

  find-failures_fresh :
      (attempts : Attempts) (first : ℕ) (times : List ℕ)
      → is_fresh attempts key first ≡ true
      → AllBelow (first + window_ms) times
      → find? (has_key key) (failures key window_ms (first ∷ times) attempts)
        ≡ some (entry_of (1 + length times) (first + window_ms))
  unfolding failures
  find-failures_fresh attempts first times fresh below =
      find-failures times (bump_attempts attempts key window_ms first) 1 (first + window_ms)
        (find-bump key attempts window_ms first filled
          ∙ ap some (bumped-fresh attempts first fresh))
        below

  -- A non-empty key without a live entry that fails at `first`, and then at times before the end of
  -- the window that this opens, is over the limit exactly until that end, and exactly when the
  -- failures have reached the limit.
  pub attempts_over-failures :
      (attempts : Attempts) (first : ℕ) (times : List ℕ) (max now : ℕ)
      → is_fresh attempts key first ≡ true
      → AllBelow (first + window_ms) times
      → attempts_over (failures key window_ms (first ∷ times) attempts) key max now
        ≡ (ltb now (first + window_ms) && leb max (1 + length times))
  unfolding attempts_over
  attempts_over-failures attempts first times max now fresh below =
      ground (arith, find-failures_fresh attempts first times fresh below)

  -- The same behind the pruning of a map of at most 10,000 keys, within the window.
  pub attempts_over-pruned :
      (attempts : Attempts) (first : ℕ) (times : List ℕ) (max now : ℕ)
      → is_fresh attempts key first ≡ true
      → AllBelow (first + window_ms) times
      → now < first + window_ms
      → length (failures key window_ms (first ∷ times) attempts) ≤ 10000
      → attempts_over
          (prune_attempts now (failures key window_ms (first ∷ times) attempts))
          key
          max
          now
        ≡ leb max (1 + length times)
  unfolding attempts_over
  attempts_over-pruned attempts first times max now fresh below live few =
      let after = failures key window_ms (first ∷ times) attempts in
      rw (prune_attempts-few now after few) (
        ground (
          arith,
          find-delete_expired key now after (entry_of (1 + length times) (first + window_ms))
              (find-failures_fresh attempts first times fresh below),
        ))
