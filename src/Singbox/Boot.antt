-- ===== src/Singbox/Boot.antt =====
-- singbox-core/src/subcommands/supervise.ts: the wait for the first configuration in `runSupervise`.
use cool_tunnel_server.Base.{
  ℕ, zero, suc, ◌+◌, ◌*◌, ◌/◌, ◌≤◌, ◌<◌, ◌≡◌, subst, inl, inr, Bool, true, false, Option, some,
  none, arith, ltb, if◌then◌else◌, Bool-cases, ltb→lt,
}

-- Where the loop ends: the first child is started at this time, or the process exits with 1.
pub data Booted : Type 0 where
  started : ℕ → Booted
  timed_out : Booted

abbrev pub retry_ms : ℕ
retry_ms = 2000

-- The loop, from the time on; `ready` tells whether the file is there and passes the check at a
-- time. The fuel runs out as `none`.
unfoldable pub boot : (ready : ℕ → Bool) (fuel now deadline : ℕ) → Option Booted
boot ready zero now deadline = none
boot ready (suc fuel) now deadline =
    let rest = boot ready fuel (now + retry_ms) deadline in
    if ltb now deadline then if ready now then some (started now) else rest else some timed_out

module _ (ready : ℕ → Bool) (deadline : ℕ) where
  -- The file is not ready at the first polls.
  abbrev pub NotReady : (polls now : ℕ) → Type 0
  NotReady zero now = Unit {0}
  NotReady (suc polls) now = (ready now ≡ false) × NotReady polls (now + retry_ms)

  -- What the result says of the polls from a time on.
  abbrev pub Explains : Booted → ℕ → Type 0
  Explains timed_out now = (polls : ℕ) × NotReady polls now × (deadline ≤ now + polls * retry_ms)
  Explains (started at) now =
      (polls : ℕ) × NotReady polls now
      × (at ≡ now + polls * retry_ms)
      × (at < deadline)
      × (ready at ≡ true)

  explained_later :
      (b : Booted) (now : ℕ) → ready now ≡ false → Explains b (now + retry_ms) → Explains b now
  explained_later timed_out now h (polls, waits, late) =
      (suc polls, (h, waits), omega (arith, late))
  explained_later (started at) now h (polls, waits, e, soon, good) =
      (suc polls, (h, waits), omega (arith, e), soon, good)

  -- A round that does not end the loop.
  boot_on :
      (fuel now : ℕ) (b : Booted)
      → ltb now deadline ≡ true
      → ready now ≡ false
      → boot ready fuel (now + retry_ms) deadline ≡ some b
      → boot ready (suc fuel) now deadline ≡ some b
  unfolding boot
  boot_on fuel now b soon waits e = ground (arith, soon, waits, e)

  boot_from :
      (fuel now : ℕ)
      → deadline ≤ now + fuel * retry_ms
      → (b : Booted) × (boot ready (suc fuel) now deadline ≡ some b) × Explains b now
  unfolding boot
  boot_from zero now enough = (timed_out, ground arith, (0, tt, omega arith))
  boot_from (suc fuel) now enough = elim (Bool-cases (ltb now deadline)) [
    | inr late ↦ (timed_out, ground (arith, late), (0, tt, ground (arith, late)))
    | inl soon ↦ elim (Bool-cases (ready now)) [
      | inl good ↦ (
        started now,
        ground (arith, soon, good),
        (0, tt, omega arith, ltb→lt now deadline soon, good),
      )
      | inr waits ↦
          let (b, e, why) = boot_from fuel (now + retry_ms) (omega arith) in
          (b, boot_on (suc fuel) now b soon waits e, explained_later b now waits why)
    ]
  ]

-- The wait ends after `timeout / 2000 + 2` rounds at most, whenever the file becomes ready: with the
-- first poll before the deadline that finds it ready, or, where none does, behind the deadline. The
-- polls are 2,000 ms apart.
pub boot-ends :
    (ready : ℕ → Bool) (now timeout : ℕ)
    → (b : Booted) × (boot ready (timeout / 2000 + 2) now (now + timeout) ≡ some b)
      × Explains ready (now + timeout) b now
boot-ends ready now timeout =
    subst
      (λ n.
        (b : Booted) × (boot ready n now (now + timeout) ≡ some b)
        × Explains ready (now + timeout) b now)
      (omega arith) (boot_from ready (now + timeout) (timeout / 2000 + 1) now (omega arith))
