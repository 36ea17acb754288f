-- ===== src/Singbox/Overlap.antt =====
-- singbox-core/src/subcommands/supervise.ts: two restarts whose waits for the old child overlap.
use cool_tunnel_server.Singbox.Migrate.{migrate_config}
use cool_tunnel_server.Security.Json.{Json}
use cool_tunnel_server.Base.{
  suc, ◌+◌, ◌<◌, ◌≡◌, refl, ap, subst, ◌≢◌, Bool, true, false, some, none, List, [], ◌∷◌, ◌++◌,
  arith,
}
use cool_tunnel_server.Base.Tables.{any, delete_where}
use cool_tunnel_server.Singbox.Supervise.{
  Tools, Prepared, Child, Waiting, Supervisor, Step, notices_change, time_passes, timer_fires, fire,
  debounce_ms, schedule_restart, prepare_and_validate, prepare_config, restart_with, resume,
  spawn_singbox, lives, has_pid, child_exits, restart_resumes,
}

pub data Reach (tools : Tools) (s : Supervisor) : Supervisor → Type 0 where
  here : Reach tools s s
  next : {t u : Supervisor} → Reach tools s t → Step tools t u → Reach tools s u

any-delete : (p : Child → Bool) (xs : List Child) → any p (delete_where p xs) ≡ false
unfolding any delete_where
any-delete p [] = refl
any-delete p (x ∷ xs) = ground (arith, any-delete p xs)

module _ (tools : Tools) where
  -- The source is a configuration that needs no migration and passes the check.
  abbrev IsGood : Supervisor → Json → Json → Type 0
  IsGood s parsed same =
      (tools.parse_json s.source ≡ some parsed)
      × (migrate_config parsed ≡ (same, false))
      × (tools.check s.source ≡ true)

  abbrev restart_of : Child → Waiting
  restart_of old = record { old = old; prepared = Prepared.source_path }

  fire-waits :
      (s : Supervisor) (old : Child) (parsed same : Json)
      → s.child ≡ some old
      → IsGood s parsed same
      → fire tools s ≡ record s { pending = none; waiting = s.waiting ++ (restart_of old ∷ []) }
  unfolding fire prepare_and_validate prepare_config restart_with
  fire-waits s old parsed same child (e, k, h) = ground (arith, child, e, k, h)

  -- A change is noticed, the debounce passes, and the timer fires.
  abbrev one_more : Child → Supervisor → Supervisor
  one_more old s = record s {
    now = s.now + debounce_ms;
    pending = none;
    waiting = s.waiting ++ (restart_of old ∷ []);
  }

  noticed-Reach :
      (s0 s : Supervisor) (old : Child) (parsed same : Json)
      → Reach tools s0 (schedule_restart s)
      → s.child ≡ some old
      → IsGood s parsed same
      → Reach tools s0 (one_more old s)
  unfolding schedule_restart
  noticed-Reach s0 s old parsed same r child good =
      let later : Supervisor = record (schedule_restart s) { now = s.now + debounce_ms } in
      let fired =
        next (next r (time_passes debounce_ms))
          (timer_fires (s.now + debounce_ms) refl (omega arith)) in
      subst (Reach tools s0) (fire-waits later old parsed same child good) fired

  wait-Reach :
      (s0 s : Supervisor) (old : Child) (parsed same : Json)
      → Reach tools s0 s
      → s.child ≡ some old
      → IsGood s parsed same
      → Reach tools s0 (one_more old s)
  wait-Reach s0 s old parsed same r child good =
      noticed-Reach s0 s old parsed same (next r notices_change) child good

  -- While a restart waits for a child that runs on after SIGTERM, a second change of the file leads
  -- to a second restart for the same child; both then start a process. From any state with a child
  -- and a good file, in which no restart waits, a state is reached in which two processes live and
  -- `state.child` is the later one, so nothing kills the earlier one any more.
  pub overlapping-restarts :
      (s : Supervisor) (old : Child) (parsed same : Json)
      → s.child ≡ some old
      → s.waiting ≡ []
      → old.pid < s.next_pid
      → IsGood s parsed same
      → (t : Supervisor) × (first : Child) × (second : Child) × (others : List Child) × Reach tools
          s t
        × (t.living ≡ second ∷ first ∷ others)
        × (first.pid ≢ second.pid)
        × (t.child ≡ some second)
        × (t.waiting ≡ [])
  unfolding resume spawn_singbox lives any
  overlapping-restarts s old parsed same child waiting fresh good =
      let s1 = one_more old s in
      let s2 = one_more old s1 in
      let w = restart_of old in
      let two : s2.waiting ≡ w ∷ (w ∷ []) = ap (λ l. (l ++ (w ∷ [])) ++ (w ∷ [])) waiting in
      let r2 =
        wait-Reach s s1 old parsed same (wait-Reach s s old parsed same here child good) child
          good in
      let others = delete_where (has_pid old.pid) s.living in
      let s3 : Supervisor = record s2 { living = others } in
      let gone : any (has_pid old.pid) others ≡ false = any-delete (has_pid old.pid) s.living in
      let r3 : Reach tools s s3 = next r2 (child_exits old.pid) in
      let s4 = resume tools w (record s3 { waiting = w ∷ [] }) in
      let r4 : Reach tools s s4 = next r3 (restart_resumes w (w ∷ []) two gone) in
      let gone' : lives old s4 ≡ false = ground (arith, gone, fresh) in
      let s5 = resume tools w (record s4 { waiting = [] }) in
      (
        s5,
        record { pid = s.next_pid; config = s.source },
        record { pid = suc s.next_pid; config = s.source },
        others,
        next r4 (restart_resumes w [] refl gone'),
        refl,
        omega arith,
        refl,
        refl,
      )

  -- From any state with a child and a good file, in which no restart waits, once a change is noticed
  -- the restart can be completed: a state can be reached in which a process that started since is
  -- `state.child`, lives and has read the file as it is now, the old child is gone, and no restart
  -- waits or is pending.
  pub restart-completes :
      (s : Supervisor) (old : Child) (parsed same : Json)
      → s.child ≡ some old
      → s.waiting ≡ []
      → old.pid < s.next_pid
      → IsGood s parsed same
      → (t : Supervisor) × (new : Child) × Reach tools (schedule_restart s) t
        × (t.child ≡ some new)
        × (lives new t ≡ true)
        × (new.config ≡ s.source)
        × (new.pid ≡ s.next_pid)
        × (lives old t ≡ false)
        × (t.waiting ≡ [])
        × (t.pending ≡ none)
  unfolding resume spawn_singbox lives any
  restart-completes s old parsed same child waiting fresh good =
      let s1 = one_more old s in
      let w = restart_of old in
      let others = delete_where (has_pid old.pid) s.living in
      let s2 : Supervisor = record s1 { living = others } in
      let r2 : Reach tools (schedule_restart s) s2 =
        next (noticed-Reach (schedule_restart s) s old parsed same here child good)
          (child_exits old.pid) in
      let gone : any (has_pid old.pid) others ≡ false = any-delete (has_pid old.pid) s.living in
      let resumed = resume tools w (record s2 { waiting = [] }) in
      (
        resumed,
        record { pid = s.next_pid; config = s.source },
        next r2 (restart_resumes w [] (ap (λ l. l ++ (w ∷ [])) waiting) gone),
        refl,
        ground arith,
        refl,
        refl,
        ground (arith, gone, fresh),
        refl,
        refl,
      )
