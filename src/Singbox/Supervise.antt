-- ===== src/Singbox/Supervise.antt =====
-- singbox-core/src/subcommands/supervise.ts: the supervisor as a state machine. Each action is a
-- turn of its event loop, or something that happens outside it.
use cool_tunnel_server.Singbox.Migrate.{migrate_config}
use cool_tunnel_server.Base.Tables.{any, delete_where}
use cool_tunnel_server.Security.Json.{Json}
use cool_tunnel_server.Base.{
  ℕ, suc, ◌+◌, ◌≤◌, ◌≡◌, Bool, false, Option, some, none, List, [], ◌∷◌, ◌++◌, ◌==◌, if◌then◌else◌,
}
use cool_tunnel_server.Base.Texts.{Text, codes}

-- What the supervisor uses: JSON, and `sing-box check` on the text of a configuration.
pub record Tools : Type 0 where
  -- `none` where it throws
  pub parse_json : Text → Option Json
  pub pretty_json : Json → Text
  pub check : Text → Bool

-- `PreparedConfig`: the path is that of the source, or of the migrated copy.
pub data Prepared : Type 0 where
  source_path runtime_path : Prepared

-- A process, with the text of the configuration that it read when it started.
pub record Child : Type 0 where
  pub pid : ℕ
  pub config : Text

-- A restart that waits for its old child to exit.
pub record Waiting : Type 0 where
  pub old : Child
  pub prepared : Prepared

-- The files, the processes that live, `state.child`, `restartPending`, and the restarts that wait.
pub record Supervisor : Type 0 where
  pub now : ℕ
  pub source : Text
  pub runtime : Text
  pub living : List Child
  pub next_pid : ℕ
  pub child : Option Child
  pub pending : Option ℕ
  pub waiting : List Waiting

abbrev pub debounce_ms : ℕ
debounce_ms = 250

abbrev pub has_pid : ℕ → Child → Bool
has_pid pid child = child.pid == pid

unfoldable pub lives : Child → Supervisor → Bool
unfolding any
lives child s = any (has_pid child.pid) s.living

-- `scheduleRestart`
unfoldable pub schedule_restart : Supervisor → Supervisor
schedule_restart s = record s { pending = some (s.now + debounce_ms) }

-- The text under a prepared path.
abbrev pub text_at : Prepared → Supervisor → Text
text_at source_path s = s.source
text_at runtime_path s = s.runtime

-- `spawnSingbox`; the process reads its file when it starts.
unfoldable pub spawn_singbox : Prepared → Supervisor → Supervisor
spawn_singbox prepared s =
    let child : Child = record { pid = s.next_pid; config = text_at prepared s } in
    record s { living = child ∷ s.living; next_pid = suc s.next_pid; child = some child }

module _ (tools : Tools) where
  -- `prepareConfig`: the path, with the runtime copy written; null is `none`.
  unfoldable pub prepare_config : Supervisor → Option Prepared × Supervisor
  unfolding migrate_config
  prepare_config s = elim (tools.parse_json s.source) [
    | none ↦ (none, s)
    | some parsed ↦
        let (migrated, changed) = migrate_config parsed in
        if changed
        then (some runtime_path, record s { runtime = tools.pretty_json migrated ++ codes "\n" })
        else (some source_path, s)
  ]

  abbrev checked : Option Prepared → Supervisor → Option Prepared
  checked none s = none
  checked (some prepared) s = if tools.check (text_at prepared s) then some prepared else none

  -- `prepareAndValidateConfig`
  unfoldable pub prepare_and_validate : Supervisor → Option Prepared × Supervisor
  unfolding prepare_config
  prepare_and_validate s =
      let (prepared, after) = prepare_config s in (checked prepared after, after)

  -- The callback of the timer with what the check gave: up to `await killChild`, or to its end.
  unfoldable pub restart_with : Option Prepared → Supervisor → Supervisor
  unfolding spawn_singbox
  restart_with none s = s
  restart_with (some prepared) s = elim s.child [
    | none ↦ spawn_singbox prepared s
    | some old ↦ record s {
      waiting = s.waiting ++ (record { old = old; prepared = prepared } ∷ []);
    }
  ]

  -- The callback of the timer.
  unfoldable pub fire : Supervisor → Supervisor
  unfolding prepare_and_validate restart_with
  fire s =
      let (prepared, after) = prepare_and_validate (record s { pending = none }) in
      restart_with prepared after

  -- The rest of the callback, behind `await killChild`.
  unfoldable pub resume : Waiting → Supervisor → Supervisor
  unfolding spawn_singbox
  resume w s = spawn_singbox w.prepared (record s { child = none })

  -- What can happen: the file is written, a change of it is noticed, time passes, the timer fires,
  -- a process exits, the first restart that waits goes on behind the exit of its child.
  pub data Step (s : Supervisor) : Supervisor → Type 0 where
    writes_source : (text : Text) → Step s (record s { source = text })
    notices_change : Step s (schedule_restart s)
    time_passes : (ms : ℕ) → Step s (record s { now = s.now + ms })
    timer_fires : (at : ℕ) → s.pending ≡ some at → at ≤ s.now → Step s (fire s)
    child_exits : (pid : ℕ) → Step s (record s { living = delete_where (has_pid pid) s.living })
    restart_resumes :
        (w : Waiting) (rest : List Waiting)
        → s.waiting ≡ w ∷ rest
        → lives w.old s ≡ false
        → Step s (resume w (record s { waiting = rest }))
