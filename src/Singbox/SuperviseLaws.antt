-- ===== src/Singbox/SuperviseLaws.antt =====
-- singbox-core/src/subcommands/supervise.ts: which processes the supervisor has alive.
use cool_tunnel_server.Base.Tables.{delete_where, any}
use cool_tunnel_server.Base.{
  ℕ, ◌+◌, ◌≡◌, refl, sym, ap, ◌∙◌, subst, ◌⊎◌, inl, inr, true, false, Option, some, none, List, [],
  ◌∷◌, ◌++◌, arith, Bool-cases, Option-cases,
}
use cool_tunnel_server.Singbox.Supervise.{
  Child, Prepared, Step, Supervisor, Tools, Waiting, child_exits, fire, has_pid, lives,
  notices_change, prepare_and_validate, prepare_config, restart_resumes, restart_with, resume,
  schedule_restart, spawn_singbox, text_at, time_passes, timer_fires, writes_source,
}

module _ (tools : Tools) where
  -- A run in which the file is not written, and the timer does not fire, while a restart waits for
  -- its old child.
  abbrev IsCalm : {s t : Supervisor} → Step tools s t → Type 0
  IsCalm {s} (writes_source text) = s.waiting ≡ []
  IsCalm {s} (timer_fires at e h) = s.waiting ≡ []
  IsCalm _ = Unit {0}

  pub data CalmReach (s : Supervisor) : Supervisor → Type 0 where
    here : CalmReach s s
    next :
        {t u : Supervisor} → CalmReach s t → (step : Step tools t u) → IsCalm step → CalmReach s u

  -- No process lives, or one does: `state.child`, whose configuration has passed the check.
  unfoldable pub HasOne : Supervisor → Type 0
  HasOne s =
      (s.living ≡ [])
      ⊎ ((c : Child) × (s.living ≡ c ∷ []) × (s.child ≡ some c) × (tools.check c.config ≡ true))

  -- No restart waits, or one does: for `state.child`, with a file that has passed the check.
  unfoldable pub HasPlan : Supervisor → Type 0
  HasPlan s =
      (s.waiting ≡ [])
      ⊎ ((w : Waiting) × (s.waiting ≡ w ∷ [])
          × (s.child ≡ some w.old)
          × (tools.check (text_at w.prepared s) ≡ true))

  abbrev pub IsSupervised : Supervisor → Type 0
  IsSupervised s = HasOne s × HasPlan s

  -- What the check accepts behind the preparation.
  prepare-checked :
      (s : Supervisor) (prepared : Prepared)
      → (prepare_and_validate tools s).0 ≡ some prepared
      → tools.check (text_at prepared (prepare_and_validate tools s).1) ≡ true
  unfolding prepare_and_validate
  prepare-checked s prepared e = ground arith

  -- The preparation writes the runtime copy at most.
  prepare-frame :
      (s : Supervisor)
      → ((prepare_and_validate tools s).1.living ≡ s.living)
        × ((prepare_and_validate tools s).1.child ≡ s.child)
        × ((prepare_and_validate tools s).1.waiting ≡ s.waiting)
  unfolding prepare_and_validate prepare_config
  prepare-frame s = ground arith

  text_at-same :
      (prepared : Prepared) (s t : Supervisor)
      → t.source ≡ s.source
      → t.runtime ≡ s.runtime
      → text_at prepared t ≡ text_at prepared s
  text_at-same Prepared.source_path s t e k = e
  text_at-same Prepared.runtime_path s t e k = k

  same-HasPlan :
      (s t : Supervisor)
      → t.child ≡ s.child
      → t.waiting ≡ s.waiting
      → t.source ≡ s.source
      → t.runtime ≡ s.runtime
      → HasPlan s
      → HasPlan t
  unfolding HasPlan
  same-HasPlan s t child waiting source runtime (inl e) = inl (waiting ∙ e)
  same-HasPlan s t child waiting source runtime (inr (w, e, k, h)) =
      inr (w, waiting ∙ e, child ∙ k, rw (text_at-same w.prepared s t source runtime) h)

  one-IsSupervised :
      (s t : Supervisor)
      → t.living ≡ s.living
      → t.child ≡ s.child
      → t.waiting ≡ []
      → HasOne s
      → IsSupervised t
  unfolding HasOne HasPlan
  one-IsSupervised s t living child waiting (inl e) = (inl (living ∙ e), inl waiting)
  one-IsSupervised s t living child waiting (inr (c, e, k, h)) =
      (inr (c, living ∙ e, child ∙ k, h), inl waiting)

  spawned :
      (prepared : Prepared) (s : Supervisor)
      → s.living ≡ []
      → s.waiting ≡ []
      → tools.check (text_at prepared s) ≡ true
      → IsSupervised (spawn_singbox prepared s)
  unfolding HasOne HasPlan spawn_singbox
  spawned prepared s living waiting h = (
    inr (_, ap (λ l. record { pid = s.next_pid; config = text_at prepared s } ∷ l) living, refl, h),
    inl waiting,
  )

  -- The callback behind the check, while nothing waits.
  restart-IsSupervised :
      (prepared : Prepared) (s : Supervisor) (child : Option Child)
      → s.child ≡ child
      → HasOne s
      → s.waiting ≡ []
      → tools.check (text_at prepared s) ≡ true
      → IsSupervised (restart_with tools (some prepared) s)
  unfolding HasOne HasPlan restart_with
  restart-IsSupervised prepared s none e (inl living) waiting h =
      let step : restart_with tools (some prepared) s ≡ spawn_singbox prepared s =
        ground (arith, e) in
      subst IsSupervised (sym step) (spawned prepared s living waiting h)
  restart-IsSupervised prepared s none e (inr (c, living, k, valid)) waiting h = absurd cc
  restart-IsSupervised prepared s (some old) e one waiting h =
      let w : Waiting = record { old = old; prepared = prepared } in
      let after : Supervisor = record s { waiting = s.waiting ++ (w ∷ []) } in
      let step : restart_with tools (some prepared) s ≡ after = ground (arith, e) in
      subst IsSupervised (sym step) (
        one,
        inr (w, ap (λ l. l ++ (w ∷ [])) waiting, e, rw (text_at-same prepared s after refl refl) h),
      )

  fire-IsSupervised :
      (s : Supervisor) → IsSupervised s → s.waiting ≡ [] → IsSupervised (fire tools s)
  unfolding HasOne HasPlan fire
  fire-IsSupervised s h waiting =
      let quiet : Supervisor = record s { pending = none } in
      let after = (prepare_and_validate tools quiet).1 in
      let (living, child, waits) = prepare-frame quiet in
      elim (Option-cases (prepare_and_validate tools quiet).0) [
        | inl e ↦
            let step : fire tools s ≡ after = ground (arith, e) in
            subst IsSupervised (sym step)
              (one-IsSupervised s after living child (waits ∙ waiting) h.0)
        | inr (prepared, e) ↦
            let step : fire tools s ≡ restart_with tools (some prepared) after =
              ground (arith, e) in
            subst IsSupervised (sym step) (
              restart-IsSupervised prepared after after.child refl
                (one-IsSupervised s after living child (waits ∙ waiting) h.0).0 (waits ∙ waiting)
                (prepare-checked quiet prepared e))
      ]

  exit-HasOne :
      (pid : ℕ) (s : Supervisor)
      → HasOne s
      → HasOne (record s { living = delete_where (has_pid pid) s.living })
  unfolding HasOne delete_where
  exit-HasOne pid s (inl e) = inl (ap (delete_where (has_pid pid)) e)
  exit-HasOne pid s (inr (c, e, k, h)) = elim (Bool-cases (has_pid pid c)) [
    | inl gone ↦ inl (ap (delete_where (has_pid pid)) e ∙ ground (arith, gone))
    | inr stays ↦ inr (c, ap (delete_where (has_pid pid)) e ∙ ground (arith, stays), k, h)
  ]

  -- Behind the exit of the child that a restart waits for, no process lives.
  none-lives :
      (s : Supervisor) (old : Child)
      → HasOne s
      → s.child ≡ some old
      → lives old s ≡ false
      → s.living ≡ []
  unfolding HasOne lives any
  none-lives s old (inl e) child gone = e
  none-lives s old (inr (c, e, k, h)) child gone = absurd (ground (arith, e, k, child, gone))

  resume-IsSupervised :
      (w : Waiting) (rest : List Waiting) (s : Supervisor)
      → IsSupervised s
      → s.waiting ≡ w ∷ rest
      → lives w.old s ≡ false
      → IsSupervised (resume tools w (record s { waiting = rest }))
  unfolding HasPlan resume
  resume-IsSupervised w rest s (one, inl none_waits) e gone = absurd cc
  resume-IsSupervised w rest s (one, inr (v, k, child, h)) e gone =
      let same : v ≡ w = cc in
      let last : rest ≡ [] = cc in
      let after : Supervisor = record s { waiting = rest; child = none } in
      spawned w.prepared after (none-lives s w.old one (rw same at child) gone) last
        (rw (text_at-same w.prepared s after refl refl) (rw same at h))

  Step-IsSupervised :
      {s t : Supervisor} (step : Step tools s t) → IsCalm step → IsSupervised s → IsSupervised t
  unfolding schedule_restart HasOne HasPlan
  Step-IsSupervised {s} (writes_source text) calm h =
      one-IsSupervised s (record s { source = text }) refl refl calm h.0
  Step-IsSupervised {s} notices_change calm h =
      (h.0, same-HasPlan s (schedule_restart s) refl refl refl refl h.1)
  Step-IsSupervised {s} (time_passes ms) calm h =
      (h.0, same-HasPlan s (record s { now = s.now + ms }) refl refl refl refl h.1)
  Step-IsSupervised {s} (timer_fires at e k) calm h = fire-IsSupervised s h calm
  Step-IsSupervised {s} (child_exits pid) calm h = (
    exit-HasOne pid s h.0,
    same-HasPlan s (record s { living = delete_where (has_pid pid) s.living }) refl refl refl refl
        h.1,
  )
  Step-IsSupervised {s} (restart_resumes w rest e gone) calm h =
      resume-IsSupervised w rest s h e gone

  -- Along a run in which the file is not written and the timer does not fire while a restart waits
  -- for its old child, from a state that a first start leaves: one process lives at most, it is
  -- `state.child`, and its configuration has passed `sing-box check`.
  pub CalmReach-IsSupervised : {s t : Supervisor} → CalmReach s t → IsSupervised s → IsSupervised t
  CalmReach-IsSupervised here h = h
  CalmReach-IsSupervised (next r step calm) h =
      Step-IsSupervised step calm (CalmReach-IsSupervised r h)
