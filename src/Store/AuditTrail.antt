-- ===== src/Store/AuditTrail.antt =====
-- The audit log only grows, by entries with rising numbers.
use cool_tunnel_server.Base.{ℕ, suc, ◌≤◌, ◌≡◌, Bool, true, false, List, [], ◌∷◌, ◌++◌}
use cool_tunnel_server.Store.Db.{Db, AuditEntry}
use cool_tunnel_server.Store.Steps.{Steps}
use cool_tunnel_server.Store.History.{Call, prunes_audit}

-- The entries bear rising numbers, none below the first and all below the last.
abbrev pub Numbered : ℕ → List AuditEntry → ℕ → Type 0
Numbered first [] last = first ≤ last
Numbered first (e ∷ entries) last = (first ≤ e.id) × Numbered (suc e.id) entries last

-- The log of `after` is that of `db` with new entries behind it.
abbrev pub AuditGrows : Db → Db → Type 0
AuditGrows db after =
    (new : List AuditEntry) × (after.audit_log ≡ db.audit_log ++ new)
    × Numbered db.next_audit_id new after.next_audit_id

abbrev pub is_prune : Call → Bool
is_prune (prunes_audit cutoff) = true
is_prune _ = false

-- No call of the history prunes the audit log.
abbrev pub NoPrune : List Call → Type 0
NoPrune [] = Unit {0}
NoPrune (c ∷ cs) = (is_prune c ≡ false) × NoPrune cs
