-- ===== src/Store/Audit.antt =====
-- packages/db/src/store.ts: reading and pruning the audit log.
use cool_tunnel_server.Base.Texts.{take, length}
use cool_tunnel_server.Base.Tables.{order_by, delete_where}
use cool_tunnel_server.Base.{ℕ, Bool, if◌then◌else◌, ltb, List, ◌-◌}
use cool_tunnel_server.Store.Db.{AuditEntry, Db}

-- `ORDER BY id DESC`
abbrev pub later_entry : AuditEntry → AuditEntry → Bool
later_entry a b = ltb b.id a.id

-- A JavaScript number that reaches `listAudit`; fractions are rounded down by the caller's floor.
pub data Limit : Type 0 where
  below_one : Limit
  floor : ℕ → Limit

-- `Math.max(1, Math.min(250, Math.floor(limit)))`
unfoldable pub bounded_limit : Limit → ℕ
bounded_limit below_one = 1
bounded_limit (floor n) = if ltb n 1 then 1 else if ltb 250 n then 250 else n

unfoldable pub list_audit : Limit → Db → List AuditEntry
unfolding order_by bounded_limit
list_audit limit db = take (bounded_limit limit) (order_by later_entry db.audit_log)

-- `pruneAuditLogOlderThan`, with the number of rows deleted.
unfoldable pub prune_audit_log_older_than : ℕ → Db → ℕ × Db
prune_audit_log_older_than cutoff db =
    let kept = delete_where (λ e. ltb e.created_at cutoff) db.audit_log in
    (length db.audit_log - length kept, record db { audit_log = kept })
