-- ===== src/Store/AuditList.antt =====
-- What `listAudit` shows of the audit log.
use cool_tunnel_server.Base.{
  ℕ, zero, suc, ◌≤◌, ◌≡◌, refl, ◌∙◌, inl, inr, Bool, List, [], ◌∷◌, arith, Bool-cases,
}
use cool_tunnel_server.Base.Texts.{take, length}
use cool_tunnel_server.Base.Tables.{order_by, insert_sorted, count}
use cool_tunnel_server.Store.Db.{AuditEntry, Db}
use cool_tunnel_server.Store.Audit.{Limit, bounded_limit, list_audit, later_entry}

take-length : {A : Type 0} (n : ℕ) (xs : List A) → length (take n xs) ≤ n
take-length zero xs = omega arith
take-length (suc n) [] = omega arith
take-length (suc n) (x ∷ xs) = omega (arith, take-length n xs)

take-count : {A : Type 0} (p : A → Bool) (n : ℕ) (xs : List A) → count p (take n xs) ≤ count p xs
unfolding count
take-count p zero xs = omega arith
take-count p (suc n) [] = omega arith
take-count p (suc n) (x ∷ xs) = ground (arith, take-count p n xs)

insert_sorted-count :
    {A : Type 0} (p : A → Bool) (before : A → A → Bool) (x : A) (xs : List A)
    → count p (insert_sorted before x xs) ≡ count p (x ∷ xs)
unfolding count insert_sorted
insert_sorted-count p before x [] = refl
insert_sorted-count p before x (y ∷ ys) = ground (arith, insert_sorted-count p before x ys)

order_by-count :
    {A : Type 0} (p : A → Bool) (before : A → A → Bool) (xs : List A)
    → count p (order_by before xs) ≡ count p xs
unfolding count order_by
order_by-count p before [] = refl
order_by-count p before (x ∷ xs) =
    insert_sorted-count p before x (order_by before xs) ∙ ground (arith, order_by-count p before xs)

-- Every id is at most the bound, and the ids do not grow along the list.
abbrev pub Descends : ℕ → List AuditEntry → Type 0
Descends bound [] = Unit {0}
Descends bound (e ∷ entries) = (e.id ≤ bound) × Descends e.id entries

Descends-weaken :
    (a b : ℕ) (entries : List AuditEntry) → a ≤ b → Descends a entries → Descends b entries
Descends-weaken a b [] h k = tt
Descends-weaken a b (e ∷ entries) h (k, rest) = (omega arith, rest)

Descends-insert :
    (bound : ℕ) (e : AuditEntry) (entries : List AuditEntry)
    → e.id ≤ bound
    → Descends bound entries
    → Descends bound (insert_sorted later_entry e entries)
unfolding insert_sorted
Descends-insert bound e [] h k = (h, tt)
Descends-insert bound e (d ∷ entries) h (k, rest) = elim (Bool-cases (later_entry d e)) [
  | inl later ↦ rw later (k, Descends-insert d.id e entries (ground arith) rest)
  | inr sooner ↦ rw sooner (h, (ground arith, rest))
]

-- Every id is at most the bound.
abbrev pub AtMost : ℕ → List AuditEntry → Type 0
AtMost bound [] = Unit {0}
AtMost bound (e ∷ entries) = (e.id ≤ bound) × AtMost bound entries

Descends-order_by :
    (bound : ℕ) (entries : List AuditEntry)
    → AtMost bound entries
    → Descends bound (order_by later_entry entries)
unfolding order_by
Descends-order_by bound [] h = tt
Descends-order_by bound (e ∷ entries) (h, rest) =
    Descends-insert bound e (order_by later_entry entries) h (Descends-order_by bound entries rest)

Descends-take :
    (bound n : ℕ) (entries : List AuditEntry)
    → Descends bound entries
    → Descends bound (take n entries)
Descends-take bound zero entries h = tt
Descends-take bound (suc n) [] h = tt
Descends-take bound (suc n) (e ∷ entries) (h, rest) = (h, Descends-take e.id n entries rest)

bounded_limit-range : (limit : Limit) → (1 ≤ bounded_limit limit) × (bounded_limit limit ≤ 250)
unfolding bounded_limit
bounded_limit-range limit = ground arith

-- Whatever the limit, `listAudit` shows at most 250 entries, with ids that do not grow along the
-- list and none beyond a bound on those of the log, and entries of any kind no more often than the
-- log has them.
pub list_audit-descending :
    (limit : Limit) (db : Db) (bound : ℕ) (p : AuditEntry → Bool)
    → AtMost bound db.audit_log
    → (length (list_audit limit db) ≤ 250)
      × Descends bound (list_audit limit db)
      × (count p (list_audit limit db) ≤ count p db.audit_log)
unfolding list_audit
list_audit-descending limit db bound p h =
    let sorted = order_by later_entry db.audit_log in
    (
      omega (arith, take-length (bounded_limit limit) sorted, bounded_limit-range limit),
      Descends-take bound (bounded_limit limit) sorted (Descends-order_by bound db.audit_log h),
      omega (
        arith,
        take-count p (bounded_limit limit) sorted,
        order_by-count p later_entry db.audit_log,
      ),
    )
