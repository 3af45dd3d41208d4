-- ===== src/Workers.antt =====
-- app/workers/tasks.py: the two periodic tasks, on the rows that they read and write. Celery, which runs
-- them, is left out. Times are whole seconds.
use smart_travel_aggregator.Prelude.{
  ℕ, ◌+◌, ◌*◌, ◌≤◌, ◌<◌, ◌≡◌, refl, Bool, not, List, [], ◌∷◌, ◌++◌, arith, ltb, nat_eq, list_eq,
  length, filter, All,
}
use smart_travel_aggregator.Services.PriceMonitor.{Monitor, MonitorState, run_once}
use smart_travel_aggregator.Api.Auth.{AuditLog}

unfoldable pub monitor_prices : Monitor → MonitorState → MonitorState × ℕ
monitor_prices monitor s = let (after, report) = run_once monitor s in (after, report.triggered)

-- `AuditLog.created_at < cutoff`, where `cutoff = now - timedelta(days=retention_days)`.
unfoldable pub is_outdated : ℕ → ℕ → AuditLog → Bool
is_outdated retention_days now row = ltb (row.created_at + retention_days * 86400) now

-- The rows afterwards, and how many were deleted.
unfoldable pub cleanup_audit_log : ℕ → ℕ → List AuditLog → List AuditLog × ℕ
cleanup_audit_log retention_days now rows = (
  filter (λ row. not (is_outdated retention_days now row)) rows,
  length (filter (is_outdated retention_days now) rows),
)

-- A row is deleted or kept, and counted as what it is.
length-cleanup_audit_log :
    (retention_days now : ℕ) (rows : List AuditLog)
    → length (cleanup_audit_log retention_days now rows).0
        + (cleanup_audit_log retention_days now rows).1
      ≡ length rows
unfolding cleanup_audit_log
length-cleanup_audit_log retention_days now [] = refl
length-cleanup_audit_log retention_days now (row ∷ rows) =
    ground (arith, length-cleanup_audit_log retention_days now rows)

-- Rows of the retention period stay, and those of before go.
cleanup_audit_log-append :
    (retention_days now : ℕ) (old recent : List AuditLog)
    → All (λ row. row.created_at + retention_days * 86400 < now) old
    → All (λ row. now ≤ row.created_at + retention_days * 86400) recent
    → (cleanup_audit_log retention_days now (old ++ recent)).0 ≡ recent
unfolding cleanup_audit_log is_outdated
cleanup_audit_log-append retention_days now [] [] h k = refl
cleanup_audit_log-append retention_days now [] (row ∷ recent) h k =
    ground (arith, k.0, cleanup_audit_log-append retention_days now [] recent tt k.1)
cleanup_audit_log-append retention_days now (row ∷ old) recent h k =
    ground (arith, h.0, cleanup_audit_log-append retention_days now old recent h.1 k)
