-- ===== src/Storage/Audit.antt =====
-- The audit log of src/storage.py, and the counts of failed logins that are read from it.
use clash_config_gen.Prelude.{
  ℕ, ◌+◌, ◌*◌, String, Bool, not, ◌&&◌, List, [], ◌∷◌, ◌++◌, ◌==◌, ltb, leb, if◌then◌else◌, count,
}
use Prim.Native.Nat.{max}
use clash_config_gen.Prelude.Text.{strip, lower, truncate}
use clash_config_gen.Storage.{AuditEvent, Db, delete_where}

unfoldable pub audit_name : String → String
unfolding strip lower truncate
audit_name username = truncate 64 (lower (strip username))

abbrev pub retention_seconds : ℕ
retention_seconds = 90 * 86400

unfoldable pub record_auth_audit_event : String → String → String → Bool → String → ℕ → Db → Db
record_auth_audit_event event_type username client_ip success detail now db = record db {
  audit =
      delete_where (λ e. ltb (e.created_at + retention_seconds) now) db.audit
      ++ record {
        event_type = truncate 32 event_type;
        username = audit_name username;
        client_ip = truncate 64 client_ip;
        success = success;
        detail = truncate 200 detail;
        created_at = now;
      }
        ∷ [];
}

-- `created_at >= boundary`, for the boundary `now - max(60, window_seconds)`.
abbrev pub in_window : ℕ → ℕ → AuditEvent → Bool
in_window window_seconds now e = leb now (e.created_at + max 60 window_seconds)

abbrev pub is_success_of : String → AuditEvent → Bool
is_success_of name e = e.event_type == "login" && (e.success && e.username == name)

abbrev pub is_failure_of : String → AuditEvent → Bool
is_failure_of name e = e.event_type == "login" && (not e.success && e.username == name)

abbrev pub is_failure_from : String → AuditEvent → Bool
is_failure_from client_ip e = e.event_type == "login" && (not e.success && e.client_ip == client_ip)

-- `MAX(created_at)` of the rows that pass a test; 0 stands for NULL.
unfoldable pub latest : (AuditEvent → Bool) → List AuditEvent → ℕ
latest p [] = 0
latest p (e ∷ events) = let rest = latest p events in if p e then max e.created_at rest else rest

unfoldable pub account_failures : String → ℕ → ℕ → List AuditEvent → ℕ
unfolding latest
account_failures name window_seconds now events =
    let last_success =
      latest (λ e. is_success_of name e && in_window window_seconds now e) events in
    count
      (λ e.
        is_failure_of name e && (in_window window_seconds now e && leb last_success e.created_at))
      events

unfoldable pub ip_failures : String → ℕ → ℕ → List AuditEvent → ℕ
ip_failures client_ip window_seconds now =
    count (λ e. is_failure_from client_ip e && in_window window_seconds now e)

unfoldable pub recent_login_failure_counts : String → String → ℕ → ℕ → Db → ℕ × ℕ
recent_login_failure_counts username client_ip window_seconds now db = (
  account_failures (audit_name username) window_seconds now db.audit,
  ip_failures (truncate 64 client_ip) window_seconds now db.audit,
)
