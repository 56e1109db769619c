-- ===== src/Auth/Reports.antt =====
-- proxy/auth_manager.go: GetStats.
use rtsp_go.Base.{ℕ, ◌*◌, [], ◌∷◌, if◌then◌else◌, ◌==◌}
use rtsp_go.Base.Text.{codes}
use rtsp_go.Base.Report.{Report, count, flag, ratio, report}
use rtsp_go.Auth.{AuthStats, AuthManager}

-- The share of the denied requests in percent, 0 being 0 of 1. Its text has two decimal places.
pub deny_rate : AuthStats → ℕ × ℕ
deny_rate s = if s.total_requests == 0 then (0, 1) else (s.denied_requests * 100, s.total_requests)

-- GetStats
pub auth_report : AuthManager → Report
unfolding deny_rate
auth_report am = report (
    (codes "auth_required", flag am.auth_required)
    ∷ (codes "default_allow", flag am.default_allow)
    ∷ (codes "total_requests", count am.stats.total_requests)
    ∷ (codes "allowed_requests", count am.stats.allowed_requests)
    ∷ (codes "denied_requests", count am.stats.denied_requests)
    ∷ (codes "auth_failures", count am.stats.auth_failures)
    ∷ (codes "deny_rate", ratio (deny_rate am.stats))
    ∷ (codes "active_users", count am.stats.active_users)
    ∷ [])
