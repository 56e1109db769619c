-- ===== src/Proxy/Logger/Reports.antt =====
-- proxy/logger.go: GetStats, of a logger that has its counters.
use rtsp_go.Base.{[], ◌∷◌, Option, none, some, Outcome, returns, panics}
use rtsp_go.Base.Text.{codes}
use rtsp_go.Base.Report.{Report, count, text, flag, moment, report}
use rtsp_go.Proxy.Logger.{LogStats, Logger, get_level_string}

pub report_with : Logger → Option LogStats → Outcome Report
report_with l none = panics
report_with l (some s) = returns (
    report (
      (codes "level", text (get_level_string l.level))
      ∷ (codes "enable_audit", flag l.enable_audit)
      ∷ (codes "log_dir", text l.log_dir)
      ∷ (codes "total_logs", count s.total_logs)
      ∷ (codes "debug_logs", count s.debug_logs)
      ∷ (codes "info_logs", count s.info_logs)
      ∷ (codes "warn_logs", count s.warn_logs)
      ∷ (codes "error_logs", count s.error_logs)
      ∷ (codes "fatal_logs", count s.fatal_logs)
      ∷ (codes "audit_logs", count s.audit_logs)
      ∷ (codes "start_time", moment s.start_time)
      ∷ (codes "last_log_time", moment s.last_log_time)
      ∷ []))

-- GetStats
pub logger_report : Logger → Outcome Report
unfolding report_with
logger_report l = report_with l l.stats
