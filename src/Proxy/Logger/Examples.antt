-- ===== src/Proxy/Logger/Examples.antt =====
-- proxy/logger.go on concrete loggers: tests, and instances of the theorems.
use rtsp_go.Base.{◌≡◌, refl, true, false, ok, none, some, blocks, panics, ◌↔◌}
use rtsp_go.Base.Int.{ltz}
use rtsp_go.Base.Text.{codes}
use rtsp_go.Base.Sync.{free}
use rtsp_go.Proxy.Logger.{Logger, Formats, debug, info, set_level}
use rtsp_go.Proxy.Logger.Files.{FileSystem, new_logger, new_file, reopen, rotate_logs}
use rtsp_go.Proxy.Logger.Locks.{set_level-rotate_logs-blocks}
use rtsp_go.Proxy.Logger.Start.{start_logger, start_logger-panics_iff}

abbrev plain : Formats
plain = record {
  stamp = λ now. codes "now";
  duration_text = λ d. codes "1s";
  marshal = λ event. ok (codes "{}");
}

abbrev working : FileSystem
working = record { directory = none; log_opened = none; audit_opened = none }

abbrev fresh : Logger
fresh = record {
  level = info;
  file = some new_file;
  audit_file = some new_file;
  stats = some (record {
    total_logs = 0;
    debug_logs = 0;
    info_logs = 0;
    warn_logs = 0;
    error_logs = 0;
    fatal_logs = 0;
    audit_logs = 0;
    start_time = 5;
    last_log_time = 0;
  });
  enable_audit = true;
  log_dir = codes "logs";
}

set_level-rotate_logs-blocks_example :
    ((set_level plain debug 7 free fresh ≡ blocks) ↔ (ltz info debug ≡ false))
    × ((rotate_logs plain working 7 free fresh ≡ blocks)
        ↔ ((l : Logger) × (reopen plain working fresh ≡ ok l) × (ltz info fresh.level ≡ false)))
set_level-rotate_logs-blocks_example = set_level-rotate_logs-blocks plain 7 fresh debug working

rotation_blocks : rotate_logs plain working 7 free fresh ≡ blocks
unfolding reopen ltz
rotation_blocks = (set_level-rotate_logs-blocks plain 7 fresh debug working).1.1 (fresh, refl, refl)

abbrev unopened : FileSystem
unopened = record working { log_opened = some (codes "permission denied") }

no_log_no_proxy : start_logger plain unopened 5 ≡ panics
unfolding new_logger
no_log_no_proxy =
    (start_logger-panics_iff plain unopened 5).1
      (codes "failed to open log file: permission denied", refl)
