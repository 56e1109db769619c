-- ===== src/Proxy/Logger/Start.antt =====
-- proxy/proxy.go: how NewRTSPProxy gets its logger.
use rtsp_go.Base.{
  ℕ, ◌≡◌, refl, true, false, [], Option, none, some, Result, ok, err, Outcome, panics, ◌↔◌,
}
use rtsp_go.Base.Int.{ltz}
use rtsp_go.Base.Text.{Bytes, codes}
use rtsp_go.Base.Sync.{RwMutex, free, ◌>>◌, locked, lock, unlock}
use rtsp_go.Proxy.Logger.{Logger, Formats, info, log, log_info, write_log}
use rtsp_go.Proxy.Logger.Files.{FileSystem, new_logger}

-- The logger that stands in where NewLogger fails: its counters are a nil pointer.
default_logger : Logger
default_logger = record {
  level = info;
  file = none;
  audit_file = none;
  stats = none;
  enable_audit = false;
  log_dir = [];
}

module _ (formats : Formats) where
  begin_logging : ℕ → Result Bytes Logger → Outcome (Unit {0} × RwMutex × Logger)
  unfolding default_logger log_info
  begin_logging now (ok l) =
      (log_info formats (codes "Logger initialized successfully") now
          >> log_info formats (codes "RTSP Proxy initialized successfully") now)
        free l
  begin_logging now (err e) =
      log_info formats (codes "RTSP Proxy initialized successfully") now free default_logger

  -- The logger of NewRTSPProxy at the time `now`, with its first entries.
  pub start_logger : FileSystem → ℕ → Outcome (Unit {0} × RwMutex × Logger)
  unfolding begin_logging
  start_logger fs now = begin_logging now (new_logger fs (codes "logs") info true now)

  started :
      (directory log_opened audit_opened : Option Bytes) (now : ℕ)
      → let fs : FileSystem = record {
        directory = directory;
        log_opened = log_opened;
        audit_opened = audit_opened;
      } in
        (start_logger fs now ≡ panics)
        ↔ ((e : Bytes) × (new_logger fs (codes "logs") info true now ≡ err e))
  unfolding start_logger new_logger log_info log locked lock unlock write_log ltz
  started (some e) log_opened audit_opened now = (λ p. (_, refl), λ h. refl)
  started none (some e) audit_opened now = (λ p. (_, refl), λ h. refl)
  started none none (some e) now = (λ p. (_, refl), λ h. refl)
  started none none none now = (λ p. cc, λ h. let (e, is_err) = h in cc)

  pub start_logger-panics_iff :
      (fs : FileSystem) (now : ℕ)
      → (start_logger fs now ≡ panics)
        ↔ ((e : Bytes) × (new_logger fs (codes "logs") info true now ≡ err e))
  start_logger-panics_iff fs now = started fs.directory fs.log_opened fs.audit_opened now
