-- ===== src/Proxy/Logger/Files.antt =====
-- proxy/logger.go: the files of the logger, their opening, rotation and clean-up.
use rtsp_go.Base.{
  ℕ, suc, ◌-◌, Bool, true, false, List, [], ◌∷◌, ◌++◌, Option, none, some, Result, ok, err, returns,
  if◌then◌else◌, ltb,
}
use rtsp_go.Base.Text.{Bytes, codes}
use rtsp_go.Base.Text.Decimal.{itoa}
use rtsp_go.Base.Sync.{Method, pure, get, modify, locked, ◌>>=◌, ◌>>◌}
use rtsp_go.Proxy.Logger.{LogLevel, LogFile, LogStats, Logger, Formats, log_info, log_error}

-- What the file system answers: to MkdirAll, and to OpenFile for the log and for the audit file.
pub record FileSystem : Type 0 where
  pub directory : Option Bytes  -- an error
  pub log_opened : Option Bytes
  pub audit_opened : Option Bytes

abbrev pub new_file : LogFile
new_file = record { is_open = true; entries = [] }

abbrev new_log_stats : ℕ → LogStats
new_log_stats now = record {
  total_logs = 0;
  debug_logs = 0;
  info_logs = 0;
  warn_logs = 0;
  error_logs = 0;
  fatal_logs = 0;
  audit_logs = 0;
  start_time = now;
  last_log_time = 0;
}

-- NewLogger at the time `now`.
unfoldable pub new_logger : FileSystem → Bytes → LogLevel → Bool → ℕ → Result Bytes Logger
new_logger fs log_dir level enable_audit now = elim fs.directory [
  | some e ↦ err (codes "failed to create log directory: " ++ e)
  | none ↦ elim fs.log_opened [
    | some e ↦ err (codes "failed to open log file: " ++ e)
    | none ↦
        let logger : Logger = record {
          level = level;
          file = some new_file;
          audit_file = none;
          stats = some (new_log_stats now);
          enable_audit = enable_audit;
          log_dir = log_dir;
        } in
        if enable_audit
        then elim fs.audit_opened [
          | some e ↦ err (codes "failed to open audit file: " ++ e)
          | none ↦ ok (record logger { audit_file = some new_file })
        ]
        else ok logger
  ]
]

abbrev shut : Option LogFile → Option LogFile
shut none = none
shut (some f) = some (record f { is_open = false })

-- Close, where the system's calls give no error.
pub close : Method Logger (Unit {0})
unfolding locked
close = locked (modify λ l. record l { file = shut l.file; audit_file = shut l.audit_file })

module _ (formats : Formats) where
  -- The files as RotateLogs opens them again; the old ones have other names by then. The audit file
  -- is left alone, closed, if there is to be none.
  unfoldable pub reopen : FileSystem → Logger → Result (Bytes × Logger) Logger
  reopen fs l =
      let closed : Logger = record l { file = shut l.file; audit_file = shut l.audit_file } in
      elim fs.log_opened [
        | some e ↦ err (codes "failed to reopen log file: " ++ e, closed)
        | none ↦
            let reopened : Logger = record closed { file = some new_file } in
            if l.enable_audit
            then elim fs.audit_opened [
              | some e ↦ err (codes "failed to reopen audit file: " ++ e, reopened)
              | none ↦ ok (record reopened { audit_file = some new_file })
            ]
            else ok reopened
      ]

  unfoldable pub rotated :
      ℕ → Result (Bytes × Logger) Logger → Method Logger (Result Bytes (Unit {0}))
  unfolding log_info
  rotated now (err (e, l)) m _ = returns (err e, m, l)
  rotated now (ok l) m _ =
      (log_info formats (codes "Log files rotated successfully") now >> pure (ok tt)) m l

  -- RotateLogs; Info locks again.
  unfoldable pub rotate_logs : FileSystem → ℕ → Method Logger (Result Bytes (Unit {0}))
  unfolding reopen rotated locked
  rotate_logs fs now = locked (get >>= λ l. rotated now (reopen fs l))

  -- A file that Glob lists, with the time that Stat gives and the error of Remove.
  pub record Listed : Type 0 where
    pub name : Bytes
    pub modified : Option ℕ
    pub removal : Option Bytes

  -- The loop of CleanupOldLogs, which gives the names of the files that it removes.
  pub clean_files : ℕ → ℕ → List Listed → Method Logger (List Bytes)
  unfolding log_error
  clean_files cutoff now [] = pure []
  clean_files cutoff now (f ∷ files) =
      let rest = clean_files cutoff now files in
      elim f.modified [
        | none ↦ rest
        | some time ↦
            if ltb time cutoff
            then elim f.removal [
              | some e ↦
                  log_error formats
                    (codes "Failed to remove old log file " ++ (f.name ++ (codes ": " ++ e))) now
                  >> rest
              | none ↦ rest >>= λ names. pure (f.name ∷ names)
            ]
            else rest
      ]

  abbrev count : List Bytes → ℕ
  count [] = 0
  count (n ∷ names) = suc (count names)

  report_cleaned : List Bytes → ℕ → Method Logger (List Bytes)
  unfolding log_info
  report_cleaned [] now = pure []
  report_cleaned (name ∷ names) now =
      log_info formats
        (codes "Cleaned up " ++ (itoa (count (name ∷ names)) ++ codes " old log files")) now
      >> pure (name ∷ names)

  -- CleanupOldLogs, given what Glob gives.
  pub cleanup_old_logs :
      ℕ → Result Bytes (List Listed) → ℕ → Method Logger (Result Bytes (List Bytes))
  unfolding clean_files report_cleaned
  cleanup_old_logs max_age (err e) now = pure (err (codes "failed to list log files: " ++ e))
  cleanup_old_logs max_age (ok files) now = clean_files (now - max_age) now files >>= λ names.
      report_cleaned names now >>= λ cleaned. pure (ok cleaned)
