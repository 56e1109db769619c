-- ===== src/Proxy/Logger.antt =====
-- proxy/logger.go: the logger, its levels, its counters and the audit events.
-- A file is what the logger has written to it since it opened it; a failed write is ignored there.
pub mod Events
pub mod Files
pub mod Locks
pub mod Counts
pub mod Start
pub mod Reports
pub mod Examples
use rtsp_go.Base.{
  ℕ, ◌+◌, ◌%◌, ◌^◌, Bool, true, false, not, ◌||◌, List, [], ◌∷◌, ◌++◌, Option, none, some, Result,
  ok, err, Outcome, returns, blocks, panics, if◌then◌else◌,
}
use rtsp_go.Base.Int.{ℤ, pos, negsuc, ltz, eqz}
use rtsp_go.Base.Word.{u64}
use rtsp_go.Base.Text.{Bytes, codes}
use rtsp_go.Base.Sync.{Method, pure, get, locked, ◌>>=◌, ◌>>◌}

-- LogLevel is an int, with five constants.
abbrev pub LogLevel : Type 0
LogLevel = ℤ

abbrev pub debug : LogLevel
debug = pos 0

abbrev pub info : LogLevel
info = pos 1

abbrev pub warn : LogLevel
warn = pos 2

abbrev pub error : LogLevel
error = pos 3

abbrev pub fatal : LogLevel
fatal = pos 4

pub record LogStats : Type 0 where
  pub total_logs : ℕ  -- uint64, as the other counters
  pub debug_logs : ℕ
  pub info_logs : ℕ
  pub warn_logs : ℕ
  pub error_logs : ℕ
  pub fatal_logs : ℕ
  pub audit_logs : ℕ
  pub start_time : ℕ
  pub last_log_time : ℕ

pub record LogFile : Type 0 where
  pub is_open : Bool
  pub entries : List Bytes

pub record Logger : Type 0 where
  pub level : LogLevel
  pub file : Option LogFile
  pub audit_file : Option LogFile
  pub stats : Option LogStats
  pub enable_audit : Bool
  pub log_dir : Bytes

-- A value of an event's details: a number, a text, or one of any other Go type.
pub data Detail : Type 0 where
  number : ℕ → Detail
  text : Bytes → Detail
  opaque : ℕ → Detail

pub record AuditEvent : Type 0 where
  pub timestamp : ℕ
  pub event_type : Bytes
  pub session_id : Bytes
  pub client_ip : Bytes
  pub username : Bytes
  pub action : Bytes
  pub resource : Bytes
  pub result : Bytes
  pub details : List (Bytes × Detail)
  pub duration : ℤ

-- How a time and a duration are printed, and the JSON text of an event or the text of the error.
pub record Formats : Type 0 where
  pub stamp : ℕ → Bytes
  pub duration_text : ℤ → Bytes
  pub marshal : AuditEvent → Result Bytes Bytes

-- getLevelString
pub get_level_string : LogLevel → Bytes
get_level_string level =
    if eqz level debug
    then codes "DEBUG"
    else if eqz level info
    then codes "INFO"
    else if eqz level warn
    then codes "WARN"
    else if eqz level error
    then codes "ERROR"
    else if eqz level fatal
    then codes "FATAL"
    else codes "UNKNOWN"

-- The counter of a level, one higher; a level that is none of the five has none.
pub count_level : LogLevel → LogStats → LogStats
count_level level st =
    if eqz level debug
    then record st { debug_logs = u64 (st.debug_logs + 1) }
    else if eqz level info
    then record st { info_logs = u64 (st.info_logs + 1) }
    else if eqz level warn
    then record st { warn_logs = u64 (st.warn_logs + 1) }
    else if eqz level error
    then record st { error_logs = u64 (st.error_logs + 1) }
    else if eqz level fatal
    then record st { fatal_logs = u64 (st.fatal_logs + 1) }
    else st

pub count_log : LogLevel → ℕ → LogStats → LogStats
unfolding count_level
count_log level now st =
    count_level level (record st { total_logs = u64 (st.total_logs + 1); last_log_time = now })

-- WriteString to a file that may be nil or closed.
pub write_entry : Bytes → Option LogFile → Option LogFile
write_entry entry none = none
write_entry entry (some f) =
    some (if f.is_open then record f { entries = f.entries ++ entry ∷ [] } else f)

module _ (formats : Formats) where
  open formats use {stamp, marshal}

  pub log_entry : LogLevel → Bytes → ℕ → Bytes
  unfolding get_level_string
  log_entry level message now =
      b'[' ∷ stamp now
      ++ (codes "] [" ++ (get_level_string level ++ (codes "] " ++ (message ++ 10 ∷ []))))

  -- The part of Log under the lock. The counters of a logger without any are a nil pointer.
  pub write_log : LogLevel → Bytes → ℕ → Method Logger (Unit {0})
  unfolding count_log write_entry log_entry
  write_log level message now m l = elim l.stats [
    | none ↦ panics
    | some st ↦ returns (
      tt,
      m,
      record l {
        stats = some (count_log level now st);
        file = write_entry (log_entry level message now) l.file;
      },
    )
  ]

  -- Log, of the message that its format and arguments make, at the time `now`.
  pub log : LogLevel → Bytes → ℕ → Method Logger (Unit {0})
  unfolding write_log locked
  log level message now =
      get >>= λ l. if ltz level l.level then pure tt else locked (write_log level message now)

  -- The part of AuditEvent under the lock; Error locks again.
  pub write_audit : AuditEvent → ℕ → Method Logger (Unit {0})
  unfolding log write_entry
  write_audit event now m l = elim l.stats [
    | none ↦ panics
    | some st ↦
        let counted : Logger = record l {
          stats = some (record st { audit_logs = u64 (st.audit_logs + 1) });
        } in
        elim (marshal event) [
          | err e ↦ log error (codes "Failed to marshal audit event: " ++ e) now m counted
          | ok json ↦
              returns
                (tt, m, record counted { audit_file = write_entry (json ++ 10 ∷ []) l.audit_file })
        ]
  ]

  -- AuditEvent
  pub audit_event : AuditEvent → ℕ → Method Logger (Unit {0})
  unfolding write_audit locked
  audit_event event now = get >>= λ l.
      if not l.enable_audit
      then pure tt
      else elim l.audit_file [ none ↦ pure tt | some f ↦ locked (write_audit event now) ]

  -- SetLevel; Info locks again.
  pub set_level : LogLevel → ℕ → Method Logger (Unit {0})
  unfolding log get_level_string locked
  set_level level now = locked (
      (λ m l. returns (tt, m, record l { level = level }))
      >> log info (codes "Log level changed to " ++ get_level_string level) now)

  -- Debug, Info, Warn, Error and Fatal.
  pub log_debug : Bytes → ℕ → Method Logger (Unit {0})
  unfolding log
  log_debug = log debug

  pub log_info : Bytes → ℕ → Method Logger (Unit {0})
  unfolding log
  log_info = log info

  pub log_warn : Bytes → ℕ → Method Logger (Unit {0})
  unfolding log
  log_warn = log warn

  pub log_error : Bytes → ℕ → Method Logger (Unit {0})
  unfolding log
  log_error = log error

  pub log_fatal : Bytes → ℕ → Method Logger (Unit {0})
  unfolding log
  log_fatal = log fatal
