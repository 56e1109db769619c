-- ===== src/Proxy/Logger/Counts.antt =====
-- proxy/logger.go: the counters of the logger and the entries of its files, over any calls.
use rtsp_go.Base.{
  ℕ, ◌+◌, ◌<◌, ◌≡◌, refl, true, List, [], ◌∷◌, Option, none, some, Result, ok, err, length, subst,
}
use rtsp_go.Base.Int.{pos}
use rtsp_go.Base.Word.{u64}
use rtsp_go.Base.Text.{Bytes}
use rtsp_go.Base.Sync.{RwMutex, free, Method, pure, ◌>>◌}
use rtsp_go.Proxy.Logger.{
  LogLevel, LogFile, LogStats, Logger, Formats, AuditEvent, log, audit_event,
}
use rtsp_go.Proxy.Logger.Files.{FileSystem, new_logger}

-- A call of Log at one of the five levels, or of AuditEvent.
pub data Call : Type 0 where
  logs : (severity : ℕ) → Bytes → ℕ → Call
  audits : AuditEvent → ℕ → Call

abbrev pub levels_sum : LogStats → ℕ
levels_sum st = st.debug_logs + st.info_logs + st.warn_logs + st.error_logs + st.fatal_logs

-- The counters of the levels add up to the total, and the counters agree with the entries of the two
-- files, which are open.
abbrev pub Agrees : Option LogStats → Option LogFile → Option LogFile → Type 0
Agrees (some st) (some file) (some audit) =
    (u64 (levels_sum st) ≡ st.total_logs)
    × (file.is_open ≡ true)
    × (audit.is_open ≡ true)
    × (u64 (length file.entries) ≡ st.total_logs)
    × (u64 (length audit.entries) ≡ st.audit_logs)
Agrees _ _ _ = ⊥

abbrev pub IsAudited : Logger → Type 0
IsAudited l = Agrees l.stats l.file l.audit_file

-- A call leaves the lock free and the counters in agreement.
abbrev pub Keeps : Unit {0} × RwMutex × Logger → Type 0
Keeps (_, m, l) = (m ≡ free) × IsAudited l

module _ (formats : Formats) where
  pub make_call : Call → Method Logger (Unit {0})
  unfolding log audit_event
  make_call (logs severity message now) = log formats (pos severity) message now
  make_call (audits event now) = audit_event formats event now

  pub make_calls : List Call → Method Logger (Unit {0})
  unfolding make_call
  make_calls [] = pure tt
  make_calls (c ∷ calls) = make_call c >> make_calls calls

  -- One of the five levels, or an event that JSON can print.
  abbrev pub IsSound : Call → Type 0
  IsSound (logs severity message now) = severity < 5
  IsSound (audits event now) = (json : Bytes) × (formats.marshal event ≡ ok json)

abbrev ResultAudited : Result Bytes Logger → Type 0
ResultAudited (ok l) = IsAudited l
ResultAudited (err e) = Unit

made-ResultAudited :
    (directory log_opened audit_opened : Option Bytes) (dir : Bytes) (level : LogLevel) (now : ℕ)
    → ResultAudited (
        new_logger
          (record { directory = directory; log_opened = log_opened; audit_opened = audit_opened })
          dir
          level
          true
          now)
unfolding new_logger
made-ResultAudited (some e) log_opened audit_opened dir level now = tt
made-ResultAudited none (some e) audit_opened dir level now = tt
made-ResultAudited none none (some e) dir level now = tt
made-ResultAudited none none none dir level now = (refl, refl, refl, refl, refl)

-- The logger that NewLogger makes with an audit file has its counters in agreement with its files.
pub new_logger-IsAudited :
    (fs : FileSystem) (dir : Bytes) (level : LogLevel) (now : ℕ) (l : Logger)
    → new_logger fs dir level true now ≡ ok l
    → IsAudited l
new_logger-IsAudited fs dir level now l made =
    subst ResultAudited made
      (made-ResultAudited fs.directory fs.log_opened fs.audit_opened dir level now)
