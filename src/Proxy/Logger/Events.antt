-- ===== src/Proxy/Logger/Events.antt =====
-- proxy/logger.go: the methods that record one kind of event, in the audit file and in the log.
use rtsp_go.Base.{ℕ, List, [], ◌∷◌, ◌++◌}
use rtsp_go.Base.Int.{ℤ, pos}
use rtsp_go.Base.Text.{Bytes, codes}
use rtsp_go.Base.Text.Decimal.{itoa}
use rtsp_go.Base.Sync.{Method, ◌>>◌}
use rtsp_go.Proxy.Logger.{
  AuditEvent, Detail, number, text, Formats, Logger, audit_event, log_info, log_error,
}

-- An event of a type, at a time, of which the other fields are empty.
abbrev pub new_event : Bytes → ℕ → AuditEvent
new_event event_type now = record {
  timestamp = now;
  event_type = event_type;
  session_id = [];
  client_ip = [];
  username = [];
  action = [];
  resource = [];
  result = codes "success";
  details = [];
  duration = pos 0;
}

-- Texts after their labels.
pub labelled : List (Bytes × Bytes) → Bytes
labelled [] = []
labelled ((label, value) ∷ rest) = label ++ (value ++ labelled rest)

module _ (formats : Formats) where
  open formats use {duration_text}

  record_event : AuditEvent → Bytes → ℕ → Method Logger (Unit {0})
  unfolding audit_event log_info
  record_event event message now = audit_event formats event now >> log_info formats message now

  -- LogConnection
  pub log_connection : Bytes → Bytes → Bytes → ℤ → ℕ → Method Logger (Unit {0})
  unfolding record_event labelled
  log_connection session_id client_ip action duration now =
      record_event
        (record (new_event (codes "connection") now) {
          session_id = session_id;
          client_ip = client_ip;
          action = action;
          duration = duration;
        })
        (labelled (
          (codes "Connection ", action)
          ∷ (codes ": session=", session_id)
          ∷ (codes ", client=", client_ip)
          ∷ (codes ", duration=", duration_text duration)
          ∷ []))
        now

  -- LogAuthentication
  pub log_authentication : Bytes → Bytes → Bytes → Bytes → Bytes → ℕ → Method Logger (Unit {0})
  unfolding record_event labelled
  log_authentication session_id client_ip username action result now =
      record_event
        (record (new_event (codes "authentication") now) {
          session_id = session_id;
          client_ip = client_ip;
          username = username;
          action = action;
          result = result;
        })
        (labelled (
          (codes "Authentication ", action)
          ∷ (codes ": user=", username)
          ∷ (codes ", client=", client_ip)
          ∷ (codes ", result=", result)
          ∷ []))
        now

  -- LogRTSPRequest
  pub log_rtsp_request : Bytes → Bytes → Bytes → Bytes → Bytes → ℤ → ℕ → Method Logger (Unit {0})
  unfolding record_event labelled
  log_rtsp_request session_id client_ip method url result duration now =
      record_event
        (record (new_event (codes "rtsp_request") now) {
          session_id = session_id;
          client_ip = client_ip;
          action = method;
          resource = url;
          result = result;
          duration = duration;
        })
        (labelled (
          (codes "RTSP ", method)
          ∷ (codes ": session=", session_id)
          ∷ (codes ", client=", client_ip)
          ∷ (codes ", url=", url)
          ∷ (codes ", result=", result)
          ∷ (codes ", duration=", duration_text duration)
          ∷ []))
        now

  -- LogMediaStream
  pub log_media_stream : Bytes → Bytes → Bytes → Bytes → ℕ → ℕ → Method Logger (Unit {0})
  unfolding record_event labelled
  log_media_stream session_id client_ip stream_type action bytes now =
      record_event
        (record (new_event (codes "media_stream") now) {
          session_id = session_id;
          client_ip = client_ip;
          action = action;
          resource = stream_type;
          details = (codes "bytes", number bytes) ∷ [];
        })
        (labelled (
          (codes "Media stream ", action)
          ∷ (codes ": session=", session_id)
          ∷ (codes ", client=", client_ip)
          ∷ (codes ", type=", stream_type)
          ∷ (codes ", bytes=", itoa bytes)
          ∷ []))
        now

  -- LogError, which logs at the level of errors.
  pub log_error_event : Bytes → Bytes → Bytes → Bytes → ℕ → Method Logger (Unit {0})
  unfolding audit_event log_error labelled
  log_error_event session_id client_ip error_type message now =
      audit_event formats
        (record (new_event (codes "error") now) {
          session_id = session_id;
          client_ip = client_ip;
          action = error_type;
          result = codes "error";
          details = (codes "message", text message) ∷ [];
        })
        now
      >> log_error formats
          (labelled (
            (codes "Error: session=", session_id)
            ∷ (codes ", client=", client_ip)
            ∷ (codes ", type=", error_type)
            ∷ (codes ", message=", message)
            ∷ []))
          now

  -- LogConfigChange
  pub log_config_change : Bytes → Bytes → List (Bytes × Detail) → ℕ → Method Logger (Unit {0})
  unfolding record_event labelled
  log_config_change action resource details now =
      record_event
        (record (new_event (codes "config_change") now) {
          action = action;
          resource = resource;
          details = details;
        })
        (labelled ((codes "Config change: action=", action) ∷ (codes ", resource=", resource) ∷ []))
        now

  -- LogHealthCheck
  pub log_health_check : Bytes → List (Bytes × Detail) → ℕ → Method Logger (Unit {0})
  unfolding record_event labelled
  log_health_check result details now =
      record_event
        (record (new_event (codes "health_check") now) {
          action = codes "health_check";
          result = result;
          details = details;
        })
        (labelled ((codes "Health check: result=", result) ∷ [])) now
