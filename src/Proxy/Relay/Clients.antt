-- ===== src/Proxy/Relay/Clients.antt =====
-- proxy/proxy.go: the proxy's table of sessions and its counters, while clients come and go.
-- Each client has a goroutine in handleClientConnection, whose locked parts are one step each. Two
-- clients never have the same session ID here, which the source takes from the clock.
pub mod Counts
use rtsp_go.Base.{
  ℕ, ◌+◌, ◌%◌, ◌^◌, Bool, true, false, List, [], ◌∷◌, ◌++◌, Option, none, some, ◌≡◌, map, length,
}
use rtsp_go.Base.Int.{pos}
use rtsp_go.Base.Word.{u64}
use rtsp_go.Base.Text.{Bytes, codes}
use rtsp_go.Base.Text.Decimal.{itoa}
use rtsp_go.Base.Dict.{Dict, lookup, insert, delete, bytes_eq}
use rtsp_go.Base.Report.{Report, count, text, flag, report}
use rtsp_go.Protocol.Message.{Message}
use rtsp_go.Proxy.Relay.{ProxyConfig, ProxySession, ProxyStats}
use rtsp_go.Proxy.Relay.Session.{new_proxy_session, close_session, update_proxy_stats}

-- RTSPProxy, but for its listener and the parts that stand by themselves.
pub record RtspProxy : Type 0 where
  pub config : ProxyConfig
  pub sessions : Dict Bytes ProxySession
  pub running : Bool
  pub stats : ProxyStats

-- How far handleClientConnection has come: at its start, with its session in the table, with its
-- client counted, with its session out of the table, or at its end.
pub data Phase : Type 0 where
  accepted added counted deleted gone : Phase

-- The proxy, and the goroutines by the IDs of their sessions.
pub record Clients : Type 0 where
  pub proxy : RtspProxy
  pub handlers : Dict Bytes Phase

new_proxy_stats : ℕ → ProxyStats
new_proxy_stats now = record {
  total_sessions = 0;
  active_sessions = 0;
  total_connections = 0;
  messages_forwarded = 0;
  bytes_forwarded = 0;
  start_time = now;
}

-- The table and the counters of NewRTSPProxy, at the time `now`.
unfoldable pub new_rtsp_proxy : ProxyConfig → ℕ → RtspProxy
unfolding new_proxy_stats
new_rtsp_proxy config now = record {
  config = config;
  sessions = [];
  running = false;
  stats = new_proxy_stats now;
}

pub count_client : ProxyStats → ProxyStats
count_client st = record st {
  total_connections = u64 (st.total_connections + 1);
  active_sessions = u64 (st.active_sessions + 1);
}

-- A uint64 less one, which wraps at 0.
pub uncount_client : ProxyStats → ProxyStats
uncount_client st = record st {
  active_sessions = u64 (st.active_sessions + 18_446_744_073_709_551_615);
}

-- The next locked part of handleClientConnection, for a session ID and at a time.
pub advance : Bytes → ℕ → Phase → RtspProxy → RtspProxy × Phase
unfolding count_client uncount_client
advance id now accepted p =
    (record p { sessions = insert id (new_proxy_session id now) p.sessions }, added)
advance id now added p = (record p { stats = count_client p.stats }, counted)
advance id now counted p = (record p { sessions = delete id p.sessions }, deleted)
advance id now deleted p = (record p { stats = uncount_client p.stats }, gone)
advance id now gone p = (p, gone)

close_all : Dict Bytes ProxySession → Dict Bytes ProxySession
close_all [] = []
close_all ((id, session) ∷ sessions) = (id, close_session session) ∷ close_all sessions

-- Stop
pub stop_proxy : RtspProxy → RtspProxy
unfolding close_all
stop_proxy p = record p { running = false; sessions = close_all p.sessions }

-- A client that Start accepts, a step of one client's goroutine, a message that is counted, or Stop.
pub data Step : Clients → Clients → Type 0 where
  accepts :
      (id : Bytes) {p : RtspProxy} {handlers : Dict Bytes Phase}
      → lookup id handlers ≡ none
      → Step
          (record { proxy = p; handlers = handlers })
          (record { proxy = p; handlers = insert id accepted handlers })
  advances :
      (id : Bytes) (now : ℕ) (phase : Phase) {p : RtspProxy} {handlers : Dict Bytes Phase}
      → lookup id handlers ≡ some phase
      → Step
          (record { proxy = p; handlers = handlers })
          (record {
            proxy = (advance id now phase p).0;
            handlers = insert id (advance id now phase p).1 handlers;
          })
  forwards :
      (response : Message) {p : RtspProxy} {handlers : Dict Bytes Phase}
      → Step
          (record { proxy = p; handlers = handlers })
          (record {
            proxy = record p { stats = update_proxy_stats response p.stats };
            handlers = handlers;
          })
  stops :
      {p : RtspProxy} {handlers : Dict Bytes Phase}
      → Step
          (record { proxy = p; handlers = handlers })
          (record { proxy = stop_proxy p; handlers = handlers })

pub data Steps : Clients → Clients → Type 0 where
  done : {c : Clients} → Steps c c
  step : {c d e : Clients} → Step c d → Steps d e → Steps c e

-- GetStats, where `uptime` is the text of the time since the start.
pub proxy_report : Bytes → RtspProxy → Report
proxy_report uptime p = report (
    (codes "listen_address", text (p.config.listen_address ++ b':' ∷ itoa p.config.listen_port))
    ∷ (codes "running", flag p.running)
    ∷ (codes "total_sessions", count p.stats.total_sessions)
    ∷ (codes "active_sessions", count (length p.sessions))
    ∷ (codes "total_connections", count p.stats.total_connections)
    ∷ (codes "messages_forwarded", count p.stats.messages_forwarded)
    ∷ (codes "bytes_forwarded", count p.stats.bytes_forwarded)
    ∷ (codes "uptime", text uptime)
    ∷ [])
