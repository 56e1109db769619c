-- ===== src/Proxy/Relay/Session.antt =====
-- proxy/proxy.go: the loop of a session over the client's requests, and what it counts.
pub mod Answers
pub mod Requests
use rtsp_go.Base.{
  ℕ, zero, suc, ◌+◌, ◌%◌, ◌^◌, Bool, true, false, List, [], ◌∷◌, ◌++◌, Option, none, some, Result,
  ok, err, Outcome, returns, blocks, panics, if◌then◌else◌, length, ◌>>=◌,
}
use rtsp_go.Base.Int.{pos}
use rtsp_go.Base.Word.{u64}
use rtsp_go.Base.Text.{Bytes, codes}
use rtsp_go.Protocol.Message.{Message, new_response, print_message}
use rtsp_go.Protocol.Session.{get_status_text}
use rtsp_go.Reader.{ReadError, read_message}
use rtsp_go.Proxy.Media.{absent, opened, close_conn, new_media_stream_proxy, stop_media}
use rtsp_go.Proxy.Relay.{
  ProxySession, ProxySessionStats, ProxyStats, ProxyConfig, ProxyError, Urls, Exchange, Processed,
  process_request, note,
}

-- NewProxySession at the time `now`.
unfoldable pub new_proxy_session : Bytes → ℕ → ProxySession
unfolding new_media_stream_proxy
new_proxy_session id now = record {
  id = id;
  client_conn = opened;
  upstream_conn = absent;
  upstream_url = [];
  created = now;
  last_activity = now;
  stats = record {
    messages_forwarded = 0;
    bytes_forwarded = 0;
    messages_received = 0;
    bytes_received = 0;
    start_time = now;
    last_activity = now;
  };
  media_proxy = record { proxy = new_media_stream_proxy id now; threads = [] };
}

-- UpdateActivity
pub update_activity : ℕ → ProxySession → ProxySession
update_activity now session = record session {
  last_activity = now;
  stats = record session.stats { last_activity = now };
}

-- UpdateStats
pub update_stats : Message → ProxySession → ProxySession
update_stats response session = record session {
  stats = record session.stats {
    messages_received = u64 (session.stats.messages_received + 1);
    bytes_received = u64 (session.stats.bytes_received + length (print_message response));
  };
}

-- updateProxyStats
unfoldable pub update_proxy_stats : Message → ProxyStats → ProxyStats
update_proxy_stats response st = record st {
  messages_forwarded = u64 (st.messages_forwarded + 1);
  bytes_forwarded = u64 (st.bytes_forwarded + length (print_message response));
}

-- Close
pub close_session : ProxySession → ProxySession
unfolding close_conn
close_session session = record session {
  client_conn = close_conn session.client_conn;
  upstream_conn = close_conn session.upstream_conn;
  media_proxy = record session.media_proxy { proxy = stop_media session.media_proxy.proxy };
}

-- stopMediaProxy
pub stop_media_proxy : ProxySession → ProxySession
stop_media_proxy session = record session {
  media_proxy = record session.media_proxy { proxy = stop_media session.media_proxy.proxy };
}

-- A session under way: the proxy's counters, the responses that have been written to the client, and
-- the upstreams that its requests have been written to.
pub record Relay : Type 0 where
  pub session : ProxySession
  pub stats : ProxyStats
  pub output : List Message
  pub forwarded : List Bytes

pub internal_error : Message
internal_error = new_response (pos 500) (get_status_text 500)

pub response_of : Result ProxyError Message → Message
unfolding internal_error
response_of (ok response) = response
response_of (err e) = internal_error

-- The state once the response to a request has been written, or could not be.
pub written : Exchange → Message → ProxySession → Option Bytes → Relay → Relay
unfolding update_stats update_proxy_stats note
written exchange response session url st =
    if exchange.reply_fails
    then record st { session = session; forwarded = note url st.forwarded }
    else record {
      session = update_stats response session;
      stats = update_proxy_stats response st.stats;
      output = st.output ++ response ∷ [];
      forwarded = note url st.forwarded;
    }

module _ (urls : Urls) (config : ProxyConfig) (heap : ℕ) where
  -- One round of handleRTSPSession, on a request.
  pub answer_request : Exchange → Message → Relay → Outcome Relay
  unfolding update_activity response_of written
  answer_request exchange request st =
      process_request urls config heap exchange request (update_activity exchange.now st.session)
      >>= λ p. returns (written exchange (response_of p.0) p.1 p.2 st)

  -- handleRTSPSession over the bytes that the client sends before it closes its side; it ends with
  -- an error of reading or of writing. The n-th request meets the n-th exchange.
  pub handle_rtsp_session : ℕ → (ℕ → Exchange) → Bytes → Relay → Outcome Relay
  unfolding answer_request
  handle_rtsp_session zero exchanges s st = blocks
  handle_rtsp_session (suc fuel) exchanges s st = elim (read_message heap s) [
    | blocks ↦ blocks
    | panics ↦ panics
    | returns r ↦ elim r [
      | err e ↦ returns st
      | ok m ↦ answer_request (exchanges 0) m.0 st >>= λ st'. elim ((exchanges 0).reply_fails) [
        | true ↦ returns st'
        | false ↦ handle_rtsp_session fuel (λ n. exchanges (suc n)) m.1 st'
      ]
    ]
  ]
