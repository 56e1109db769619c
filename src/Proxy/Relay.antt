-- ===== src/Proxy/Relay.antt =====
-- proxy/proxy.go: a proxy session, from a request of the client to the response.
-- net/url is the parameter `urls`. The reader that processRequest makes for each response gets the
-- bytes that its exchange names; what it buffers beyond the response is lost with it.
pub mod Session
pub mod Upstream
pub mod Table
pub mod Clients
pub mod Examples
use rtsp_go.Base.{
  ℕ, zero, suc, ◌+◌, ◌%◌, ◌^◌, Bool, true, false, not, List, [], ◌∷◌, ◌++◌, Option, none, some,
  Result, ok, err, Outcome, returns, blocks, panics, if◌then◌else◌, length, ◌>>=◌,
}
use rtsp_go.Base.Int.{ℤ, pos}
use rtsp_go.Base.Word.{u64}
use rtsp_go.Base.Text.{Bytes, codes, text_eq, is_empty}
use rtsp_go.Base.Text.Decimal.{itoa}
use rtsp_go.Base.Dict.{Dict, lookup, insert, delete, bytes_eq}
use rtsp_go.Protocol.Message.{Message, new_response, set_header, get_header, print_message}
use rtsp_go.Protocol.Session.{get_status_text}
use rtsp_go.Protocol.Transport.{Transport, parse_transport, is_tcp_transport}
use rtsp_go.Reader.{ReadError, read_message}
use rtsp_go.Proxy.Media.{
  Conn, absent, opened, closed, close_conn, MediaStreamProxy, set_transport_mode, stop_media,
}
use rtsp_go.Proxy.Media.Threads.{Thread, System, StartError, start_media}

pub record ProxyConfig : Type 0 where
  pub listen_address : Bytes
  pub listen_port : ℕ
  pub upstream_servers : Dict Bytes Bytes
  pub default_server : Bytes
  pub buffer_size : ℕ
  pub timeout : ℕ  -- in nanoseconds
  pub max_connections : ℕ
  pub enable_logging : Bool

pub record ProxySessionStats : Type 0 where
  pub messages_forwarded : ℕ  -- uint64, as the other counters
  pub bytes_forwarded : ℕ
  pub messages_received : ℕ
  pub bytes_received : ℕ
  pub start_time : ℕ
  pub last_activity : ℕ

-- A session; its media proxy comes with its goroutines.
pub record ProxySession : Type 0 where
  pub id : Bytes
  pub client_conn : Conn
  pub upstream_conn : Conn
  pub upstream_url : Bytes
  pub created : ℕ
  pub last_activity : ℕ
  pub stats : ProxySessionStats
  pub media_proxy : System

pub record ProxyStats : Type 0 where
  pub total_sessions : ℕ  -- uint64, as the other counters
  pub active_sessions : ℕ
  pub total_connections : ℕ
  pub messages_forwarded : ℕ
  pub bytes_forwarded : ℕ
  pub start_time : ℕ

-- A URL as net/url parses it, with another host put in, and printed.
pub record Urls : Type 0 where
  pub path_of : Bytes → Option Bytes
  pub host_of : Bytes → Option Bytes
  pub with_host : Bytes → Bytes → Bytes

pub data ProxyError : Type 0 where
  invalid_url no_upstream invalid_upstream dial_failed write_failed : ProxyError
  upstream_read : ReadError → ProxyError
  media_start : ProxyError

-- What one request meets: whether dialling and writing upstream fail, the bytes that the reader of
-- the response gets, whether writing the response to the client fails, and the clock.
pub record Exchange : Type 0 where
  pub dial_fails : Bool
  pub write_fails : Bool
  pub answer : Bytes
  pub reply_fails : Bool
  pub now : ℕ

-- NewProxyConfig
pub new_proxy_config : ProxyConfig
new_proxy_config = record {
  listen_address = codes "0.0.0.0";
  listen_port = 8555;
  upstream_servers = [];
  default_server = [];
  buffer_size = 4096;
  timeout = 30_000_000_000;
  max_connections = 1000;
  enable_logging = true;
}

-- AddUpstreamServer
pub add_upstream_server : Bytes → Bytes → ProxyConfig → ProxyConfig
add_upstream_server path server config = record config {
  upstream_servers = insert path server config.upstream_servers;
}

-- RemoveUpstreamServer
pub remove_upstream_server : Bytes → ProxyConfig → ProxyConfig
remove_upstream_server path config = record config {
  upstream_servers = delete path config.upstream_servers;
}

-- SetDefaultUpstreamServer
pub set_default_upstream_server : Bytes → ProxyConfig → ProxyConfig
set_default_upstream_server server config = record config { default_server = server }

-- Start of the media proxy, with its new goroutine.
pub begin_media : System → Outcome (Option ProxyError × System)
begin_media media = elim (start_media media.proxy) [
  | err e ↦ returns (some media_start, media)
  | ok r ↦ returns (none, record { proxy = r.0; threads = r.1 ∷ media.threads })
]

-- startMediaProxy, after the response is known; what fails leaves the transport mode set.
pub start_media_proxy : Message → System → Outcome (Option ProxyError × System)
unfolding begin_media
start_media_proxy response media =
    if is_empty (get_header (codes "Transport") response)
    then begin_media media
    else (parse_transport (get_header (codes "Transport") response) >>= λ transport.
        begin_media
          (record media { proxy = set_transport_mode (is_tcp_transport transport) media.proxy }))

-- The response or the error, the session, and the upstream that the request was written to, if it
-- was.
abbrev pub Processed : Type 0
Processed = Result ProxyError Message × ProxySession × Option Bytes

-- One more upstream, if there is one.
pub note : Option Bytes → List Bytes → List Bytes
note none urls = urls
note (some url) urls = urls ++ url ∷ []

-- A session that has a connection, or what connecting gives.
pub reuse : Conn → Result ProxyError ProxySession → ProxySession → Result ProxyError ProxySession
reuse absent made session = made
reuse opened made session = ok session
reuse closed made session = ok session

-- The server of the table, or else the default one.
pub server_or_default : ProxyConfig → Option Bytes → Result ProxyError Bytes
server_or_default config (some server) = ok server
server_or_default config none =
    if is_empty config.default_server then err no_upstream else ok config.default_server

module _ (urls : Urls) (config : ProxyConfig) where
  -- resolveUpstreamServer
  pub resolve_upstream_server : Bytes → Result ProxyError Bytes
  unfolding server_or_default
  resolve_upstream_server url = elim (urls.path_of url) [
    | none ↦ err invalid_url
    | some path ↦ server_or_default config (lookup path config.upstream_servers)
  ]

  -- connectToUpstream
  pub connect_to_upstream : Bytes → Exchange → ProxySession → Result ProxyError ProxySession
  connect_to_upstream url exchange session = elim (urls.host_of url) [
    | none ↦ err invalid_upstream
    | some host ↦
        if exchange.dial_fails
        then err dial_failed
        else ok (record session { upstream_conn = opened; upstream_url = url })
  ]

  -- modifyURL
  pub modify_url : Bytes → Bytes
  modify_url url = elim (urls.host_of url) [
    | none ↦ url
    | some host ↦ urls.with_host url (config.listen_address ++ b':' ∷ itoa config.listen_port)
  ]

  -- modifyRTPInfo
  pub modify_rtp_info : Bytes → Bytes
  modify_rtp_info rtp_info = rtp_info

  -- modifyResponse
  pub modify_response : Message → Message
  unfolding modify_url modify_rtp_info
  modify_response response =
      let located : Message =
        if is_empty (get_header (codes "Location") response)
        then response
        else set_header (codes "Location") (modify_url (get_header (codes "Location") response))
            response in
      if is_empty (get_header (codes "RTP-Info") located)
      then located
      else set_header (codes "RTP-Info") (modify_rtp_info (get_header (codes "RTP-Info") located))
          located

  -- The session with its connection, which is made if there is none.
  pub connected : Bytes → Exchange → ProxySession → Result ProxyError ProxySession
  unfolding connect_to_upstream reuse
  connected url exchange session =
      reuse session.upstream_conn (connect_to_upstream url exchange session) session

  -- The end of processRequest, with the response read. A media proxy that does not start is only
  -- logged.
  pub answered : Message → ProxySession → Message → Outcome (Message × ProxySession)
  unfolding modify_response start_media_proxy
  answered request session response =
      let modified = modify_response response in
      if text_eq request.method (codes "PLAY")
      then (start_media_proxy modified session.media_proxy >>= λ r.
          returns (modified, record session { media_proxy = r.1 }))
      else returns (modified, session)

  pub read_answer :
      Message → ProxySession → Outcome (Result ReadError (Message × Bytes)) → Outcome Processed
  unfolding answered
  read_answer request session blocks = blocks
  read_answer request session panics = panics
  read_answer request session (returns (err e)) =
      returns (err (upstream_read e), session, some session.upstream_url)
  read_answer request session (returns (ok (response, rest))) =
      answered request session response >>= λ r. returns (ok r.0, r.1, some session.upstream_url)

  pub exchanged : ℕ → Exchange → Message → ProxySession → Outcome Processed
  unfolding read_answer
  exchanged heap exchange request session =
      if exchange.write_fails
      then returns (err write_failed, session, none)
      else read_answer request session (read_message heap exchange.answer)

  -- What becomes of a request, given the session with its connection, or the error.
  pub joined :
      ℕ → Exchange → Message → ProxySession → Result ProxyError ProxySession → Outcome Processed
  unfolding exchanged
  joined heap exchange request session (err e) = returns (err e, session, none)
  joined heap exchange request session (ok session') = exchanged heap exchange request session'

  -- The same, given the upstream server.
  pub routed : ℕ → Exchange → Message → ProxySession → Result ProxyError Bytes → Outcome Processed
  unfolding connected joined
  routed heap exchange request session (err e) = returns (err e, session, none)
  routed heap exchange request session (ok url) =
      joined heap exchange request session (connected url exchange session)

  pub process_request : ℕ → Exchange → Message → ProxySession → Outcome Processed
  unfolding resolve_upstream_server routed
  process_request heap exchange request session =
      routed heap exchange request session (resolve_upstream_server request.url)
