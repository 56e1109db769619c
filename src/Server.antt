-- ===== src/Server.antt =====
-- server/server.go: the handlers of the RTSP requests, over the server's tables and a connection.
-- SessionsMux and StreamsMux are held for one access to a map each, and are free between. A client's
-- pointer to its session is the session's ID. The goroutines that PLAY starts stand apart, in
-- Server.Streaming, and are not part of the handler here.
pub mod Total
pub mod Setup
pub mod Teardown
pub mod Serve
pub mod Streaming
pub mod Examples
use rtsp_go.Base.{
  ℕ, zero, suc, ◌+◌, ◌/◌, ◌^◌, Bool, true, false, ◌&&◌, List, [], ◌∷◌, ◌++◌, Option, none, some,
  Result, ok, err, Outcome, returns, blocks, panics, ◌>>=◌, if◌then◌else◌, length,
}
use rtsp_go.Base.Int.{ℤ, pos}
use rtsp_go.Base.Text.{Bytes, codes, text_eq, is_empty, split}
use rtsp_go.Base.Text.Decimal.{itoa}
use rtsp_go.Base.Dict.{Dict, lookup, insert, delete, bytes_eq}
use rtsp_go.Base.Sync.{RwMutex, free}
use rtsp_go.Ports.{
  PortManager, PortAllocation, Env, RetryError, new_default_port_manager, allocate_ports_with_retry,
  release_ports,
}
use rtsp_go.Tcp.{
  TcpChannel, TransportManager, new_transport_manager, allocate_channel, release_channel,
}
use rtsp_go.Protocol.Transport.{
  Transport, TransportType, interleaved_tcp, parse_transport, print_transport, is_tcp_transport,
}
use rtsp_go.Protocol.Message.{Message, new_response, set_header, get_header}
use rtsp_go.Protocol.Session.{Session, ready, playing, new_session, update_state, get_status_text}
use rtsp_go.Sdp.{SessionDescription, print_sdp, create_video_sdp}

pub record Stream : Type 0 where
  pub id : Bytes
  pub name : Bytes
  pub sdp : SessionDescription
  pub rtp_port : ℕ
  pub rtcp_port : ℕ
  pub active : Bool
  pub created : ℕ

pub record Server : Type 0 where
  pub address : Bytes
  pub sessions : Dict Bytes Session
  pub streams : Dict Bytes Stream
  pub ports_mutex : RwMutex
  pub ports : PortManager
  pub channels : TransportManager

pub record Client : Type 0 where
  pub session : Option Bytes
  pub allocation : Option PortAllocation
  pub channel : Option TcpChannel
  pub use_tcp : Bool

-- What a request learns from outside: the time, which is also the new session's ID, and what each
-- attempt to allocate ports finds.
pub record Context : Type 0 where
  pub now : ℕ
  pub session_id : Bytes
  pub attempts : ℕ → Env

-- NewRTSPServer at the time `now`.
pub new_rtsp_server : Bytes → ℕ → Server
new_rtsp_server address now = record {
  address = address;
  sessions = [];
  streams = [];
  ports_mutex = free;
  ports = new_default_port_manager now;
  channels = new_transport_manager;
}

-- The connection that handleClient starts with.
pub new_client : Client
new_client = record { session = none; allocation = none; channel = none; use_tcp = false }

-- A response with the text of its status.
abbrev pub status : ℕ → Message
status code = new_response (pos code) (get_status_text code)

abbrev pub Handled : Type 0
Handled = Outcome (Message × Server × Client)

-- handleOptions
pub handle_options : Server → Client → Handled
handle_options s c = returns (
  set_header (codes "Server") (codes "Go-RTSP-Server/1.0") (
      set_header (codes "Public") (codes "OPTIONS, DESCRIBE, SETUP, PLAY, PAUSE, TEARDOWN")
        (status 200)),
  s,
  c,
)

last_or_default : List Bytes → Bytes
last_or_default [] = codes "default"
last_or_default (p ∷ []) = p
last_or_default (p ∷ q ∷ ps) = last_or_default (q ∷ ps)

-- extractStreamName
pub extract_stream_name : Bytes → Bytes
unfolding last_or_default
extract_stream_name url = last_or_default (split url b'/')

describe : Option Stream → Message
describe none = status 404
describe (some stream) =
    let text = print_sdp stream.sdp in
    record (set_header (codes "Content-Length") (itoa (length text))
      (set_header (codes "Content-Type") (codes "application/sdp") (status 200))) { body = text }

-- handleDescribe
pub handle_describe : Message → Server → Client → Handled
unfolding describe extract_stream_name
handle_describe m s c = returns (describe (lookup (extract_stream_name m.url) s.streams), s, c)

-- "a-b" of two numbers.
abbrev pub print_pair : ℕ → ℕ → Bytes
print_pair a b = itoa a ++ b'-' ∷ itoa b

-- The response to a SETUP that succeeds.
pub setup_response : Transport → Bytes → Message
setup_response t session_id = set_header (codes "Server") (codes "Go-RTSP-Server/1.0") (
    set_header (codes "Session") session_id
      (set_header (codes "Transport") (print_transport t) (status 200)))

-- The session is in the table before the transport is set up.
pub open_session : Message → Context → Server → Server
open_session m x s =
    let fresh = record (new_session x.session_id x.now) { url = m.url } in
    record s { sessions = insert x.session_id (update_state ready x.now fresh) s.sessions }

setup_tcp : Transport → Context → Server → Client → Handled
unfolding setup_response
setup_tcp t x s c =
    let r = allocate_channel s.channels x.session_id x.now in
    let pair = print_pair r.0.rtp_channel r.0.rtcp_channel in
    returns (
      setup_response (record t { kind = interleaved_tcp; interleaved = pair }) x.session_id,
      record s { channels = r.1 },
      record c { session = some x.session_id; channel = some r.0; use_tcp = true },
    )

-- What is made of the result of AllocatePortsWithRetry.
pub setup_ports :
    Transport
    → Context
    → Server
    → Client
    → Result RetryError PortAllocation × RwMutex × PortManager
    → Message × Server × Client
unfolding setup_response
setup_ports t x s c (err e, mutex, ports) = (
  status 503,
  record s { ports_mutex = mutex; ports = ports },
  record c { session = some x.session_id },
)
setup_ports t x s c (ok a, mutex, ports) = (
  setup_response (record t { server_ports = print_pair a.rtp_port a.rtcp_port }) x.session_id,
  record s { ports_mutex = mutex; ports = ports },
  record c { session = some x.session_id; allocation = some a },
)

setup_udp : Transport → Context → Server → Client → Handled
unfolding setup_ports
setup_udp t x s c =
    allocate_ports_with_retry x.session_id 3 x.attempts s.ports_mutex s.ports >>= λ r.
    returns (setup_ports t x s c r)

-- handleSetup
pub handle_setup : Message → Context → Server → Client → Handled
unfolding open_session setup_tcp setup_udp
handle_setup m x s c =
    if is_empty (get_header (codes "Transport") m)
    then returns (status 400, s, c)
    else (parse_transport (get_header (codes "Transport") m) >>= λ t.
        if is_tcp_transport t
        then setup_tcp t x (open_session m x s) c
        else setup_udp t x (open_session m x s) c)

play : Option Session → Bytes → ℕ → Server → Client → Handled
play none sid now s c = returns (status 404, s, c)
play (some session) sid now s c = returns (
  set_header (codes "RTP-Info") (codes "url=" ++ session.url ++ codes ";seq=0;rtptime=0")
      (set_header (codes "Session") sid (status 200)),
  record s { sessions = insert sid (update_state playing now session) s.sessions },
  c,
)

-- handlePlay
pub handle_play : Message → ℕ → Server → Client → Handled
unfolding play
handle_play m now s c =
    let sid = get_header (codes "Session") m in
    if is_empty sid then returns (status 400, s, c) else play (lookup sid s.sessions) sid now s c

pause : Option Session → Bytes → ℕ → Server → Client → Handled
pause none sid now s c = returns (status 404, s, c)
pause (some session) sid now s c = returns (
  set_header (codes "Session") sid (status 200),
  record s { sessions = insert sid (update_state ready now session) s.sessions },
  c,
)

-- handlePause
pub handle_pause : Message → ℕ → Server → Client → Handled
unfolding pause
handle_pause m now s c =
    let sid = get_header (codes "Session") m in
    if is_empty sid then returns (status 400, s, c) else pause (lookup sid s.sessions) sid now s c

is_some : Option TcpChannel → Bool
is_some none = false
is_some (some ch) = true

release_allocation : Option PortAllocation → Server → Outcome Server
release_allocation none s = returns s
release_allocation (some a) s = release_ports a s.ports_mutex s.ports >>= λ r.
    returns (record s { ports_mutex = r.1; ports = r.2 })

release_transport : Bytes → Server → Client → Outcome Server
unfolding is_some release_allocation
release_transport sid s c =
    if c.use_tcp && is_some c.channel
    then returns (record s { channels = release_channel s.channels sid })
    else release_allocation c.allocation s

-- handleTeardown; what the client holds stays in its record.
pub handle_teardown : Message → Server → Client → Handled
unfolding release_transport
handle_teardown m s c =
    let sid = get_header (codes "Session") m in
    let response = set_header (codes "Session") sid (status 200) in
    if is_empty sid
    then returns (response, s, c)
    else (release_transport sid (record s { sessions = delete sid s.sessions }) c >>= λ s'.
        returns (response, s', c))

-- handleMessage
pub handle_message : Message → Context → Server → Client → Handled
unfolding handle_options handle_describe handle_setup handle_play handle_pause handle_teardown
handle_message m x s c =
    if text_eq m.method (codes "OPTIONS")
    then handle_options s c
    else if text_eq m.method (codes "DESCRIBE")
    then handle_describe m s c
    else if text_eq m.method (codes "SETUP")
    then handle_setup m x s c
    else if text_eq m.method (codes "PLAY")
    then handle_play m x.now s c
    else if text_eq m.method (codes "PAUSE")
    then handle_pause m x.now s c
    else if text_eq m.method (codes "TEARDOWN")
    then handle_teardown m s c
    else returns (status 405, s, c)

-- AddStream at the time `now`, in nanoseconds.
pub add_stream : Bytes → Bytes → ℕ → ℕ → Server → Server
add_stream id name rtp_port now s =
    let stream : Stream = record {
      id = id;
      name = name;
      sdp = create_video_sdp s.address (pos rtp_port) (pos (now / 10 ^ 9));
      rtp_port = rtp_port;
      rtcp_port = rtp_port + 1;
      active = true;
      created = now;
    } in
    record s { streams = insert id stream s.streams }

-- initializeDefaultStreams
pub initialize_default_streams : ℕ → Server → Server
unfolding add_stream
initialize_default_streams now s = add_stream (codes "test") (codes "Test Video Stream") 5004 now s

-- RemoveStream
pub remove_stream : Bytes → Server → Server
remove_stream id s = record s { streams = delete id s.streams }
