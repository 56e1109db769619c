-- ===== src/Client/Calls.antt =====
-- client/client.go: the requests of the client, Disconnect and StartSession.
pub mod Posts
pub mod Sessions
pub mod Sequence
pub mod Start
pub mod Wire
use rtsp_go.Base.{
  ℕ, Bool, true, false, List, [], ◌∷◌, Option, none, some, Result, ok, err, Outcome, returns, ◌>>=◌,
  if◌then◌else◌, Option,
}
use rtsp_go.Base.Int.{ℤ, pos, wrap_byte}
use rtsp_go.Base.Text.{Bytes, codes, split, is_empty}
use rtsp_go.Base.Text.Decimal.{parse_int_value}
use rtsp_go.Protocol.Message.{Message, get_header}
use rtsp_go.Protocol.Session.{Session, ready, playing, new_session, update_state}
use rtsp_go.Protocol.Transport.{
  Transport, rtp, interleaved_tcp, empty_transport, parse_transport, print_transport,
  is_tcp_transport,
}
use rtsp_go.Sdp.{SessionDescription}
use rtsp_go.Sdp.Parse.{parse_sdp}
use rtsp_go.Tcp.{TcpChannel}
use rtsp_go.Client.{
  PeerPorts, RtspClient, ClientError, no_sdp, no_transport_header, no_session_header, no_session,
  Called, Meeting, connect, ask, count_up,
}
use rtsp_go.Client.Stream.{receive_tcp_media_stream}

-- A method that ends well, SequenceNum++ being its last step.
pub done : Message → RtspClient → Called
unfolding count_up
done response c = returns (none, count_up c)

-- Options
pub options : ℕ → Meeting → RtspClient → Called
unfolding ask done
options heap x = ask heap x (codes "OPTIONS") [] done

pub described : Message → RtspClient → Called
unfolding count_up
described response c =
    parse_sdp response.body >>= λ d. returns (none, count_up (record c { sdp = some d }))

-- Describe
pub describe : ℕ → Meeting → RtspClient → Called
unfolding ask described
describe heap x =
    ask heap x (codes "DESCRIBE") ((codes "Accept", codes "application/sdp") ∷ []) described

-- The transport that Setup asks for.
pub wanted_transport : RtspClient → Transport
wanted_transport c =
    let t : Transport = record empty_transport {
      client_ports = codes "5004-5005";
      mode = codes "PLAY";
    } in
    if c.use_tcp_transport
    then record t { kind = interleaved_tcp; interleaved = codes "0-1"; client_ports = [] }
    else if c.dynamic_ports
    then record t { client_ports = [] }
    else t

-- The channels of the two parts of `a-b`.
pub note_channel : ℕ → List Bytes → RtspClient → RtspClient
note_channel now (a ∷ b ∷ more) c = record c {
  tcp_channel = some (record {
    rtp_channel = wrap_byte (parse_int_value a);
    rtcp_channel = wrap_byte (parse_int_value b);
    session_id = [];
    created = now;
  });
}
note_channel now _ c = c

-- The ports of the two parts of `a-b`.
pub note_ports : ℕ → List Bytes → RtspClient → RtspClient
note_ports now (a ∷ b ∷ more) c = record c {
  port_allocation = some (record {
    peer_rtp_port = parse_int_value a;
    peer_rtcp_port = parse_int_value b;
    peer_allocated_at = now;
    peer_session_id = [];
  });
}
note_ports now _ c = c

-- What Setup takes from the transport of the response. The text of a header that is empty has one
-- part, which names nothing.
pub note_transport : ℕ → RtspClient → Transport → RtspClient
unfolding note_channel note_ports
note_transport now c t =
    let c' : RtspClient = record c { transport = some t } in
    if is_tcp_transport t
    then note_channel now (split t.interleaved b'-') (record c' { use_tcp_transport = true })
    else note_ports now (split t.server_ports b'-') c'

pub name_ports : Bytes → Option PeerPorts → Option PeerPorts
name_ports id none = none
name_ports id (some p) = some (record p { peer_session_id = id })

pub name_channel : Bytes → Option TcpChannel → Option TcpChannel
name_channel id none = none
name_channel id (some ch) = some (record ch { session_id = id })

pub open_session : ℕ → Bytes → RtspClient → RtspClient
unfolding name_ports name_channel
open_session now id c = record c {
  session = some (update_state ready now (new_session id now));
  port_allocation = name_ports id c.port_allocation;
  tcp_channel = name_channel id c.tcp_channel;
}

-- A missing Session header leaves the transport that was noted.
pub session_named : ℕ → Bytes → RtspClient → Called
unfolding open_session count_up
session_named now id c =
    if is_empty id
    then returns (some no_session_header, c)
    else returns (none, count_up (open_session now id c))

pub transported : ℕ → Message → RtspClient → Called
unfolding note_transport session_named
transported now response c =
    let header = get_header (codes "Transport") response in
    if is_empty header
    then returns (some no_transport_header, c)
    else (parse_transport header >>= λ t.
        session_named now (get_header (codes "Session") response) (note_transport now c t))

pub setup_with : ℕ → Meeting → Option SessionDescription → RtspClient → Called
unfolding ask wanted_transport transported
setup_with heap x none c = returns (some no_sdp, c)
setup_with heap x (some d) c =
    ask heap x (codes "SETUP") ((codes "Transport", print_transport (wanted_transport c)) ∷ [])
      (transported x.now) c

-- Setup
pub setup : ℕ → Meeting → RtspClient → Called
unfolding setup_with
setup heap x c = setup_with heap x c.sdp c

-- An error of the receiver is only logged.
pub after_receive : RtspClient → Result ClientError RtspClient → RtspClient
after_receive c (err e) = c
after_receive c (ok c') = c'

pub start_receiver : RtspClient → RtspClient
unfolding after_receive
start_receiver c = if c.use_tcp_transport then after_receive c (receive_tcp_media_stream c) else c

pub played : ℕ → Session → Message → RtspClient → Called
unfolding start_receiver count_up
played now s response c =
    returns
      (none, count_up (start_receiver (record c { session = some (update_state playing now s) })))

pub play_in : ℕ → Meeting → Option Session → RtspClient → Called
unfolding ask played
play_in heap x none c = returns (some no_session, c)
play_in heap x (some s) c =
    ask heap x (codes "PLAY") ((codes "Session", s.id) ∷ []) (played x.now s) c

-- Play
pub play : ℕ → Meeting → RtspClient → Called
unfolding play_in
play heap x c = play_in heap x c.session c

pub paused : ℕ → Session → Message → RtspClient → Called
unfolding count_up
paused now s response c =
    returns (none, count_up (record c { session = some (update_state ready now s) }))

pub pause_in : ℕ → Meeting → Option Session → RtspClient → Called
unfolding ask paused
pause_in heap x none c = returns (some no_session, c)
pause_in heap x (some s) c =
    ask heap x (codes "PAUSE") ((codes "Session", s.id) ∷ []) (paused x.now s) c

-- Pause
pub pause : ℕ → Meeting → RtspClient → Called
unfolding pause_in
pause heap x c = pause_in heap x c.session c

pub torn_down : Message → RtspClient → Called
unfolding count_up
torn_down response c = returns (none, count_up (record c { session = none }))

pub teardown_in : ℕ → Meeting → Option Session → RtspClient → Called
unfolding ask torn_down
teardown_in heap x none c = returns (none, c)
teardown_in heap x (some s) c =
    ask heap x (codes "TEARDOWN") ((codes "Session", s.id) ∷ []) torn_down c

-- Teardown
pub teardown : ℕ → Meeting → RtspClient → Called
unfolding teardown_in
teardown heap x c = teardown_in heap x c.session c

-- Disconnect, which passes over an error of Teardown.
pub disconnect : ℕ → Meeting → RtspClient → Called
unfolding teardown
disconnect heap x c =
    if c.connected
    then (teardown heap x c >>= λ r. returns (none, record r.1 { connected = false }))
    else returns (none, c)

pub data StartError : Type 0 where
  connect_failed options_failed describe_failed setup_failed play_failed : ClientError → StartError

abbrev pub Started : Type 0
Started = Outcome (Option StartError × RtspClient)

-- The next step, if the last one gave no error.
pub then_start :
    (ClientError → StartError) → (RtspClient → Started) → Option ClientError × RtspClient → Started
then_start failed next (some e, c) = returns (some (failed e), c)
then_start failed next (none, c) = next c

-- StartSession, and what its four requests meet.
pub start_session : ℕ → Bool → Meeting → Meeting → Meeting → Meeting → RtspClient → Started
unfolding connect options describe setup play then_start
start_session heap dial_fails o d s p c =
    connect dial_fails c
    >>= then_start connect_failed (λ c1.
      options heap o c1
      >>= then_start options_failed (λ c2.
        describe heap d c2
        >>= then_start describe_failed (λ c3.
          setup heap s c3
          >>= then_start setup_failed
              (λ c4. play heap p c4 >>= then_start play_failed (λ c5. returns (none, c5))))))
