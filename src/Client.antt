-- ===== src/Client.antt =====
-- client/client.go: the client's state, its URL, and how it sends a request and reads the response.
-- The server is a function from the text of a request to the bytes that the reader delivers then.
pub mod Calls
pub mod Stream
pub mod Reports
pub mod Urls
pub mod Examples
use rtsp_go.Base.{
  ℕ, zero, suc, ◌+◌, ◌-◌, ◌%◌, ◌^◌, Bool, true, false, not, List, [], ◌∷◌, ◌++◌, Option, none, some,
  Result, ok, err, Outcome, returns, panics, ◌>>=◌, if◌then◌else◌, length, take, drop, ltb, leb,
  ◌==◌,
}
use rtsp_go.Base.Int.{ℤ, pos, eqz}
use rtsp_go.Base.Text.{Bytes, codes, split}
use rtsp_go.Base.Text.Decimal.{itoa, atoi}
use rtsp_go.Protocol.Message.{Message, new_request, set_header, print_message}
use rtsp_go.Protocol.Session.{Session, validate_rtsp_url}
use rtsp_go.Protocol.Transport.{Transport}
use rtsp_go.Sdp.{SessionDescription}
use rtsp_go.Rtp.{RtpStats, new_rtp_stats}
use rtsp_go.Tcp.{TcpChannel, TcpStats, new_tcp_stats}
use rtsp_go.Reader.{ReadError, read_with}
use rtsp_go.Reader.Once.{read_once}

-- The PortAllocation that the client fills with the numbers of the server's header.
pub record PeerPorts : Type 0 where
  pub peer_rtp_port : ℤ
  pub peer_rtcp_port : ℤ
  pub peer_allocated_at : ℕ
  pub peer_session_id : Bytes

-- RTPConn and RTCPConn are never set. `receivers` counts the goroutines that
-- ReceiveTCPMediaStream has started.
pub record RtspClient : Type 0 where
  pub server_url : Bytes
  pub connected : Bool
  pub session : Option Session
  pub sdp : Option SessionDescription
  pub transport : Option Transport
  pub sequence_num : ℕ
  pub rtp_stats : RtpStats
  pub port_allocation : Option PeerPorts
  pub dynamic_ports : Bool
  pub use_tcp_transport : Bool
  pub tcp_channel : Option TcpChannel
  pub tcp_stats : TcpStats
  pub receivers : ℕ

pub data UrlError : Type 0 where
  invalid_url_format invalid_port_number : UrlError

pub data ClientError : Type 0 where
  invalid_server_url : UrlError → ClientError
  dial_failed not_connected request_not_sent request_not_flushed : ClientError
  response_not_read : ReadError → ClientError
  refused : Bytes → ℤ → Bytes → ClientError
  no_sdp no_transport_header no_session_header no_session : ClientError
  not_tcp_transport rtcp_not_sent : ClientError

-- What a method returns, nil being none, and the client it leaves.
abbrev pub Called : Type 0
Called = Outcome (Option ClientError × RtspClient)

-- NewRTSPClient, with the identifier that GenerateSSRC gives, at the time `now`.
pub new_rtsp_client : Bytes → ℕ → ℕ → RtspClient
new_rtsp_client server_url ssrc now = record {
  server_url = server_url;
  connected = false;
  session = none;
  sdp = none;
  transport = none;
  sequence_num = 1;
  rtp_stats = new_rtp_stats ssrc;
  port_allocation = none;
  dynamic_ports = true;
  use_tcp_transport = false;
  tcp_channel = none;
  tcp_stats = new_tcp_stats now;
  receivers = 0;
}

-- SetDynamicPorts
pub set_dynamic_ports : Bool → RtspClient → RtspClient
set_dynamic_ports enabled c = record c { dynamic_ports = enabled }

-- SetTCPTransport
pub set_tcp_transport : Bool → RtspClient → RtspClient
set_tcp_transport enabled c = record c { use_tcp_transport = enabled }

pub port_of : Bytes → Option ℤ → Result UrlError (Bytes × ℤ)
port_of host none = err invalid_port_number
port_of host (some port) = ok (host, port)

-- The host and the port among the texts between the colons, of which there is one or more.
pub host_and_port : List Bytes → Result UrlError (Bytes × ℤ)
unfolding port_of
host_and_port [] = err invalid_port_number
host_and_port (host ∷ []) = ok (host, pos 554)
host_and_port (host ∷ port ∷ more) = port_of host (atoi port)

-- parseURL
pub parse_url : Bytes → Result UrlError (Bytes × ℤ)
unfolding host_and_port
parse_url url =
    if validate_rtsp_url url
    then host_and_port (split (drop (length (codes "rtsp://")) url) b':')
    else err invalid_url_format

pub dialled : Bool → RtspClient → Result UrlError (Bytes × ℤ) → Option ClientError × RtspClient
dialled dial_fails c (err e) = (some (invalid_server_url e), c)
dialled dial_fails c (ok address) =
    if dial_fails then (some dial_failed, c) else (none, record c { connected = true })

-- Connect
pub connect : Bool → RtspClient → Called
unfolding parse_url dialled
connect dial_fails c = returns (dialled dial_fails c (parse_url c.server_url))

-- What one request meets: errors of WriteString and Flush, what the reader delivers after the text
-- of the request, how many bytes of it the one Read of a body finds, and the time.
pub record Meeting : Type 0 where
  pub write_fails : Bool
  pub flush_fails : Bool
  pub delivers : Bytes → Bytes
  pub found : ℕ
  pub now : ℕ

-- readResponse
pub read_response : ℕ → ℕ → Bytes → Outcome (Result ReadError (Message × Bytes))
read_response heap found = read_with (read_once heap found)

pub response_of : Result ReadError (Message × Bytes) → Result ClientError Message
response_of (err e) = err (response_not_read e)
response_of (ok (response, rest)) = ok response

-- sendRequest
pub send_request : ℕ → Meeting → Message → RtspClient → Outcome (Result ClientError Message)
unfolding read_response response_of
send_request heap x request c =
    if not c.connected
    then returns (err not_connected)
    else if x.write_fails
    then returns (err request_not_sent)
    else if x.flush_fails
    then returns (err request_not_flushed)
    else (read_response heap x.found (x.delivers (print_message request)) >>= λ r.
        returns (response_of r))

pub set_headers : List (Bytes × Bytes) → Message → Message
set_headers [] m = m
set_headers ((key, value) ∷ headers) m = set_headers headers (set_header key value m)

-- The request that a method sends: its own headers come behind the two that all of them set.
pub build_request : Bytes → List (Bytes × Bytes) → RtspClient → Message
unfolding set_headers
build_request method headers c =
    set_headers
      ((codes "User-Agent", codes "Go-RTSP-Client/1.0")
        ∷ (codes "CSeq", itoa c.sequence_num)
        ∷ headers)
      (new_request method c.server_url)

-- Only a response with the status 200 gets any further.
pub checked :
    Bytes → (Message → RtspClient → Called) → RtspClient → Result ClientError Message → Called
checked method next c (err e) = returns (some e, c)
checked method next c (ok response) =
    if eqz response.status_code (pos 200)
    then next response c
    else returns (some (refused method response.status_code response.status_text), c)

-- The request and its response, as every method of the client makes them.
pub ask :
    ℕ
    → Meeting
    → Bytes
    → List (Bytes × Bytes)
    → (Message → RtspClient → Called)
    → RtspClient
    → Called
unfolding send_request build_request checked
ask heap x method headers next c =
    send_request heap x (build_request method headers c) c >>= checked method next c

-- SequenceNum++
pub count_up : RtspClient → RtspClient
count_up c = record c { sequence_num = (c.sequence_num + 1) % 2 ^ 16 }
