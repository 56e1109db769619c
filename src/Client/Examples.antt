-- ===== src/Client/Examples.antt =====
-- client/client.go on concrete servers: tests, and instances of the theorems on the client.
use rtsp_go.Base.{◌≡◌, true, false, List, [], ◌∷◌, ◌++◌, ok, err, Comes, arith}
use rtsp_go.Base.Int.{pos}
use rtsp_go.Base.Text.{Bytes, codes}
use rtsp_go.Base.Dict.{bytes_eq}
use rtsp_go.Protocol.Message.{crlf}
use rtsp_go.Server.Serve.{Round}
use rtsp_go.Client.{RtspClient, Meeting, invalid_port_number, new_rtsp_client, parse_url}
use rtsp_go.Client.Calls.{start_session}
use rtsp_go.Client.Calls.Sequence.{
  Call, dials, asks_options, describes, sets_up, plays, pauses, leaves, sets_tcp, sends_rtcp,
  perform_all, IsUdpOnly, perform_all-IsUdpOnly,
}
use rtsp_go.Client.Calls.Start.{IsStarted, start_session-IsStarted}
use rtsp_go.Client.Urls.{with_port, with_port_and_path, with_path, parse_url-parts}

-- A server that gives every request the same answer.
abbrev answer : Bytes
answer =
    codes "RTSP/1.0 200 OK"
    ++ crlf
    ++ codes "Session: 7"
    ++ crlf
    ++ codes "Transport: RTP/AVP/TCP;unicast;interleaved=0-1"
    ++ crlf
    ++ crlf

abbrev meeting : Meeting
meeting = record {
  write_fails = false;
  flush_fails = false;
  delivers = λ request. answer;
  found = 1000;
  now = 5;
}

abbrev url : Bytes
url = codes "rtsp://localhost:8554"

abbrev calls : List Call
calls =
    sets_tcp true
    ∷ dials false
    ∷ asks_options meeting
    ∷ describes meeting
    ∷ sets_up meeting
    ∷ plays meeting
    ∷ sends_rtcp false 6 (1 ∷ 2 ∷ [])
    ∷ pauses meeting
    ∷ leaves meeting
    ∷ []

perform_all-IsUdpOnly_example :
    Comes (IsUdpOnly (new_rtsp_client url 9 1)) (perform_all 1000 calls (new_rtsp_client url 9 1))
perform_all-IsUdpOnly_example = perform_all-IsUdpOnly url 9 1 1000 calls

start_session-IsStarted_example :
    Comes
      (IsStarted (new_rtsp_client url 9 1))
      (start_session 1000 false meeting meeting meeting meeting (new_rtsp_client url 9 1))
start_session-IsStarted_example =
    start_session-IsStarted url 9 1 1000 false meeting meeting meeting meeting

parse_url-parts_example :
    (parse_url (with_port (codes "localhost") 8554) ≡ ok (codes "localhost", pos 8554))
    × (parse_url (with_port_and_path (codes "localhost") 8554 (codes "test"))
        ≡ err invalid_port_number)
    × (parse_url (with_path (codes "localhost") (codes "test"))
        ≡ ok (codes "localhost/test", pos 554))
parse_url-parts_example =
    parse_url-parts (codes "localhost") (codes "test") 8554 (omega arith) (omega arith)
      (omega arith)

-- A server of which another connection is not heard.
abbrev round : Round
round = record {
  others = λ s. s;
  found = 1;
  context = record {
    now = 7;
    session_id = codes "7";
    attempts =
        λ k. record { checked_at = 7; cleaned_at = 7; allocation_time = 7; bindable = λ p. true };
  };
  write_fails = false;
}

abbrev dialled_client : RtspClient
dialled_client = record (new_rtsp_client url 9 1) { connected = true }
