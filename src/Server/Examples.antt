-- ===== src/Server/Examples.antt =====
-- server/server.go on concrete requests: instances of the theorems.
use rtsp_go.Base.{ℕ, ◌≡◌, arith, false, refl, true, [], ◌∷◌, Gives}
use rtsp_go.Base.Text.{Bytes, codes, is_empty, text_eq, has_prefix, trim_space, is_space}
use rtsp_go.Base.Text.Decimal.{atoi}
use rtsp_go.Base.Dict.{lookup, bytes_eq}
use rtsp_go.Protocol.Message.{
  Message, new_request, get_header, first_line, print_headers, print_message, body_of, read_line,
}
use rtsp_go.Reader.{trim_line_end, body_length}
use rtsp_go.Reader.Once.{IsBare}
use rtsp_go.Reader.RoundTrip.{print_messages}
use rtsp_go.Server.Serve.{Round, handle_client, handle_all}
use rtsp_go.Server.Serve.Wire.{handle_client-print_messages}
use rtsp_go.Server.{Server, Context, new_rtsp_server, new_client, handle_setup, handle_teardown}
use rtsp_go.Server.Setup.{IsSetUp, handle_setup-IsSetUp}
use rtsp_go.Server.Teardown.{IsTornDown, handle_teardown-IsTornDown}

abbrev server : Server
server = new_rtsp_server (codes "0.0.0.0") 0

abbrev context : Context
context = record {
  now = 7;
  session_id = codes "7";
  attempts =
      λ k. record { checked_at = 7; cleaned_at = 7; allocation_time = 7; bindable = λ p. true };
}

abbrev setup : Message
setup = record (new_request (codes "SETUP") (codes "rtsp://h/test")) {
  headers = (codes "Transport", codes "RTP/AVP;unicast;client_port=8000-8001") ∷ [];
}

abbrev about : Bytes → Message
about method = record (new_request method (codes "rtsp://h/test")) {
  headers = (codes "Session", codes "7") ∷ [];
}

handle_setup-IsSetUp_example :
    Gives (IsSetUp setup context new_client) (handle_setup setup context server new_client)
unfolding new_rtsp_server get_header is_empty text_eq lookup
handle_setup-IsSetUp_example = handle_setup-IsSetUp setup context server new_client refl refl

handle_teardown-IsTornDown_example :
    Gives
      (IsTornDown (get_header (codes "Session") (about (codes "TEARDOWN"))) new_client)
      (handle_teardown (about (codes "TEARDOWN")) server new_client)
unfolding new_rtsp_server new_client get_header is_empty text_eq lookup
handle_teardown-IsTornDown_example =
    handle_teardown-IsTornDown (about (codes "TEARDOWN")) server new_client refl refl refl

abbrev rounds : ℕ → Round
rounds k = record { others = λ s. s; found = 1; context = context; write_fails = false }

teardown-IsBare : IsBare 0 (about (codes "TEARDOWN"))
unfolding first_line lookup trim_space is_space has_prefix text_eq trim_line_end is_empty
    body_length body_of read_line atoi
teardown-IsBare = (
  (
    (
      (omega arith, omega arith, omega arith, refl, refl, refl),
      omega arith,
      ((omega arith, omega arith, omega arith, refl, refl), tt),
      (refl, tt),
    ),
    (((omega arith, refl, refl), ((omega arith, refl, refl), tt)), refl, omega arith, refl),
  ),
  refl,
)

handle_client-print_messages_example :
    handle_client 0 rounds 900 0
      (print_messages (about (codes "TEARDOWN") ∷ about (codes "TEARDOWN") ∷ []))
      server
      new_client
    ≡ handle_all rounds 0
        (about (codes "TEARDOWN") ∷ about (codes "TEARDOWN") ∷ [])
        server
        new_client
unfolding print_message first_line print_headers
handle_client-print_messages_example =
    handle_client-print_messages 0 rounds 900 0
      (about (codes "TEARDOWN") ∷ about (codes "TEARDOWN") ∷ []) server new_client
      (teardown-IsBare, (teardown-IsBare, tt)) (omega arith)
