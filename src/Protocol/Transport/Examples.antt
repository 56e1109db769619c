-- ===== src/Protocol/Transport/Examples.antt =====
-- rtspProtocon/protocol.go, Transport on concrete headers: tests, and instances of the theorems.
use rtsp_go.Base.{◌≡◌, refl, false, [], returns, Gives, arith}
use rtsp_go.Base.Text.{codes, contains, has_prefix, split, trim_space, is_space}
use rtsp_go.Protocol.Transport.{
  empty_transport, read_part, read_parts, value_of, second, parse_transport, print_transport,
  is_tcp_transport,
}
use rtsp_go.Protocol.Transport.Never.{is_tcp_transport-parse_transport}
use rtsp_go.Protocol.Transport.RoundTrip.{plain_transport, parse_transport-print_transport}

client_header :
    parse_transport (codes "RTP/AVP;unicast;client_port=5000-5001")
    ≡ returns (record empty_transport { client_ports = codes "5000-5001" })
unfolding parse_transport read_parts read_part value_of second contains has_prefix split trim_space
    is_space
client_header = refl

-- A client that asks for interleaved TCP is given plain RTP, with the channels kept as a text.
tcp_header :
    parse_transport (codes "RTP/AVP/TCP; interleaved=0-1")
    ≡ returns (record empty_transport { interleaved = codes "0-1" })
unfolding parse_transport read_parts read_part value_of second contains has_prefix split trim_space
    is_space
tcp_header = refl

is_tcp_transport-parse_transport_example :
    Gives (λ t. is_tcp_transport t ≡ false) (parse_transport (codes "RTP/AVP/TCP;interleaved=0-1"))
is_tcp_transport-parse_transport_example =
    is_tcp_transport-parse_transport (codes "RTP/AVP/TCP;interleaved=0-1")

parse_transport-print_transport_example :
    parse_transport (
      print_transport (
        plain_transport false 16
          (codes "5000-5001")
          []
          (codes "1A2B")
          (codes "PLAY")
          (codes "224.0.0.1")
          (codes "0-1")))
    ≡ returns (
        plain_transport false 16
          (codes "5000-5001")
          []
          (codes "1A2B")
          (codes "PLAY")
          (codes "224.0.0.1")
          (codes "0-1"))
parse_transport-print_transport_example =
    parse_transport-print_transport false 16 (codes "5000-5001") [] (codes "1A2B") (codes "PLAY")
      (codes "224.0.0.1") (codes "0-1") (omega arith) (omega arith) tt (omega arith) (omega arith)
      (omega arith) (omega arith)
