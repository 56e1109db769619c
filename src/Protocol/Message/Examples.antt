-- ===== src/Protocol/Message/Examples.antt =====
-- rtspProtocon/protocol.go on concrete messages: tests, and an instance of the round trip.
use rtsp_go.Base.{◌≡◌, refl, [], ◌∷◌, ◌++◌, ok, arith}
use rtsp_go.Base.Text.{codes, trim_space, is_space, has_prefix, text_eq}
use rtsp_go.Base.Dict.{lookup, bytes_eq}
use rtsp_go.Protocol.Message.{
  Message, new_request, crlf, first_line, print_message, body_of, read_line, parse_message,
}
use rtsp_go.Protocol.Message.RoundTrip.{IsPrintable, parse_message-print_message}

-- A message with a body of two lines.
abbrev options : Message
options = record (new_request (codes "OPTIONS") (codes "rtsp://h/a")) {
  headers = (codes "CSeq", codes "1") ∷ (codes "Session", codes "7") ∷ [];
  body = codes "v=0" ++ crlf ++ codes "s=x";
}

options_printed :
    print_message (record options { body = [] })
    ≡ codes "OPTIONS rtsp://h/a RTSP/1.0"
      ++ crlf
      ++ codes "CSeq: 1"
      ++ crlf
      ++ codes "Session: 7"
      ++ crlf
      ++ crlf
unfolding print_message
options_printed = refl

options-IsPrintable : IsPrintable options
unfolding first_line lookup trim_space is_space has_prefix text_eq
options-IsPrintable = (
  (omega arith, omega arith, omega arith, refl, refl, refl),
  omega arith,
  (
    (omega arith, omega arith, omega arith, refl, refl),
    ((omega arith, omega arith, omega arith, refl, refl), tt),
  ),
  (refl, (refl, tt)),
)

parse_message-print_message_example :
    parse_message (print_message options)
    ≡ ok (record options { body = body_of (read_line (codes "v=0" ++ crlf ++ codes "s=x")) })
parse_message-print_message_example = parse_message-print_message options options-IsPrintable

body_cut : body_of (read_line (codes "v=0" ++ crlf ++ codes "s=x")) ≡ codes "v=0"
unfolding read_line body_of
body_cut = refl
