-- ===== src/Reader/Examples.antt =====
-- proxy/rtsp_io.go on concrete inputs: tests, and instances of the theorems on ReadMessage.
use rtsp_go.Base.{◌≡◌, refl, [], ◌∷◌, ◌++◌, ok, returns, panics, arith, ◌↔◌, ◌<◌, ◌^◌}
use rtsp_go.Base.Text.{Bytes, codes, trim_space, is_space, has_prefix, text_eq, is_empty}
use rtsp_go.Base.Text.Decimal.{atoi}
use rtsp_go.Base.Dict.{lookup, bytes_eq}
use rtsp_go.Protocol.Message.{Message, new_request, first_line, print_message, body_of, read_line}
use rtsp_go.Protocol.Message.RoundTrip.{IsPrintable}
use rtsp_go.Reader.{body_length, read_message, trim_line_end}
use rtsp_go.Reader.RoundTrip.{
  head_text, IsFramed, read_message-panics_iff, read_message-print_message,
}

abbrev pub announce : Message
announce = record (new_request (codes "ANNOUNCE") (codes "rtsp://h/a")) {
  headers = (codes "CSeq", codes "1") ∷ (codes "content-length", codes "3") ∷ [];
  body = codes "v=0";
}

pub announce-IsPrintable : IsPrintable announce
unfolding first_line lookup trim_space is_space has_prefix text_eq
announce-IsPrintable = (
  (omega arith, omega arith, omega arith, refl, refl, refl),
  omega arith,
  (
    (omega arith, omega arith, omega arith, refl, refl),
    ((omega arith, omega arith, omega arith, refl, refl), tt),
  ),
  (refl, (refl, tt)),
)

pub announce-IsFramed : IsFramed 100 announce
unfolding first_line trim_line_end is_empty body_length body_of read_line has_prefix trim_space
    is_space atoi
announce-IsFramed = (
  ((omega arith, refl, refl), ((omega arith, refl, refl), ((omega arith, refl, refl), tt))),
  refl,
  omega arith,
  refl,
)

read_message-print_message_example :
    read_message 100 (print_message announce ++ codes "PLAY")
    ≡ returns (ok (announce, codes "PLAY"))
read_message-print_message_example =
    read_message-print_message 100 announce (codes "PLAY") announce-IsPrintable announce-IsFramed

abbrev greedy : Bytes
greedy = codes "Content-Length: 4000000000000000000"

read_message-panics_iff_example :
    (read_message (2 ^ 48) (head_text (greedy ∷ []) ++ []) ≡ panics)
    ↔ (2 ^ 48 < body_length (greedy ∷ []))
unfolding trim_line_end is_empty
read_message-panics_iff_example =
    read_message-panics_iff (2 ^ 48) (greedy ∷ []) [] ((omega arith, refl, refl), tt)

greedy_length : body_length (greedy ∷ []) ≡ 4_000_000_000_000_000_000
unfolding body_length has_prefix trim_space is_space atoi
greedy_length = refl
