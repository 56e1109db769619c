-- ===== src/Rtp/Examples.antt =====
-- rtspProtocon/rtp.go on concrete packets: tests, and instances of the theorems.
use rtsp_go.Base.{◌≡◌, ◌↔◌, refl, true, List, [], ◌∷◌, ok, arith}
use rtsp_go.Base.Text.{Bytes, codes}
use rtsp_go.Base.Word.{be16, be32, u16_at, u32_at}
use rtsp_go.Rtp.{
  RtpHeader, RtpPacket, marshal_packet, parse_header, parse_packet, validate_rtp_packet,
  rtp_version, cc_bits, version_bits, padding_bit, extension_bit, marker_bit, payload_type_bits,
  marshal_header, decode_header,
}
use rtsp_go.Rtp.Decode.{parse_packet-marshal_packet}
use rtsp_go.Rtp.Checks.{validate_rtp_packet_iff}
use rtsp_go.Rtp.Stats.{Update, sent, received}

-- A header with two CSRC words and every flag set.
abbrev mixed : RtpPacket
mixed = record {
  header = record {
    version = 2;
    padding = true;
    extension = true;
    cc = 2;
    marker = true;
    payload_type = 96;
    sequence_num = 0x1234;
    timestamp = 0xdeadbeef;
    ssrc = 7;
    csrc = 1 ∷ 0xffffffff ∷ [];
  };
  payload = codes "abc";
}

abbrev mixed_bytes : Bytes
mixed_bytes =
    0xb2
    ∷ 0xe0
    ∷ 0x12
    ∷ 0x34
    ∷ 0xde
    ∷ 0xad
    ∷ 0xbe
    ∷ 0xef
    ∷ 0
    ∷ 0
    ∷ 0
    ∷ 7
    ∷ 0
    ∷ 0
    ∷ 0
    ∷ 1
    ∷ 255
    ∷ 255
    ∷ 255
    ∷ 255
    ∷ codes "abc"

mixed_marshalled : marshal_packet mixed ≡ mixed_bytes
unfolding marshal_packet marshal_header be16 be32
mixed_marshalled = refl

mixed_parsed : parse_packet mixed_bytes ≡ ok mixed
unfolding parse_packet parse_header decode_header u16_at u32_at cc_bits version_bits padding_bit
    extension_bit marker_bit payload_type_bits
mixed_parsed = refl

parse_packet-marshal_packet_example : parse_packet (marshal_packet mixed) ≡ ok mixed
parse_packet-marshal_packet_example = parse_packet-marshal_packet mixed (omega arith)

validate_rtp_packet_iff_example :
    (validate_rtp_packet mixed_bytes ≡ true)
    ↔ ((h : RtpHeader) × (parse_header mixed_bytes ≡ ok h) × (h.version ≡ rtp_version))
validate_rtp_packet_iff_example = validate_rtp_packet_iff mixed_bytes (omega arith)

abbrev updates : List Update
updates = sent 1 3600 100 ∷ received 7 90 0xffffffff ∷ received 9 180 2 ∷ []
