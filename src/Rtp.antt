-- ===== src/Rtp.antt =====
-- rtspProtocon/rtp.go: RTP headers and packets, their bytes, and the counters of a stream.
-- A uint8, uint16 or uint32 is a number below its power of two; a byte slice is a list of bytes.
-- The proofs are in the modules below.
pub mod Bits
pub mod Decode
pub mod Encode
pub mod Checks
pub mod Stats
pub mod Examples
use rtsp_go.Base.{
  ℕ, zero, suc, ◌+◌, ◌-◌, ◌*◌, ◌/◌, ◌%◌, ◌^◌, bit_and, bit_or, Bool, true, false, not, List, [],
  ◌∷◌, ◌++◌, Result, ok, err, ltb, leb, ◌==◌, if◌then◌else◌, length, get_or, drop,
}
use rtsp_go.Base.Text.{Bytes}
use rtsp_go.Base.Word.{be16, be32, u16_at, u32_at}

pub record RtpHeader : Type 0 where
  pub version : ℕ
  pub padding : Bool
  pub extension : Bool
  pub cc : ℕ
  pub marker : Bool
  pub payload_type : ℕ
  pub sequence_num : ℕ
  pub timestamp : ℕ
  pub ssrc : ℕ
  pub csrc : List ℕ

pub record RtpPacket : Type 0 where
  pub header : RtpHeader
  pub payload : Bytes

pub data RtpError : Type 0 where
  header_too_short packet_too_short : RtpError

abbrev pub rtp_version : ℕ
rtp_version = 2

pub new_rtp_header : RtpHeader
new_rtp_header = record {
  version = rtp_version;
  padding = false;
  extension = false;
  cc = 0;
  marker = false;
  payload_type = 96;
  sequence_num = 0;
  timestamp = 0;
  ssrc = 0;
  csrc = [];
}

abbrev pub bool_to_uint8 : Bool → ℕ
bool_to_uint8 true = 1
bool_to_uint8 false = 0

-- (h.Version << 6) | (padding << 5) | (extension << 4) | h.CC, in uint8.
pub first_byte : ℕ → Bool → Bool → ℕ → ℕ
first_byte v p e c =
    bit_or (bit_or (bit_or (v * 64 % 256) (bool_to_uint8 p * 32)) (bool_to_uint8 e * 16)) c

-- (marker << 7) | h.PayloadType
pub second_byte : Bool → ℕ → ℕ
second_byte m pt = bit_or (bool_to_uint8 m * 128) pt

-- The CSRC part of the buffer: one word for each of the CC places, from `h.CSRC` while it lasts and
-- the buffer's zero bytes after that. Entries beyond CC are not written.
pub put_csrc : ℕ → List ℕ → Bytes
put_csrc zero cs = []
put_csrc (suc n) [] = be32 0 ++ put_csrc n []
put_csrc (suc n) (c ∷ cs) = be32 c ++ put_csrc n cs

-- The twelve bytes that every header has.
pub fixed_part : RtpHeader → Bytes
unfolding first_byte second_byte
fixed_part h =
    (first_byte h.version h.padding h.extension h.cc ∷ second_byte h.marker h.payload_type ∷ [])
    ++ (be16 h.sequence_num ++ (be32 h.timestamp ++ be32 h.ssrc))

-- RTPHeader.Marshal
unfoldable pub marshal_header : RtpHeader → Bytes
unfolding fixed_part put_csrc
marshal_header h = fixed_part h ++ put_csrc h.cc h.csrc

-- (b >> 6) & 3, (b >> 5) & 1 == 1, (b >> 4) & 1 == 1, b & 0x0F of the first byte.
pub version_bits : ℕ → ℕ
version_bits b = bit_and (b / 64) 3

pub padding_bit : ℕ → Bool
padding_bit b = bit_and (b / 32) 1 == 1

pub extension_bit : ℕ → Bool
extension_bit b = bit_and (b / 16) 1 == 1

pub cc_bits : ℕ → ℕ
cc_bits b = bit_and b 15

-- (b >> 7) & 1 == 1 and b & 0x7F of the second.
pub marker_bit : ℕ → Bool
marker_bit b = bit_and (b / 128) 1 == 1

pub payload_type_bits : ℕ → ℕ
payload_type_bits b = bit_and b 127

-- The rounds i, i + 1, … of the CSRC loop, `n` in all. The indices are computed in uint8; a word
-- that the data do not hold stays 0.
pub read_csrc : Bytes → ℕ → ℕ → List ℕ
read_csrc bytes i zero = []
read_csrc bytes i (suc n) =
    (if leb ((12 + i * 4 + 4) % 256) (length bytes) then u32_at bytes ((12 + i * 4) % 256) else 0)
    ∷ read_csrc bytes (suc i) n

pub decode_header : Bytes → RtpHeader
unfolding read_csrc
decode_header bytes =
    let b0 = get_or bytes 0 0 in
    let b1 = get_or bytes 1 0 in
    record {
      version = version_bits b0;
      padding = padding_bit b0;
      extension = extension_bit b0;
      cc = cc_bits b0;
      marker = marker_bit b1;
      payload_type = payload_type_bits b1;
      sequence_num = u16_at bytes 2;
      timestamp = u32_at bytes 4;
      ssrc = u32_at bytes 8;
      csrc = read_csrc bytes 0 (cc_bits b0);
    }

pub parse_header : Bytes → Result RtpError RtpHeader
parse_header bytes =
    if ltb (length bytes) 12 then err header_too_short else ok (decode_header bytes)

unfoldable pub new_rtp_packet : ℕ → ℕ → ℕ → ℕ → Bytes → RtpPacket
unfolding new_rtp_header
new_rtp_packet payload_type sequence_num timestamp ssrc payload = record {
  header = record new_rtp_header {
    payload_type = payload_type;
    sequence_num = sequence_num;
    timestamp = timestamp;
    ssrc = ssrc;
  };
  payload = payload;
}

-- RTPPacket.Marshal
unfoldable pub marshal_packet : RtpPacket → Bytes
marshal_packet p = marshal_header p.header ++ p.payload

pub header_size : RtpHeader → ℕ
header_size h = 12 + h.cc * 4

pub parse_packet : Bytes → Result RtpError RtpPacket
unfolding header_size
parse_packet bytes = elim (parse_header bytes) [
  | err e ↦ err e
  | ok h ↦
      if ltb (length bytes) (header_size h)
      then err packet_too_short
      else ok (record { header = h; payload = drop (header_size h) bytes })
]

-- GetRTPPacketSize
pub rtp_packet_size : RtpHeader → ℕ → ℕ
rtp_packet_size h payload_size = 12 + h.cc * 4 + payload_size

pub validate_rtp_packet : Bytes → Bool
validate_rtp_packet bytes =
    if ltb (length bytes) 12
    then false
    else if not (version_bits (get_or bytes 0 0) == rtp_version)
    then false
    else if ltb 127 (payload_type_bits (get_or bytes 1 0))
    then false
    else true

pub record RtpStats : Type 0 where
  pub packets_sent : ℕ
  pub packets_received : ℕ
  pub bytes_sent : ℕ
  pub bytes_received : ℕ
  pub last_sequence : ℕ
  pub last_timestamp : ℕ
  pub stats_ssrc : ℕ

pub new_rtp_stats : ℕ → RtpStats
new_rtp_stats ssrc = record {
  packets_sent = 0;
  packets_received = 0;
  bytes_sent = 0;
  bytes_received = 0;
  last_sequence = 0;
  last_timestamp = 0;
  stats_ssrc = ssrc;
}

-- The counters are uint32 and wrap.
pub update_sent : RtpStats → ℕ → ℕ → ℕ → RtpStats
update_sent s sequence_num timestamp bytes = record s {
  packets_sent = (s.packets_sent + 1) % 2 ^ 32;
  bytes_sent = (s.bytes_sent + bytes % 2 ^ 32) % 2 ^ 32;
  last_sequence = sequence_num;
  last_timestamp = timestamp;
}

pub update_received : RtpStats → ℕ → ℕ → ℕ → RtpStats
update_received s sequence_num timestamp bytes = record s {
  packets_received = (s.packets_received + 1) % 2 ^ 32;
  bytes_received = (s.bytes_received + bytes % 2 ^ 32) % 2 ^ 32;
  last_sequence = sequence_num;
  last_timestamp = timestamp;
}

-- GetLossRate as a fraction (numerator, denominator); 0 is (0, 1).
pub loss_rate : RtpStats → ℕ × ℕ
loss_rate s =
    let expected = (s.packets_received + s.packets_sent) % 2 ^ 32 in
    if s.packets_received == 0
    then (0, 1)
    else if expected == 0
    then (0, 1)
    else (s.packets_sent, expected)
