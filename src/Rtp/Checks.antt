-- ===== src/Rtp/Checks.antt =====
-- rtspProtocon/rtp.go: what the parsers refuse, what ValidateRTPPacket accepts, and sizes.
use rtsp_go.Base.{
  ℕ, ◌+◌, ◌*◌, ◌≤◌, ◌<◌, ◌≡◌, ◌↔◌, true, ok, err, arith, lt→ltb, le→ltb-false, length,
  length-append, get_or, All, [], ◌∷◌,
}
use rtsp_go.Base.Text.{Bytes}
use rtsp_go.Base.Word.{IsByte, IsU16, IsU32}
use rtsp_go.Rtp.{
  RtpHeader, RtpPacket, header_too_short, packet_too_short, rtp_version, cc_bits, version_bits,
  payload_type_bits, decode_header, parse_header, parse_packet, marshal_packet, new_rtp_packet,
  rtp_packet_size, validate_rtp_packet, header_size, marshal_header,
}
use rtsp_go.Rtp.Bits.{payload_type_bits-lt}
use rtsp_go.Rtp.Decode.{IsHeader, length-marshal_header}

-- A packet is refused as too short for a header when it has fewer than 12 bytes, and as too short
-- for its CSRC list when it has 12 and fewer than its first byte announces.
pub parse_packet_refuses :
    (bytes : Bytes)
    → (length bytes < 12 → parse_packet bytes ≡ err header_too_short)
      × (12 ≤ length bytes
          → length bytes < 12 + cc_bits (get_or bytes 0 0) * 4
          → parse_packet bytes ≡ err packet_too_short)
unfolding parse_packet parse_header header_size decode_header
parse_packet_refuses bytes = (
  λ short. rw (lt→ltb (length bytes) 12 short, parse_packet),
  λ long short.
      rw (le→ltb-false (length bytes) 12 long, parse_packet)
        (rw (lt→ltb (length bytes) (12 + cc_bits (get_or bytes 0 0) * 4) short)),
)

second-IsByte : (bytes : Bytes) → All IsByte bytes → payload_type_bits (get_or bytes 1 0) < 128
second-IsByte bytes w = payload_type_bits-lt _ (bound bytes w)
  where
    bound : (bytes : Bytes) → All IsByte bytes → get_or bytes 1 0 < 256
    bound [] w = omega arith
    bound (b ∷ []) w = omega arith
    bound (a ∷ b ∷ bytes) (_, (h, _)) = h

version_of_header :
    (bytes : Bytes) (h : RtpHeader)
    → parse_header bytes ≡ ok h
    → (12 ≤ length bytes) × (version_bits (get_or bytes 0 0) ≡ h.version)
unfolding parse_header decode_header
version_of_header bytes h e = ground arith

-- ValidateRTPPacket accepts exactly the byte strings whose header parses with version 2: its test
-- of the payload type never refuses.
pub validate_rtp_packet_iff :
    (bytes : Bytes)
    → All IsByte bytes
    → (validate_rtp_packet bytes ≡ true)
      ↔ ((h : RtpHeader) × (parse_header bytes ≡ ok h) × (h.version ≡ rtp_version))
unfolding validate_rtp_packet parse_header
validate_rtp_packet_iff bytes w = (
  λ valid. (decode_header bytes, ground arith, unfold decode_header in ground arith),
  λ (h, e, v). ground (arith, version_of_header bytes h e, second-IsByte bytes w),
)

-- Marshal of a packet has the size that GetRTPPacketSize tells.
pub length-marshal_packet :
    (p : RtpPacket) → length (marshal_packet p) ≡ rtp_packet_size p.header (length p.payload)
unfolding marshal_packet rtp_packet_size header_size
length-marshal_packet p =
    omega (arith, length-append (marshal_header p.header) p.payload, length-marshal_header p.header)

-- A new packet is well formed, if its arguments fit their types and the payload type 7 bits.
pub new_rtp_packet-IsHeader :
    (payload_type sequence_num timestamp ssrc : ℕ) (payload : Bytes)
    → payload_type < 128
    → IsU16 sequence_num
    → IsU32 timestamp
    → IsU32 ssrc
    → IsHeader (new_rtp_packet payload_type sequence_num timestamp ssrc payload).header
unfolding new_rtp_packet
new_rtp_packet-IsHeader payload_type sequence_num timestamp ssrc payload hp hs ht hr = ground arith
