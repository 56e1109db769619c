-- ===== src/Tcp/Examples.antt =====
-- rtspProtocon/tcp_transport.go on concrete frames and calls: tests, and instances of the theorems.
use rtsp_go.Base.{
  ℕ, zero, suc, ◌+◌, ◌*◌, ◌%◌, ◌^◌, ◌-◌, ◌≡◌, ◌↔◌, ◌≤◌, ◌<◌, refl, List, [], ◌∷◌, ◌++◌, some, map,
  ok, returns, panics, arith, length,
}
use rtsp_go.Base.Text.{Bytes, codes}
use rtsp_go.Base.Word.{be16, be32, u16_at}
use rtsp_go.Rtp.{RtpPacket, new_rtp_packet, marshal_packet, marshal_header}
use rtsp_go.Tcp.{
  dollar, new_frame, marshal_frame, parse_frame, read_frame, new_transport_manager,
  allocate_channel, get_channel,
}
use rtsp_go.Tcp.Frames.{
  received_frame, read_frame-marshal_frame, read_frames, write_frames, read_frames-write_frames,
  parse_frame-panics_iff,
}
use rtsp_go.Tcp.Channels.{Call, allocates, releases, calls, allocate_channel-calls}

written : marshal_frame (new_frame 2 (codes "hi")) ≡ 0x24 ∷ 2 ∷ 0 ∷ 2 ∷ codes "hi"
unfolding marshal_frame new_frame be16
written = refl

parsed : parse_frame (0x24 ∷ 2 ∷ 0 ∷ 2 ∷ codes "hi!") ≡ returns (ok (new_frame 2 (codes "hi")))
unfolding parse_frame new_frame u16_at
parsed = refl

read_frame-marshal_frame_example :
    read_frame (marshal_frame (new_frame 2 (codes "hi")) ++ codes "$")
    ≡ (ok (received_frame 2 (codes "hi")), codes "$")
read_frame-marshal_frame_example = read_frame-marshal_frame 2 (codes "hi") (codes "$")

abbrev two_frames : List (ℕ × Bytes)
two_frames = (0, codes "rtp") ∷ (1, []) ∷ []

read_frames-write_frames_example :
    read_frames 2 (write_frames two_frames ++ codes "$")
    ≡ (map (λ cp. new_frame cp.0 cp.1) two_frames, codes "$")
read_frames-write_frames_example = read_frames-write_frames two_frames (codes "$") (omega arith)

-- Four bytes are enough for the panic.
parse_frame-panics_iff_example :
    (parse_frame (0x24 ∷ 0 ∷ 0xff ∷ 0xfc ∷ []) ≡ panics)
    ↔ ((0x24 ≡ dollar) × (2 ^ 16 - 4 ≤ 0xff * 256 + 0xfc))
parse_frame-panics_iff_example =
    parse_frame-panics_iff 0x24 0 0xff 0xfc [] (omega arith) (omega arith)

abbrev packet : RtpPacket
packet = new_rtp_packet 96 1 3600 9 (codes "Frame 1")

packet_small : length (marshal_packet packet) < 2 ^ 16
unfolding marshal_packet marshal_header new_rtp_packet be16 be32
packet_small = omega arith

abbrev table_calls : List Call
table_calls = allocates (codes "a") 1 ∷ allocates (codes "b") 2 ∷ releases (codes "a") ∷ []

allocate_channel-calls_example :
    let tm = calls new_transport_manager table_calls in
    let c = (allocate_channel tm (codes "c") 5).0 in
    (c.rtp_channel ≡ 2 * 2 % 256)
    × (c.rtcp_channel ≡ c.rtp_channel + 1)
    × (get_channel (allocate_channel tm (codes "c") 5).1 (codes "c") ≡ some c)
allocate_channel-calls_example = allocate_channel-calls table_calls (codes "c") 5

abbrev repeated : ℕ → List Call
repeated zero = []
repeated (suc n) = allocates (codes "x") 3 ∷ repeated n
