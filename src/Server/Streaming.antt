-- ===== src/Server/Streaming.antt =====
-- server/server.go: SendTCPMediaStream and handleTCPInterleavedData, with the loops of their
-- goroutines while nothing else runs.
pub mod Frames
use rtsp_go.Base.{
  ℕ, zero, suc, ◌+◌, ◌%◌, ◌^◌, Bool, true, false, List, [], ◌∷◌, ◌++◌, Option, none, some, Result,
  ok, err, Outcome, returns, blocks, panics, if◌then◌else◌, not,
}
use rtsp_go.Base.Text.{Bytes, codes}
use rtsp_go.Base.Text.Decimal.{itoa}
use rtsp_go.Base.Dict.{lookup, bytes_eq}
use rtsp_go.Rtp.{new_rtp_packet, marshal_packet}
use rtsp_go.Tcp.{
  Frame, FrameError, TcpChannel, TcpStats, new_frame, marshal_frame, rtp_frame, read_frame,
  update_sent, update_received,
}
use rtsp_go.Server.{Server, Client}

pub data StreamError : Type 0 where
  not_tcp_transport stream_not_found : StreamError

-- The channel that SendTCPMediaStream sends on.
pub sending_channel : Bytes → Server → Client → Result StreamError TcpChannel
sending_channel stream_name s c = if not c.use_tcp then err not_tcp_transport else elim c.channel [
  | none ↦ err not_tcp_transport
  | some ch ↦ elim (lookup stream_name s.streams) [
    | none ↦ err stream_not_found
    | some stream ↦ ok ch
  ]
]

-- A round of the sender: what GenerateSSRC gives, whether the write fails, and the time.
pub record Tick : Type 0 where
  pub ssrc : ℕ
  pub write_fails : Bool
  pub now : ℕ

-- The packet of a round, as the payload of a frame.
pub sent_payload : ℕ → ℕ → ℕ → Bytes
sent_payload sequence_num timestamp ssrc =
    marshal_packet
      (new_rtp_packet 96 sequence_num timestamp ssrc (codes "Frame " ++ itoa sequence_num))

-- The rounds of the sender while the session is playing, from a number and a timestamp on: the bytes
-- that it writes, and its counters. A write that fails ends it.
pub send_frames : ℕ → ℕ → ℕ → List Tick → TcpStats → Bytes × TcpStats
unfolding sent_payload
send_frames channel sequence_num timestamp [] st = ([], st)
send_frames channel sequence_num timestamp (x ∷ xs) st =
    let frame = new_frame channel (sent_payload sequence_num timestamp x.ssrc) in
    let rest =
      send_frames channel ((sequence_num + 1) % 2 ^ 16) ((timestamp + 3600) % 2 ^ 32) xs
        (update_sent st frame x.now) in
    if x.write_fails then ([], st) else (marshal_frame frame ++ rest.0, rest.1)

-- The numbers start at 1, the timestamp where GenerateRTPTimestamp puts it.
pub start_sending : ℕ → ℕ → List Tick → TcpStats → Bytes × TcpStats
unfolding send_frames
start_sending channel timestamp = send_frames channel 1 timestamp

-- The error that ended the receiver, its counters, and the bytes that it left.
abbrev pub Received : Type 0
Received = Outcome (FrameError × TcpStats × Bytes)

-- A frame is counted, and then only logged; without a channel the test of its channel panics.
pub on_interleaved :
    Option TcpChannel
    → (TcpStats → Bytes → Received)
    → ℕ
    → TcpStats
    → Result FrameError Frame × Bytes
    → Received
on_interleaved channel go_on now st (err e, rest) = returns (e, st, rest)
on_interleaved none go_on now st (ok frame, rest) = panics
on_interleaved (some ch) go_on now st (ok frame, rest) = go_on (update_received st frame now) rest

-- The loop of handleTCPInterleavedData. A frame takes four bytes or more.
pub receive_interleaved : ℕ → Option TcpChannel → ℕ → TcpStats → Bytes → Received
unfolding on_interleaved
receive_interleaved zero channel now st s = blocks
receive_interleaved (suc fuel) channel now st s =
    on_interleaved channel (receive_interleaved fuel channel now) now st (read_frame s)
