-- ===== src/Client/Stream.antt =====
-- client/client.go: ReceiveTCPMediaStream with its goroutine, and SendTCPRTCPPacket.
pub mod Receive
use rtsp_go.Base.{
  ℕ, zero, suc, ◌+◌, Bool, true, false, not, ◌||◌, ◌&&◌, List, [], ◌++◌, Option, none, some, Result,
  ok, err, Outcome, returns, blocks, if◌then◌else◌, length, ◌==◌, ◌≡◌, refl, ap, Bool-cases, inl,
  inr,
}
use rtsp_go.Base.Text.{Bytes}
use rtsp_go.Protocol.Session.{Session, SessionState, init, ready, playing, recording}
use rtsp_go.Rtp.{RtpPacket, RtpStats, update_received}
use rtsp_go.Tcp.{
  Frame, FrameError, ChannelError, TcpChannel, new_frame, marshal_frame, read_frame, rtp_of_frame,
  rtcp_of_frame, update_sent,
}
use rtsp_go.Client.{RtspClient, ClientError, not_tcp_transport, rtcp_not_sent}

-- The channel, if the client uses TCP and has one.
pub used_channel : RtspClient → Option TcpChannel
used_channel c = if c.use_tcp_transport then c.tcp_channel else none

pub launch : RtspClient → Option TcpChannel → Result ClientError RtspClient
launch c none = err not_tcp_transport
launch c (some ch) = ok (record c { receivers = c.receivers + 1 })

-- ReceiveTCPMediaStream
pub receive_tcp_media_stream : RtspClient → Result ClientError RtspClient
unfolding used_channel launch
receive_tcp_media_stream c = launch c (used_channel c)

pub is_playing : Option Session → Bool
is_playing none = false
is_playing (some s) = elim s.state [
  | init ↦ false
  | ready ↦ false
  | playing ↦ true
  | recording ↦ false
]

pub count_packet : RtspClient → Result ChannelError RtpPacket → RtspClient
count_packet c (err e) = c
count_packet c (ok p) = record c {
  rtp_stats =
      update_received c.rtp_stats p.header.sequence_num p.header.timestamp (length p.payload);
}

-- The receiver's work on a frame at the time `now`. An RTCP frame is only logged.
pub take_frame : ℕ → TcpChannel → RtspClient → Frame → RtspClient
unfolding count_packet
take_frame now ch c frame =
    let c' : RtspClient = record c {
      tcp_stats = rtsp_go.Tcp.update_received c.tcp_stats frame now;
    } in
    if frame.header.channel == ch.rtp_channel then count_packet c' (rtp_of_frame frame) else c'

-- The loop's condition.
pub live : RtspClient → Bool
unfolding is_playing
live c = c.connected && is_playing c.session

-- The client and the bytes that the receiver leaves, and the error that ended it, if one did.
abbrev pub Receiving : Type 0
Receiving = Outcome (Option FrameError × RtspClient × Bytes)

pub on_frame :
    (RtspClient → Bytes → Receiving)
    → ℕ
    → TcpChannel
    → RtspClient
    → Result FrameError Frame × Bytes
    → Receiving
unfolding take_frame
on_frame go_on now ch c (err e, rest) = returns (some e, c, rest)
on_frame go_on now ch c (ok frame, rest) = go_on (take_frame now ch c frame) rest

-- The goroutine of ReceiveTCPMediaStream, on what the reader delivers, while nothing else runs.
pub receive_frames : ℕ → ℕ → TcpChannel → RtspClient → Bytes → Receiving
unfolding live on_frame
receive_frames zero now ch c s = blocks
receive_frames (suc fuel) now ch c s =
    let rest = on_frame (receive_frames fuel now ch) now ch c (read_frame s) in
    if live c then rest else returns (none, c, s)

-- What SendTCPRTCPPacket writes, and the error, at the time `now`.
pub send_on :
    Bool → ℕ → Bytes → RtspClient → Option TcpChannel → Bytes × Option ClientError × RtspClient
send_on write_fails now payload c none = ([], some not_tcp_transport, c)
send_on write_fails now payload c (some ch) =
    let frame = new_frame ch.rtcp_channel payload in
    if write_fails
    then ([], some rtcp_not_sent, c)
    else (marshal_frame frame, none, record c { tcp_stats = update_sent c.tcp_stats frame now })

-- SendTCPRTCPPacket
pub send_tcp_rtcp_packet : Bool → ℕ → Bytes → RtspClient → Bytes × Option ClientError × RtspClient
unfolding used_channel send_on
send_tcp_rtcp_packet write_fails now payload c = send_on write_fails now payload c (used_channel c)

used_channel_without : (c : RtspClient) → c.tcp_channel ≡ none → used_channel c ≡ none
unfolding used_channel
used_channel_without c unset = elim (Bool-cases c.use_tcp_transport) [
  | inl tcp ↦ rw tcp unset
  | inr udp ↦ rw udp refl
]

-- Without a channel, ReceiveTCPMediaStream fails.
pub receive_tcp_media_stream_without :
    (c : RtspClient) → c.tcp_channel ≡ none → receive_tcp_media_stream c ≡ err not_tcp_transport
unfolding receive_tcp_media_stream launch
receive_tcp_media_stream_without c unset = ap (launch c) (used_channel_without c unset)

-- Without a channel, SendTCPRTCPPacket fails too, and writes nothing.
pub send_tcp_rtcp_packet_without :
    (write_fails : Bool) (now : ℕ) (payload : Bytes) (c : RtspClient)
    → c.tcp_channel ≡ none
    → send_tcp_rtcp_packet write_fails now payload c ≡ ([], some not_tcp_transport, c)
unfolding send_tcp_rtcp_packet send_on
send_tcp_rtcp_packet_without write_fails now payload c unset =
    ap (send_on write_fails now payload c) (used_channel_without c unset)
