-- ===== src/Tcp.antt =====
-- rtspProtocon/tcp_transport.go: interleaved frames, the channel table and the frame counters.
-- A reader is the list of bytes that the connection still delivers before it ends.
pub mod Frames
pub mod Channels
pub mod Stats
pub mod Reports
pub mod Examples
use rtsp_go.Base.{
  ℕ, suc, ◌+◌, ◌-◌, ◌%◌, ◌^◌, Bool, true, false, not, List, [], ◌∷◌, ◌++◌, Option, Result, ok, err,
  Outcome, returns, panics, ltb, ◌==◌, if◌then◌else◌, length, get_or, take, drop,
}
use rtsp_go.Base.Text.{Bytes}
use rtsp_go.Base.Dict.{Dict, lookup, insert, delete, bytes_eq}
use rtsp_go.Base.Word.{be16, u16_at}
use rtsp_go.Rtp.{RtpPacket, RtpError, marshal_packet, parse_packet}

pub record FrameHeader : Type 0 where
  pub magic : ℕ
  pub channel : ℕ
  pub frame_length : ℕ

pub record Frame : Type 0 where
  pub header : FrameHeader
  pub payload : Bytes

pub data FrameError : Type 0 where
  frame_too_short invalid_magic incomplete_frame : FrameError
  header_not_read payload_not_read : FrameError

abbrev pub dollar : ℕ
dollar = 0x24

-- NewTCPInterleavedFrame: the length is converted to uint16.
pub new_frame : ℕ → Bytes → Frame
new_frame channel payload = record {
  header = record { magic = dollar; channel = channel; frame_length = length payload % 2 ^ 16 };
  payload = payload;
}

-- TCPInterleavedFrame.Marshal
pub marshal_frame : Frame → Bytes
marshal_frame f =
    (f.header.magic ∷ f.header.channel ∷ []) ++ be16 f.header.frame_length ++ f.payload

-- b[lo:hi], for lo ≤ hi ≤ len(b).
abbrev slice : Bytes → ℕ → ℕ → Bytes
slice b lo hi = take (hi - lo) (drop lo b)

-- ParseTCPInterleavedFrame. `4 + length` is a uint16 and wraps; a slice whose upper bound lies
-- below its lower one panics.
pub parse_frame : Bytes → Outcome (Result FrameError Frame)
parse_frame bytes =
    let size = u16_at bytes 2 in
    let end = (4 + size) % 2 ^ 16 in
    if ltb (length bytes) 4
    then returns (err frame_too_short)
    else if not (get_or bytes 0 0 == dollar)
    then returns (err invalid_magic)
    else if ltb (length bytes) end
    then returns (err incomplete_frame)
    else if ltb end 4
    then panics
    else returns (
        ok (record {
          header = record {
            magic = get_or bytes 0 0;
            channel = get_or bytes 1 0;
            frame_length = size;
          };
          payload = slice bytes 4 end;
        }))

-- The second io.ReadFull. A short read takes all there was.
read_payload : Bytes → Bytes → Result FrameError Frame × Bytes
read_payload head s =
    let size = u16_at head 2 in
    if ltb (length s) size then (err payload_not_read, []) else (
      ok (record {
        header = record { magic = get_or head 0 0; channel = get_or head 1 0; frame_length = size };
        payload = take size s;
      }),
      drop size s,
    )

-- ReadTCPInterleavedFrame: its result, and what the reader still holds.
pub read_frame : Bytes → Result FrameError Frame × Bytes
unfolding read_payload
read_frame s =
    if ltb (length s) 4
    then (err header_not_read, [])
    else if not (get_or (take 4 s) 0 0 == dollar)
    then (err invalid_magic, drop 4 s)
    else read_payload (take 4 s) (drop 4 s)

-- CreateRTPInterleavedFrame
pub rtp_frame : ℕ → RtpPacket → Frame
rtp_frame channel p = new_frame channel (marshal_packet p)

pub data ChannelError : Type 0 where
  odd_rtp_channel even_rtcp_channel : ChannelError
  bad_packet : RtpError → ChannelError

-- ParseRTPFromInterleavedFrame
pub rtp_of_frame : Frame → Result ChannelError RtpPacket
rtp_of_frame f =
    if not (f.header.channel % 2 == 0)
    then err odd_rtp_channel
    else elim (parse_packet f.payload) [ ok p ↦ ok p | err e ↦ err (bad_packet e) ]

-- ParseRTCPFromInterleavedFrame
pub rtcp_of_frame : Frame → Result ChannelError Bytes
rtcp_of_frame f = if not (f.header.channel % 2 == 1) then err even_rtcp_channel else ok f.payload

pub record TcpChannel : Type 0 where
  pub rtp_channel : ℕ
  pub rtcp_channel : ℕ
  pub session_id : Bytes
  pub created : ℕ

pub record TransportManager : Type 0 where
  pub channels : Dict Bytes TcpChannel
  pub next_channel : ℕ

pub new_transport_manager : TransportManager
new_transport_manager = record { channels = []; next_channel = 0 }

-- AllocateChannel at the time `now`. Channel numbers are bytes and wrap.
pub allocate_channel : TransportManager → Bytes → ℕ → TcpChannel × TransportManager
allocate_channel tm session now =
    let c : TcpChannel = record {
      rtp_channel = tm.next_channel;
      rtcp_channel = (tm.next_channel + 1) % 256;
      session_id = session;
      created = now;
    } in
    (
      c,
      record {
        channels = insert session c tm.channels;
        next_channel = (tm.next_channel + 2) % 256;
      },
    )

pub release_channel : TransportManager → Bytes → TransportManager
release_channel tm session = record tm { channels = delete session tm.channels }

pub get_channel : TransportManager → Bytes → Option TcpChannel
get_channel tm session = lookup session tm.channels

pub record TcpStats : Type 0 where
  pub frames_sent : ℕ
  pub frames_received : ℕ
  pub bytes_sent : ℕ
  pub bytes_received : ℕ
  pub rtp_frames : ℕ
  pub rtcp_frames : ℕ
  pub last_activity : ℕ

pub new_tcp_stats : ℕ → TcpStats
new_tcp_stats now = record {
  frames_sent = 0;
  frames_received = 0;
  bytes_sent = 0;
  bytes_received = 0;
  rtp_frames = 0;
  rtcp_frames = 0;
  last_activity = now;
}

-- The part that UpdateSent and UpdateReceived share: an even channel is RTP.
count_channel : TcpStats → Frame → TcpStats
count_channel s f =
    if f.header.channel % 2 == 0
    then record s { rtp_frames = (s.rtp_frames + 1) % 2 ^ 64 }
    else record s { rtcp_frames = (s.rtcp_frames + 1) % 2 ^ 64 }

pub update_sent : TcpStats → Frame → ℕ → TcpStats
unfolding count_channel
update_sent s f now =
    count_channel
      (record s {
        frames_sent = (s.frames_sent + 1) % 2 ^ 64;
        bytes_sent = (s.bytes_sent + (length f.payload + 4)) % 2 ^ 64;
        last_activity = now;
      })
      f

pub update_received : TcpStats → Frame → ℕ → TcpStats
unfolding count_channel
update_received s f now =
    count_channel
      (record s {
        frames_received = (s.frames_received + 1) % 2 ^ 64;
        bytes_received = (s.bytes_received + (length f.payload + 4)) % 2 ^ 64;
        last_activity = now;
      })
      f
