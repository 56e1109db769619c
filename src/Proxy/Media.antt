-- ===== src/Proxy/Media.antt =====
-- proxy/media_proxy.go: the media streams of a proxy session, their counters and their copying loop.
-- The goroutines that Start spawns are in Media.Threads. The three stream proxies are never nil, since
-- NewMediaStreamProxy sets them, and the locks guard what is one step here.
pub mod Threads
pub mod Forward
pub mod Reports
pub mod Served
pub mod Leak
pub mod Quiet
pub mod Examples
use rtsp_go.Base.{
  ℕ, ◌+◌, ◌%◌, ◌^◌, Bool, true, false, List, [], ◌∷◌, ◌++◌, Option, none, some, Result, ok, err,
  if◌then◌else◌, length, take,
}
use rtsp_go.Base.Word.{u64}
use rtsp_go.Base.Text.{Bytes, codes, text_eq}

-- A connection that may be nil.
pub data Conn : Type 0 where
  absent opened closed : Conn

-- Close, if it is not nil.
unfoldable pub close_conn : Conn → Conn
close_conn absent = absent
close_conn opened = closed
close_conn closed = closed

pub record RtpProxyStats : Type 0 where
  pub rtp_packets_forwarded : ℕ  -- uint64, as the other counters
  pub rtp_bytes_forwarded : ℕ
  pub rtcp_packets_forwarded : ℕ
  pub rtcp_bytes_forwarded : ℕ
  pub start_time : ℕ
  pub last_activity : ℕ

-- RTCPProxyStats, and TCPProxyStats, whose packets are frames.
pub record FlowStats : Type 0 where
  pub packets_forwarded : ℕ
  pub bytes_forwarded : ℕ
  pub start_time : ℕ
  pub last_activity : ℕ

pub record RtpStreamProxy : Type 0 where
  pub client_rtp_conn : Conn
  pub upstream_rtp_conn : Conn
  pub client_rtcp_conn : Conn
  pub upstream_rtcp_conn : Conn
  pub stats : RtpProxyStats
  pub running : Bool

-- RTCPStreamProxy and TCPStreamProxy.
pub record FlowProxy : Type 0 where
  pub client_conn : Conn
  pub upstream_conn : Conn
  pub stats : FlowStats
  pub running : Bool

pub record MediaStreamProxy : Type 0 where
  pub session_id : Bytes
  pub rtp_proxy : RtpStreamProxy
  pub rtcp_proxy : FlowProxy
  pub tcp_proxy : FlowProxy
  pub use_tcp_transport : Bool
  pub running : Bool

abbrev new_flow_proxy : ℕ → FlowProxy
new_flow_proxy now = record {
  client_conn = absent;
  upstream_conn = absent;
  stats = record {
    packets_forwarded = 0;
    bytes_forwarded = 0;
    start_time = now;
    last_activity = now;
  };
  running = false;
}

-- NewMediaStreamProxy at the time `now`.
unfoldable pub new_media_stream_proxy : Bytes → ℕ → MediaStreamProxy
new_media_stream_proxy session_id now = record {
  session_id = session_id;
  rtp_proxy = record {
    client_rtp_conn = absent;
    upstream_rtp_conn = absent;
    client_rtcp_conn = absent;
    upstream_rtcp_conn = absent;
    stats = record {
      rtp_packets_forwarded = 0;
      rtp_bytes_forwarded = 0;
      rtcp_packets_forwarded = 0;
      rtcp_bytes_forwarded = 0;
      start_time = now;
      last_activity = now;
    };
    running = false;
  };
  rtcp_proxy = new_flow_proxy now;
  tcp_proxy = new_flow_proxy now;
  use_tcp_transport = false;
  running = false;
}

-- Stop of the RTP proxy.
unfoldable pub stop_rtp : RtpStreamProxy → RtpStreamProxy
unfolding close_conn
stop_rtp p = record p {
  running = false;
  client_rtp_conn = close_conn p.client_rtp_conn;
  upstream_rtp_conn = close_conn p.upstream_rtp_conn;
  client_rtcp_conn = close_conn p.client_rtcp_conn;
  upstream_rtcp_conn = close_conn p.upstream_rtcp_conn;
}

-- Stop of the RTCP proxy, and of the TCP proxy.
unfoldable pub stop_flow : FlowProxy → FlowProxy
unfolding close_conn
stop_flow p = record p {
  running = false;
  client_conn = close_conn p.client_conn;
  upstream_conn = close_conn p.upstream_conn;
}

-- Stop of the media stream proxy.
unfoldable pub stop_media : MediaStreamProxy → MediaStreamProxy
unfolding stop_rtp stop_flow
stop_media msp =
    if msp.running
    then record msp {
      running = false;
      rtp_proxy = stop_rtp msp.rtp_proxy;
      rtcp_proxy = stop_flow msp.rtcp_proxy;
      tcp_proxy = stop_flow msp.tcp_proxy;
    }
    else msp

-- SetTransportMode
unfoldable pub set_transport_mode : Bool → MediaStreamProxy → MediaStreamProxy
set_transport_mode use_tcp msp = record msp { use_tcp_transport = use_tcp }

pub data ForwardError : Type 0 where
  rtp_not_running rtcp_not_running tcp_not_running : ForwardError

-- ForwardRTPPacket, of a payload.
pub forward_rtp_packet : Bytes → ℕ → RtpStreamProxy → Result ForwardError RtpStreamProxy
forward_rtp_packet payload now p =
    if p.running
    then ok (record p {
      stats = record p.stats {
        rtp_packets_forwarded = u64 (p.stats.rtp_packets_forwarded + 1);
        rtp_bytes_forwarded = u64 (p.stats.rtp_bytes_forwarded + length payload);
        last_activity = now;
      };
    })
    else err rtp_not_running

-- What ForwardRTCPPacket and ForwardTCPFrame do, but for their errors.
pub forward_flow : ForwardError → Bytes → ℕ → FlowProxy → Result ForwardError FlowProxy
forward_flow refusal packet now p =
    if p.running
    then ok (record p {
      stats = record p.stats {
        packets_forwarded = u64 (p.stats.packets_forwarded + 1);
        bytes_forwarded = u64 (p.stats.bytes_forwarded + length packet);
        last_activity = now;
      };
    })
    else err refusal

-- ForwardRTCPPacket
pub forward_rtcp_packet : Bytes → ℕ → FlowProxy → Result ForwardError FlowProxy
unfolding forward_flow
forward_rtcp_packet packet now p = forward_flow rtcp_not_running packet now p

-- ForwardTCPFrame, of a frame's payload.
pub forward_tcp_frame : Bytes → ℕ → FlowProxy → Result ForwardError FlowProxy
unfolding forward_flow
forward_tcp_frame payload now p = forward_flow tcp_not_running payload now p

add_rtp_bytes : ℕ → ℕ → RtpStreamProxy → RtpStreamProxy
add_rtp_bytes count now p = record p {
  stats = record p.stats {
    rtp_bytes_forwarded = u64 (p.stats.rtp_bytes_forwarded + count);
    last_activity = now;
  };
}

add_flow_bytes : ℕ → ℕ → FlowProxy → FlowProxy
add_flow_bytes count now p = record p {
  stats = record p.stats {
    bytes_forwarded = u64 (p.stats.bytes_forwarded + count);
    last_activity = now;
  };
}

-- updateProxyStats, of the proxy that its first argument names.
pub update_proxy_stats : Bytes → ℕ → ℕ → MediaStreamProxy → MediaStreamProxy
unfolding add_rtp_bytes add_flow_bytes
update_proxy_stats proxy_type count now msp =
    if text_eq proxy_type (codes "rtp")
    then record msp { rtp_proxy = add_rtp_bytes count now msp.rtp_proxy }
    else if text_eq proxy_type (codes "rtcp")
    then record msp { rtcp_proxy = add_flow_bytes count now msp.rtcp_proxy }
    else if text_eq proxy_type (codes "tcp")
    then record msp { tcp_proxy = add_flow_bytes count now msp.tcp_proxy }
    else msp

-- One round of ForwardData: the bytes that Read gives, whether with an error, how many bytes Write
-- takes if it fails, and the time.
pub record Round : Type 0 where
  pub bytes : Bytes
  pub read_fails : Bool
  pub write_fails : Option ℕ
  pub now : ℕ

-- ForwardData over the rounds so far: what has been written, and the counters. Bytes that come with
-- an error are not written.
pub forward_data : Bytes → List Round → Bytes → MediaStreamProxy → Bytes × MediaStreamProxy
unfolding update_proxy_stats
forward_data proxy_type [] out msp = (out, msp)
forward_data proxy_type (r ∷ rounds) out msp =
    let counted = update_proxy_stats proxy_type (length r.bytes) r.now msp in
    let rest = forward_data proxy_type rounds (out ++ r.bytes) counted in
    if r.read_fails
    then (out, msp)
    else elim r.write_fails [ some n ↦ (out ++ take n r.bytes, msp) | none ↦ rest ]
