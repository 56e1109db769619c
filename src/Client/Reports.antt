-- ===== src/Client/Reports.antt =====
-- client/client.go: GetStats.
use rtsp_go.Base.{List, [], ◌∷◌, ◌++◌, Option, none, some}
use rtsp_go.Base.Text.{Bytes, codes}
use rtsp_go.Base.Report.{Value, Report, count, text, flag, moment, number, ratio, section, report}
use rtsp_go.Protocol.Session.{Session, SessionState, init, ready, playing, recording}
use rtsp_go.Rtp.{RtpStats, loss_rate}
use rtsp_go.Tcp.{TcpChannel}
use rtsp_go.Tcp.Reports.{stats_report}
use rtsp_go.Client.{PeerPorts, RtspClient}

-- The number that a state is in Go.
pub state_value : SessionState → Value
state_value init = count 0
state_value ready = count 1
state_value playing = count 2
state_value recording = count 3

pub session_fields : Option Session → List (Bytes × Value)
unfolding state_value
session_fields none = []
session_fields (some s) =
    (codes "session_id", text s.id) ∷ (codes "session_state", state_value s.state) ∷ []

pub port_fields : Option PeerPorts → List (Bytes × Value)
port_fields none = []
port_fields (some p) =
    (
      codes "port_allocation",
      section (
          report (
            (codes "rtp_port", number p.peer_rtp_port)
            ∷ (codes "rtcp_port", number p.peer_rtcp_port)
            ∷ (codes "allocated_at", moment p.peer_allocated_at)
            ∷ (codes "session_id", text p.peer_session_id)
            ∷ [])),
    )
    ∷ []

pub channel_fields : Option TcpChannel → List (Bytes × Value)
channel_fields none = []
channel_fields (some ch) =
    (
      codes "tcp_channel",
      section (
          report (
            (codes "rtp_channel", count ch.rtp_channel)
            ∷ (codes "rtcp_channel", count ch.rtcp_channel)
            ∷ (codes "created", moment ch.created)
            ∷ (codes "session_id", text ch.session_id)
            ∷ [])),
    )
    ∷ []

pub rtp_fields : RtpStats → Report
rtp_fields s = report (
    (codes "packets_sent", count s.packets_sent)
    ∷ (codes "packets_received", count s.packets_received)
    ∷ (codes "bytes_sent", count s.bytes_sent)
    ∷ (codes "bytes_received", count s.bytes_received)
    ∷ (codes "loss_rate", ratio (loss_rate s))
    ∷ [])

-- GetStats
pub client_report : RtspClient → Report
unfolding session_fields port_fields channel_fields rtp_fields
client_report c = report (
    (codes "connected", flag c.connected)
      ∷ (codes "server_url", text c.server_url)
      ∷ (codes "sequence_num", count c.sequence_num)
      ∷ (codes "dynamic_ports", flag c.dynamic_ports)
      ∷ (codes "tcp_transport", flag c.use_tcp_transport)
      ∷ session_fields c.session
    ++ port_fields c.port_allocation
    ++ channel_fields c.tcp_channel
    ++ (codes "tcp_stats", section (stats_report c.tcp_stats))
      ∷ (codes "rtp_stats", section (rtp_fields c.rtp_stats))
      ∷ [])
