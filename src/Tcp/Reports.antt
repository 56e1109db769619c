-- ===== src/Tcp/Reports.antt =====
-- rtspProtocon/tcp_transport.go: GetStats.
use rtsp_go.Base.{[], ◌∷◌}
use rtsp_go.Base.Text.{codes}
use rtsp_go.Base.Report.{Report, count, moment, report}
use rtsp_go.Tcp.{TcpStats}

-- GetStats
pub stats_report : TcpStats → Report
stats_report s = report (
    (codes "frames_sent", count s.frames_sent)
    ∷ (codes "frames_received", count s.frames_received)
    ∷ (codes "bytes_sent", count s.bytes_sent)
    ∷ (codes "bytes_received", count s.bytes_received)
    ∷ (codes "rtp_frames", count s.rtp_frames)
    ∷ (codes "rtcp_frames", count s.rtcp_frames)
    ∷ (codes "last_activity", moment s.last_activity)
    ∷ [])
