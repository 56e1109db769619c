-- ===== src/Proxy/Media/Reports.antt =====
-- proxy/media_proxy.go: the GetStats methods.
use rtsp_go.Base.{[], ◌∷◌}
use rtsp_go.Base.Text.{codes}
use rtsp_go.Base.Report.{Report, count, text, flag, moment, section, report}
use rtsp_go.Proxy.Media.{RtpStreamProxy, FlowProxy, MediaStreamProxy}

-- GetStats of the RTP proxy.
pub rtp_report : RtpStreamProxy → Report
rtp_report p = report (
    (codes "rtp_packets_forwarded", count p.stats.rtp_packets_forwarded)
    ∷ (codes "rtp_bytes_forwarded", count p.stats.rtp_bytes_forwarded)
    ∷ (codes "rtcp_packets_forwarded", count p.stats.rtcp_packets_forwarded)
    ∷ (codes "rtcp_bytes_forwarded", count p.stats.rtcp_bytes_forwarded)
    ∷ (codes "start_time", moment p.stats.start_time)
    ∷ (codes "last_activity", moment p.stats.last_activity)
    ∷ (codes "running", flag p.running)
    ∷ [])

-- GetStats of the RTCP proxy.
pub rtcp_report : FlowProxy → Report
rtcp_report p = report (
    (codes "packets_forwarded", count p.stats.packets_forwarded)
    ∷ (codes "bytes_forwarded", count p.stats.bytes_forwarded)
    ∷ (codes "start_time", moment p.stats.start_time)
    ∷ (codes "last_activity", moment p.stats.last_activity)
    ∷ (codes "running", flag p.running)
    ∷ [])

-- GetStats of the TCP proxy.
pub tcp_report : FlowProxy → Report
tcp_report p = report (
    (codes "frames_forwarded", count p.stats.packets_forwarded)
    ∷ (codes "bytes_forwarded", count p.stats.bytes_forwarded)
    ∷ (codes "start_time", moment p.stats.start_time)
    ∷ (codes "last_activity", moment p.stats.last_activity)
    ∷ (codes "running", flag p.running)
    ∷ [])

-- GetStats of the media stream proxy.
pub media_report : MediaStreamProxy → Report
unfolding rtp_report rtcp_report tcp_report
media_report msp = report (
    (codes "session_id", text msp.session_id)
    ∷ (codes "use_tcp_transport", flag msp.use_tcp_transport)
    ∷ (codes "running", flag msp.running)
    ∷ (codes "rtp_proxy", section (rtp_report msp.rtp_proxy))
    ∷ (codes "rtcp_proxy", section (rtcp_report msp.rtcp_proxy))
    ∷ (codes "tcp_proxy", section (tcp_report msp.tcp_proxy))
    ∷ [])
