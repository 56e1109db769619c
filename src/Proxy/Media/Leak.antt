-- ===== src/Proxy/Media/Leak.antt =====
-- proxy/media_proxy.go: Stop, while goroutines are on their way to their loops.
use rtsp_go.Base.{ℕ, ◌<◌, ◌≡◌, true, false, [], ◌∷◌, arith}
use rtsp_go.Base.Text.{Bytes}
use rtsp_go.Proxy.Media.{MediaStreamProxy, new_media_stream_proxy, stop_media}
use rtsp_go.Proxy.Media.Threads.{
  Stream, rtp, rtcp, begins, tests, System, is_running, run_thread, loops,
}

-- A proxy that is stopped, one of whose streams runs in a goroutine.
abbrev pub IsLeaked : Stream → System → Type 0
IsLeaked r s = (s.proxy.running ≡ false) × (is_running r s.proxy ≡ true) × (0 < loops r s.threads)

pub stop_media_off : (msp : MediaStreamProxy) → msp.running ≡ false → stop_media msp ≡ msp
unfolding stop_media
stop_media_off msp off = ground arith

-- Start, then Stop before the new goroutines come to their loops.
abbrev hurried : Bytes → ℕ → System
hurried session_id now = record {
  proxy = (run_thread now (begins rtp) (new_media_stream_proxy session_id now)).0;
  threads = tests rtp ∷ begins rtcp ∷ [];
}

started : Bytes → ℕ → MediaStreamProxy
unfolding new_media_stream_proxy
started session_id now = record (new_media_stream_proxy session_id now) { running = true }
