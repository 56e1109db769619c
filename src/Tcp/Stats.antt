-- ===== src/Tcp/Stats.antt =====
-- rtspProtocon/tcp_transport.go: the frame counters over any sequence of updates.
use rtsp_go.Base.{ℕ, ◌+◌, ◌%◌, ◌^◌, ◌≡◌, List, [], ◌∷◌, arith}
use rtsp_go.Tcp.{Frame, TcpStats, new_tcp_stats, update_sent, update_received}

pub data Update : Type 0 where
  sent received : Frame → ℕ → Update

unfoldable pub apply : TcpStats → Update → TcpStats
apply s (sent f now) = update_sent s f now
apply s (received f now) = update_received s f now

unfoldable pub run : TcpStats → List Update → TcpStats
unfolding apply
run s [] = s
run s (u ∷ us) = run (apply s u) us

-- Every frame was counted once by its direction and once by its kind.
abbrev pub IsBalanced : TcpStats → Type 0
IsBalanced s =
    (s.rtp_frames + s.rtcp_frames) % 2 ^ 64 ≡ (s.frames_sent + s.frames_received) % 2 ^ 64

apply-IsBalanced : (s : TcpStats) (u : Update) → IsBalanced s → IsBalanced (apply s u)
unfolding apply update_sent update_received
apply-IsBalanced s (sent f now) h = ground arith
apply-IsBalanced s (received f now) h = ground arith

run-IsBalanced_from : (s : TcpStats) (us : List Update) → IsBalanced s → IsBalanced (run s us)
unfolding run
run-IsBalanced_from s [] h = h
run-IsBalanced_from s (u ∷ us) h = run-IsBalanced_from (apply s u) us (apply-IsBalanced s u h)

-- From new counters on, the RTP and RTCP frames together are the sent and received frames together,
-- modulo 2 ^ 64.
pub run-IsBalanced : (start : ℕ) (us : List Update) → IsBalanced (run (new_tcp_stats start) us)
run-IsBalanced start us =
    run-IsBalanced_from (new_tcp_stats start) us (unfold new_tcp_stats in omega arith)
