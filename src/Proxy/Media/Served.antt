-- ===== src/Proxy/Media/Served.antt =====
-- proxy/media_proxy.go: what holds of the goroutines in every state that they can reach.
use rtsp_go.Base.{
  ℕ, ◌+◌, ◌<◌, ◌≡◌, sym, ap, ◌∙◌, true, List, [], ◌∷◌, ◌++◌, ok, arith, ◌⊎◌, inl, inr,
}
use rtsp_go.Base.Text.{Bytes}
use rtsp_go.Proxy.Media.{
  MediaStreamProxy, new_media_stream_proxy, stop_media, stop_rtp, stop_flow, set_transport_mode,
}
use rtsp_go.Proxy.Media.Threads.{
  Stream, rtp, rtcp, tcp, Thread, System, start_media, is_running, run_thread, Idle, stops,
  sets_mode, runs, Step, idles, starts, Steps, done, step, in_loop, loops,
}

pub loops-append :
    (s : Stream) (before behind : List Thread)
    → loops s (before ++ behind) ≡ loops s before + loops s behind
loops-append s [] behind = omega arith
loops-append s (t ∷ before) behind = omega (arith, loops-append s before behind)

-- A stream whose proxy runs has a goroutine in its loop.
abbrev pub IsServed : System → Type 0
IsServed s = (r : Stream) → is_running r s.proxy ≡ true → 0 < loops r s.threads

-- What a step of a goroutine does to one stream.
run_thread-loops :
    (now : ℕ) (t : Thread) (r : Stream) (msp : MediaStreamProxy)
    → is_running r (run_thread now t msp).0 ≡ true
    → (0 < loops r (run_thread now t msp).1) ⊎ ((is_running r msp ≡ true) × (in_loop r t ≡ 0))
unfolding run_thread
run_thread-loops now t r msp h = ground arith

Idle-IsServed : (s t : System) → Idle s t → IsServed s → IsServed t
unfolding stop_media stop_rtp stop_flow set_transport_mode
Idle-IsServed s t (stops {msp} {threads}) h r on = ground (arith, h r)
Idle-IsServed s t (sets_mode use_tcp {msp} {threads}) h r on = ground (arith, h r)
Idle-IsServed s t' (runs now before t behind {msp} {threads} here) h r on =
    let left = loops-append r before ((run_thread now t msp).1 ++ behind) in
    let mid = loops-append r (run_thread now t msp).1 behind in
    let was = ap (loops r) here ∙ loops-append r before (t ∷ behind) in
    elim (run_thread-loops now t r msp on) [
      | inl new ↦ omega (arith, left, mid)
      | inr (old, out) ↦ let served = h r old in omega (arith, left, mid, was)
    ]

start_media-is_running :
    (msp after : MediaStreamProxy) (t : Thread) (r : Stream)
    → start_media msp ≡ ok (after, t)
    → is_running r after ≡ is_running r msp
unfolding start_media
start_media-is_running msp after t rtp h = ground arith
start_media-is_running msp after t rtcp h = ground arith
start_media-is_running msp after t tcp h = ground arith

Step-IsServed : (s t : System) → Step s t → IsServed s → IsServed t
unfolding start_media
Step-IsServed s t (idles i) h r on = Idle-IsServed s t i h r on
Step-IsServed s t (starts {msp} {after} {threads} {t = thread} start) h r on =
    let same = start_media-is_running msp after thread r start in
    let served = h r (sym same ∙ on) in omega arith

keep : (s t : System) → Steps s t → IsServed s → IsServed t
keep s t done h = h
keep s u (step {t} i more) h = keep t u more (Step-IsServed s t i h)

unfoldable pub initial : Bytes → ℕ → System
unfolding new_media_stream_proxy
initial session_id now = record { proxy = new_media_stream_proxy session_id now; threads = [] }

initial-IsServed : (session_id : Bytes) (now : ℕ) → IsServed (initial session_id now)
unfolding initial
initial-IsServed session_id now r on = ground arith

-- After any calls of Start, Stop and SetTransportMode and any steps of the goroutines, in any order,
-- from a new media stream proxy, each of the three streams whose proxy is marked as running has a
-- goroutine in its loop.
pub Steps-IsServed :
    (session_id : Bytes) (now : ℕ) (s : System) → Steps (initial session_id now) s → IsServed s
Steps-IsServed session_id now s run =
    keep (initial session_id now) s run (initial-IsServed session_id now)
