-- ===== src/Proxy/Media/Threads.antt =====
-- proxy/media_proxy.go: the goroutines of a media stream proxy, as threads that take turns.
use rtsp_go.Base.{ℕ, ◌+◌, Bool, true, List, [], ◌∷◌, ◌++◌, ◌≡◌, Result, ok, err, if◌then◌else◌}
use rtsp_go.Proxy.Media.{FlowProxy, MediaStreamProxy, stop_media, set_transport_mode}

-- The three loops.
pub data Stream : Type 0 where
  rtp rtcp tcp : Stream

-- A goroutine: in startUDPStreamProxy or startTCPStreamProxy, before the loop of a stream, at the
-- loop's test, or in the loop's body.
pub data Thread : Type 0 where
  udp_starts tcp_starts : Thread
  begins tests touches : Stream → Thread

-- A proxy and its goroutines.
pub record System : Type 0 where
  pub proxy : MediaStreamProxy
  pub threads : List Thread

pub data StartError : Type 0 where
  already_running : StartError

-- Start, which gives the new goroutine.
unfoldable pub start_media : MediaStreamProxy → Result StartError (MediaStreamProxy × Thread)
start_media msp =
    if msp.running
    then err already_running
    else ok
        (record msp { running = true }, if msp.use_tcp_transport then tcp_starts else udp_starts)

abbrev pub is_running : Stream → MediaStreamProxy → Bool
is_running rtp msp = msp.rtp_proxy.running
is_running rtcp msp = msp.rtcp_proxy.running
is_running tcp msp = msp.tcp_proxy.running

set_running : Stream → MediaStreamProxy → MediaStreamProxy
set_running rtp msp = record msp { rtp_proxy = record msp.rtp_proxy { running = true } }
set_running rtcp msp = record msp { rtcp_proxy = record msp.rtcp_proxy { running = true } }
set_running tcp msp = record msp { tcp_proxy = record msp.tcp_proxy { running = true } }

touch_flow : ℕ → FlowProxy → FlowProxy
touch_flow now p = record p { stats = record p.stats { last_activity = now } }

touch : ℕ → Stream → MediaStreamProxy → MediaStreamProxy
unfolding touch_flow
touch now rtp msp = record msp {
  rtp_proxy = record msp.rtp_proxy { stats = record msp.rtp_proxy.stats { last_activity = now } };
}
touch now rtcp msp = record msp { rtcp_proxy = touch_flow now msp.rtcp_proxy }
touch now tcp msp = record msp { tcp_proxy = touch_flow now msp.tcp_proxy }

-- startUDPStreamProxy, startTCPStreamProxy, startRTPProxy, startRTCPProxy and startTCPProxy: one step
-- of a goroutine, and the goroutines that there are then in its place.
unfoldable pub run_thread : ℕ → Thread → MediaStreamProxy → MediaStreamProxy × List Thread
unfolding set_running touch
run_thread now udp_starts msp = (msp, begins rtp ∷ begins rtcp ∷ [])
run_thread now tcp_starts msp = (msp, begins tcp ∷ [])
run_thread now (begins s) msp = (set_running s msp, tests s ∷ [])
run_thread now (tests s) msp = (msp, if is_running s msp then touches s ∷ [] else [])
run_thread now (touches s) msp = (touch now s msp, tests s ∷ [])

-- A call of Stop or SetTransportMode, or a step of any one goroutine.
pub data Idle : System → System → Type 0 where
  stops :
      {msp : MediaStreamProxy} {threads : List Thread}
      → Idle
          (record { proxy = msp; threads = threads })
          (record { proxy = stop_media msp; threads = threads })
  sets_mode :
      (use_tcp : Bool) {msp : MediaStreamProxy} {threads : List Thread}
      → Idle
          (record { proxy = msp; threads = threads })
          (record { proxy = set_transport_mode use_tcp msp; threads = threads })
  runs :
      (now : ℕ) (before : List Thread) (t : Thread) (behind : List Thread) {msp : MediaStreamProxy}
      {threads : List Thread}
      → threads ≡ before ++ t ∷ behind
      → Idle
          (record { proxy = msp; threads = threads })
          (record {
            proxy = (run_thread now t msp).0;
            threads = before ++ ((run_thread now t msp).1 ++ behind);
          })

-- That, or a call of Start that succeeds.
pub data Step : System → System → Type 0 where
  idles : {s t : System} → Idle s t → Step s t
  starts :
      {msp after : MediaStreamProxy} {threads : List Thread} {t : Thread}
      → start_media msp ≡ ok (after, t)
      → Step
          (record { proxy = msp; threads = threads })
          (record { proxy = after; threads = t ∷ threads })

pub data Steps : System → System → Type 0 where
  done : {s : System} → Steps s s
  step : {s t u : System} → Step s t → Steps t u → Steps s u

-- Steps without a call of Start.
pub data Idles : System → System → Type 0 where
  rest : {s : System} → Idles s s
  idle : {s t u : System} → Idle s t → Idles t u → Idles s u

-- How many of them are steps of goroutines.
abbrev pub turn : {s t : System} → Idle s t → ℕ
turn stops = 0
turn (sets_mode use_tcp) = 0
turn (runs now before t behind here) = 1

abbrev pub turns : {s t : System} → Idles s t → ℕ
turns rest = 0
turns (idle i more) = turn i + turns more

abbrev same : Stream → Stream → ℕ
same rtp rtp = 1
same rtcp rtcp = 1
same tcp tcp = 1
same _ _ = 0

-- One for a goroutine in the loop of a stream.
abbrev pub in_loop : Stream → Thread → ℕ
in_loop s udp_starts = 0
in_loop s tcp_starts = 0
in_loop s (begins r) = 0
in_loop s (tests r) = same s r
in_loop s (touches r) = same s r

abbrev pub loops : Stream → List Thread → ℕ
loops s [] = 0
loops s (t ∷ threads) = in_loop s t + loops s threads
