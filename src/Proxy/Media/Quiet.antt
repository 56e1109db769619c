-- ===== src/Proxy/Media/Quiet.antt =====
-- proxy/media_proxy.go: Stop, while no goroutine is on its way to its loop.
use rtsp_go.Base.{ℕ, ◌+◌, ◌≡◌, refl, sym, ap, ◌∙◌, true, false, List, [], ◌∷◌, ◌++◌, arith, subst}
use rtsp_go.Proxy.Media.{MediaStreamProxy, stop_media, stop_rtp, stop_flow, set_transport_mode}
use rtsp_go.Proxy.Media.Threads.{
  Stream, rtp, rtcp, tcp, Thread, udp_starts, tcp_starts, begins, tests, touches, System,
  is_running, run_thread, Idle, stops, sets_mode, runs, Idles, rest, idle, turn, turns,
}
use rtsp_go.Proxy.Media.Leak.{stop_media_off}

-- A goroutine that is on its way to a loop.
abbrev pub pending : List Thread → ℕ
pending [] = 0
pending (udp_starts ∷ threads) = 1 + pending threads
pending (tcp_starts ∷ threads) = 1 + pending threads
pending (begins r ∷ threads) = 1 + pending threads
pending (tests r ∷ threads) = pending threads
pending (touches r ∷ threads) = pending threads

-- The steps that the goroutines in loops take to leave them.
abbrev pub work : List Thread → ℕ
work [] = 0
work (udp_starts ∷ threads) = work threads
work (tcp_starts ∷ threads) = work threads
work (begins r ∷ threads) = work threads
work (tests r ∷ threads) = 1 + work threads
work (touches r ∷ threads) = 2 + work threads

pending-append : (xs ys : List Thread) → pending (xs ++ ys) ≡ pending xs + pending ys
pending-append [] ys = omega arith
pending-append (udp_starts ∷ xs) ys = omega (arith, pending-append xs ys)
pending-append (tcp_starts ∷ xs) ys = omega (arith, pending-append xs ys)
pending-append (begins r ∷ xs) ys = omega (arith, pending-append xs ys)
pending-append (tests r ∷ xs) ys = omega (arith, pending-append xs ys)
pending-append (touches r ∷ xs) ys = omega (arith, pending-append xs ys)

work-append : (xs ys : List Thread) → work (xs ++ ys) ≡ work xs + work ys
work-append [] ys = omega arith
work-append (udp_starts ∷ xs) ys = omega (arith, work-append xs ys)
work-append (tcp_starts ∷ xs) ys = omega (arith, work-append xs ys)
work-append (begins r ∷ xs) ys = omega (arith, work-append xs ys)
work-append (tests r ∷ xs) ys = omega (arith, work-append xs ys)
work-append (touches r ∷ xs) ys = omega (arith, work-append xs ys)

-- Nothing runs, and no goroutine is on its way to a loop.
abbrev pub IsQuiet : System → Type 0
IsQuiet s =
    (s.proxy.running ≡ false)
    × ((r : Stream) → is_running r s.proxy ≡ false)
    × (pending s.threads ≡ 0)

run_thread-quiet :
    (now : ℕ) (t : Thread) (msp : MediaStreamProxy)
    → ((r : Stream) → is_running r msp ≡ false)
    → pending (t ∷ []) ≡ 0
    → ((run_thread now t msp).0.running ≡ msp.running)
      × ((r : Stream) → is_running r (run_thread now t msp).0 ≡ false)
      × (pending (run_thread now t msp).1 ≡ 0)
      × (1 + work (run_thread now t msp).1 ≡ work (t ∷ []))
unfolding run_thread
run_thread-quiet now udp_starts msp off none_pending = absurd (omega arith)
run_thread-quiet now tcp_starts msp off none_pending = absurd (omega arith)
run_thread-quiet now (begins r) msp off none_pending = absurd (omega arith)
run_thread-quiet now (tests r) msp off none_pending = rw (off r) (refl, off, refl, refl)
run_thread-quiet now (touches rtp) msp off none_pending =
    (refl, λ r. ground (arith, off r), refl, refl)
run_thread-quiet now (touches rtcp) msp off none_pending =
    (refl, λ r. ground (arith, off r), refl, refl)
run_thread-quiet now (touches tcp) msp off none_pending =
    (refl, λ r. ground (arith, off r), refl, refl)

Idle-IsQuiet :
    (s t : System) (i : Idle s t)
    → IsQuiet s
    → IsQuiet t × (turn i + work t.threads ≡ work s.threads)
unfolding set_transport_mode
Idle-IsQuiet s t (stops {msp} {threads}) h = (
  subst (λ p. IsQuiet (record { proxy = p; threads = threads })) (sym (stop_media_off msp h.0)) h,
  omega arith,
)
Idle-IsQuiet s t (sets_mode use_tcp {msp}) (off, streams, none_pending) =
    ((off, λ r. ground (arith, streams r), none_pending), omega arith)
Idle-IsQuiet s t' (runs now before t behind {msp} {threads} here) (off, streams, none_pending) =
    let was = ap pending here ∙ pending-append before (t ∷ behind) in
    let mine = pending-append (t ∷ []) behind in
    let some_work = ap work here ∙ work-append before (t ∷ behind) in
    let mywork = work-append (t ∷ []) behind in
    let alone : pending (t ∷ []) ≡ 0 = omega (arith, none_pending, was, mine) in
    let (same, still, fewer, less) = run_thread-quiet now t msp streams alone in
    let left = pending-append before ((run_thread now t msp).1 ++ behind) in
    let mid = pending-append (run_thread now t msp).1 behind in
    let left_work = work-append before ((run_thread now t msp).1 ++ behind) in
    let mid_work = work-append (run_thread now t msp).1 behind in
    (
      (same ∙ off, still, omega (arith, none_pending, was, mine, left, mid)),
      omega (arith, some_work, mywork, left_work, mid_work),
    )

Idles-IsQuiet :
    (s t : System) (more : Idles s t)
    → IsQuiet s
    → IsQuiet t × (turns more + work t.threads ≡ work s.threads)
Idles-IsQuiet s t rest h = (h, omega arith)
Idles-IsQuiet s u (idle {t} i more) h =
    let (h', first) = Idle-IsQuiet s t i h in
    let (h'', others) = Idles-IsQuiet t u more h' in (h'', omega arith)

stop_media-IsQuiet :
    (msp : MediaStreamProxy) (threads : List Thread)
    → msp.running ≡ true
    → pending threads ≡ 0
    → IsQuiet (record { proxy = stop_media msp; threads = threads })
unfolding stop_media stop_rtp stop_flow
stop_media-IsQuiet msp threads on settled = rw on (refl, λ r. ground arith, settled)

-- If Stop is called on a media stream proxy that is running, while no goroutine is on its way to its
-- loop, then after any continuation without a call of Start the proxy and its three streams are not
-- running, and the steps that the goroutines have taken and those that they have left add up to one
-- for each goroutine that was at its loop's test and two for each that was in its loop's body: all
-- of them come to an end.
pub stop_media-turns :
    (msp : MediaStreamProxy) (threads : List Thread) (t : System)
    (more : Idles (record { proxy = stop_media msp; threads = threads }) t)
    → msp.running ≡ true
    → pending threads ≡ 0
    → IsQuiet t × (turns more + work t.threads ≡ work threads)
stop_media-turns msp threads t more on settled =
    Idles-IsQuiet (record { proxy = stop_media msp; threads = threads }) t more
      (stop_media-IsQuiet msp threads on settled)
