-- ===== src/Proxy/Media/Examples.antt =====
-- proxy/media_proxy.go on concrete proxies: tests, and instances of the theorems.
use rtsp_go.Base.{◌+◌, ◌≡◌, refl, true, false, [], ◌∷◌, ◌++◌, none, some, err, arith, length}
use rtsp_go.Base.Text.{codes}
use rtsp_go.Proxy.Media.{
  MediaStreamProxy, Round, new_media_stream_proxy, stop_media, rtp_not_running, forward_rtp_packet,
  forward_data,
}
use rtsp_go.Proxy.Media.Threads.{
  rtp, udp_starts, tests, touches, System, start_media, run_thread, Idles, rest, idle, runs, starts,
  Steps, done, step, turns,
}
use rtsp_go.Proxy.Media.Served.{IsServed, initial, Steps-IsServed}
use rtsp_go.Proxy.Media.Quiet.{IsQuiet, work, stop_media-turns}
use rtsp_go.Proxy.Media.Forward.{name, Copied, contents, forward_data-Copied}

abbrev begun : MediaStreamProxy
begun = record (new_media_stream_proxy (codes "s") 5) { running = true }

abbrev begun_system : System
begun_system = record { proxy = begun; threads = udp_starts ∷ [] }

begun_run : Steps (initial (codes "s") 5) begun_system
unfolding initial new_media_stream_proxy start_media
begun_run = step (starts {after = begun} {t = udp_starts} refl) done

Steps-IsServed_example : IsServed begun_system
Steps-IsServed_example = Steps-IsServed (codes "s") 5 begun_system begun_run

abbrev stopped : System
stopped = record { proxy = stop_media begun; threads = touches rtp ∷ [] }

abbrev later : System
later = record {
  proxy = (run_thread 6 (touches rtp) (stop_media begun)).0;
  threads = tests rtp ∷ [];
}

one_turn : Idles stopped later
unfolding run_thread
one_turn = idle (runs 6 [] (touches rtp) [] refl) rest

stop_media-turns_example :
    IsQuiet later × (turns one_turn + work later.threads ≡ work (touches rtp ∷ []))
unfolding new_media_stream_proxy
stop_media-turns_example = stop_media-turns begun (touches rtp ∷ []) later one_turn refl refl

abbrev round : Round
round = record { bytes = codes "abc"; read_fails = false; write_fails = none; now = 6 }

abbrev cut : Round
cut = record { bytes = codes "de"; read_fails = false; write_fails = some 1; now = 7 }

forward_data-Copied_example :
    Copied rtp begun
      ([] ++ (contents (round ∷ []) ++ codes "d"))
      (length (contents (round ∷ [])))
      (forward_data (name rtp) ((round ∷ []) ++ cut ∷ round ∷ []) [] begun)
unfolding new_media_stream_proxy
forward_data-Copied_example =
    forward_data-Copied rtp (round ∷ []) cut (round ∷ []) [] (codes "d") begun ((refl, refl), tt)
      refl (omega arith)

refused : forward_rtp_packet (codes "x") 6 begun.rtp_proxy ≡ err rtp_not_running
unfolding forward_rtp_packet new_media_stream_proxy
refused = refl
