-- ===== src/Proxy/Health/Examples.antt =====
-- proxy/health_checker.go on concrete checks: tests, and instances of the theorems.
use rtsp_go.Base.{◌≡◌, refl, true, false, [], ◌∷◌, List, returns, blocks, arith}
use rtsp_go.Base.Text.{codes}
use rtsp_go.Proxy.Health.{
  HealthStats, Probe, refused, serving, new_health_checker, check_proxy_health,
  perform_health_check, extract_host_port, health_status,
}
use rtsp_go.Proxy.Health.Checks.{
  run_checks, Counted, perform_health_check-blocks_iff, run_checks-Counted,
}
use rtsp_go.Proxy.Health.HostPort.{extract_host_port_lem}

abbrev failing : HealthStats
failing = record (new_health_checker 5).stats { consecutive_failures = 2; failed_checks = 2 }

abbrev down : Probe
down = record {
  proxy_running = true;
  has_listener = true;
  dial_fails = true;
  now = 9;
  restart = serving;
}

restart_hides_checks : perform_health_check down failing ≡ blocks
unfolding check_proxy_health
restart_hides_checks =
    (perform_health_check-blocks_iff down failing (omega arith)).1 (refl, omega arith, refl)

abbrev probes : List Probe
probes =
    record down { restart = refused } ∷ record down { dial_fails = false; restart = refused } ∷ []

run_checks-Counted_example :
    (after : HealthStats) × (run_checks probes failing ≡ returns after)
    × Counted probes failing after
unfolding new_health_checker
run_checks-Counted_example = run_checks-Counted probes failing (refl, (refl, tt)) (omega arith)

failing_status : health_status failing ≡ 503
unfolding health_status
failing_status = refl

live_host : extract_host_port (codes "rtsp://h:8554/live") ≡ codes "h:8554"
live_host = (extract_host_port_lem b'h' (codes ":8554") (codes "/live") (omega arith) refl).0
