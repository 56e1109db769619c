-- ===== src/Proxy/Health.antt =====
-- proxy/health_checker.go: the health checker, its checks and counters, and its HTTP answers.
-- What the checks find out, about the proxy and by dialling, is an argument of theirs.
pub mod Checks
pub mod Loops
pub mod HostPort
pub mod Examples
use rtsp_go.Base.{
  ℕ, zero, suc, ◌+◌, ◌-◌, ◌*◌, ◌%◌, ◌^◌, Bool, true, false, not, ◌&&◌, List, [], ◌∷◌, ◌++◌, Option,
  none, some, Result, ok, err, Outcome, returns, blocks, panics, if◌then◌else◌, length, drop, take,
  ltb, leb, ◌==◌, ◌>>=◌,
}
use rtsp_go.Base.Word.{u64}
use rtsp_go.Base.Text.{Bytes, codes, has_prefix}
use rtsp_go.Base.Report.{Report, Value, count, text, flag, moment, report}

pub record HealthStats : Type 0 where
  pub total_checks : ℕ  -- uint64, as the other counters
  pub successful_checks : ℕ
  pub failed_checks : ℕ
  pub consecutive_failures : ℕ
  pub last_check_time : ℕ
  pub last_success_time : ℕ
  pub last_failure_time : ℕ

-- The intervals are durations in nanoseconds.
pub record HealthChecker : Type 0 where
  pub check_interval : ℕ
  pub timeout : ℕ
  pub running : Bool
  pub stats : HealthStats

-- NewHealthChecker at the time `now`.
pub new_health_checker : ℕ → HealthChecker
new_health_checker now = record {
  check_interval = 30 * 10 ^ 9;
  timeout = 10 * 10 ^ 9;
  running = false;
  stats = record {
    total_checks = 0;
    successful_checks = 0;
    failed_checks = 0;
    consecutive_failures = 0;
    last_check_time = now;
    last_success_time = 0;
    last_failure_time = 0;
  };
}

-- The proxy's Start after its Stop: its port is refused; or it serves, and Start comes back only when
-- the proxy has been stopped again, or not at all.
pub data Restart : Type 0 where
  refused stopped_again serving : Restart

-- What one check meets: the proxy's own state, whether dialling its port fails, the clock, and what
-- would become of a restart.
pub record Probe : Type 0 where
  pub proxy_running : Bool
  pub has_listener : Bool
  pub dial_fails : Bool
  pub now : ℕ
  pub restart : Restart

-- checkProxyHealth
unfoldable pub check_proxy_health : Probe → Bool
check_proxy_health p =
    if not p.proxy_running then false else if not p.has_listener then false else not p.dial_fails

-- restartProxy
unfoldable pub restart_proxy : Restart → HealthStats → Outcome HealthStats
restart_proxy refused st = returns st
restart_proxy stopped_again st = returns (record st { consecutive_failures = 0 })
restart_proxy serving st = blocks

count_failure : ℕ → HealthStats → HealthStats
count_failure now st = record st {
  failed_checks = u64 (st.failed_checks + 1);
  last_failure_time = now;
  consecutive_failures = u64 (st.consecutive_failures + 1);
}

-- handleProxyUnhealthy
unfoldable pub handle_proxy_unhealthy : Probe → HealthStats → Outcome HealthStats
unfolding count_failure restart_proxy
handle_proxy_unhealthy p st =
    let counted = count_failure p.now st in
    if leb 3 counted.consecutive_failures then restart_proxy p.restart counted else returns counted

count_check : ℕ → HealthStats → HealthStats
count_check now st = record st { total_checks = u64 (st.total_checks + 1); last_check_time = now }

count_success : ℕ → HealthStats → HealthStats
count_success now st = record st {
  successful_checks = u64 (st.successful_checks + 1);
  last_success_time = now;
  consecutive_failures = 0;
}

-- performHealthCheck. What the checks of the upstream servers and of the sessions find is only
-- logged.
unfoldable pub perform_health_check : Probe → HealthStats → Outcome HealthStats
unfolding check_proxy_health handle_proxy_unhealthy count_check count_success
perform_health_check p st =
    let counted = count_check p.now st in
    if check_proxy_health p
    then returns (count_success p.now counted)
    else handle_proxy_unhealthy p counted

pub record UpstreamHealth : Type 0 where
  pub url : Bytes
  pub last_check : ℕ
  pub is_healthy : Bool
  pub response_time : ℕ
  pub consecutive_failures : ℕ
  pub last_error : Option Bytes

-- checkUpstreamServer, started and ended at two times, with the error of the dial.
pub check_upstream_server : Bytes → ℕ → ℕ → Option Bytes → UpstreamHealth
check_upstream_server url start stop dial =
    let health : UpstreamHealth = record {
      url = url;
      last_check = start;
      is_healthy = false;
      response_time = 0;
      consecutive_failures = 0;
      last_error = none;
    } in
    elim dial [
      | some e ↦ record health { last_error = some e; consecutive_failures = 1 }
      | none ↦ record health { is_healthy = true; response_time = stop - start }
    ]

-- The text before the first slash.
before_slash : Bytes → Bytes
before_slash [] = []
before_slash (c ∷ s) = let rest = before_slash s in if c == b'/' then [] else c ∷ rest

-- extractHostPort
pub extract_host_port : Bytes → Bytes
unfolding before_slash
extract_host_port url =
    before_slash
      (if ltb 7 (length url) && has_prefix url (codes "rtsp://") then drop 7 url else url)

-- The status of the answer at /health, and that at /ready.
pub health_status : HealthStats → ℕ
health_status st = if ltb 0 st.consecutive_failures then 503 else 200

pub ready_status : Bool → ℕ
ready_status proxy_running = if proxy_running then 200 else 503

-- SetCheckInterval
pub set_check_interval : ℕ → HealthChecker → HealthChecker
set_check_interval interval hc = record hc { check_interval = interval }

-- SetTimeout
pub set_timeout : ℕ → HealthChecker → HealthChecker
set_timeout timeout hc = record hc { timeout = timeout }

-- GetStats, where `rate` prints the percentage of two counts and `span` a duration.
pub health_report : (ℕ → ℕ → Bytes) → (ℕ → Bytes) → HealthChecker → Report
health_report rate span hc = report (
    (codes "running", flag hc.running)
    ∷ (codes "total_checks", count hc.stats.total_checks)
    ∷ (codes "successful_checks", count hc.stats.successful_checks)
    ∷ (codes "failed_checks", count hc.stats.failed_checks)
    ∷ (codes "success_rate", text (rate hc.stats.successful_checks hc.stats.total_checks))
    ∷ (codes "consecutive_failures", count hc.stats.consecutive_failures)
    ∷ (codes "last_check_time", moment hc.stats.last_check_time)
    ∷ (codes "last_success_time", moment hc.stats.last_success_time)
    ∷ (codes "last_failure_time", moment hc.stats.last_failure_time)
    ∷ (codes "check_interval", text (span hc.check_interval))
    ∷ (codes "timeout", text (span hc.timeout))
    ∷ [])
