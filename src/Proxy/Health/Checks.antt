-- ===== src/Proxy/Health/Checks.antt =====
-- proxy/health_checker.go: what the checks count, and when a check does not come back.
use rtsp_go.Base.{
  ℕ, ◌+◌, ◌^◌, ◌≤◌, ◌<◌, ◌≡◌, refl, ap, ◌∙◌, false, List, [], ◌∷◌, Outcome, returns, blocks, ◌↔◌,
  ◌>>=◌, Bool-cases, inl, inr, arith, length, All, if◌then◌else◌,
}
use rtsp_go.Base.Word.{u64}
use rtsp_go.Proxy.Health.{
  HealthStats, Probe, refused, serving, check_proxy_health, restart_proxy, count_failure,
  handle_proxy_unhealthy, count_check, count_success, perform_health_check,
}

pub perform_health_check-blocks_iff :
    (p : Probe) (st : HealthStats)
    → st.consecutive_failures < 2 ^ 63
    → (perform_health_check p st ≡ blocks)
      ↔ ((check_proxy_health p ≡ false) × (2 ≤ st.consecutive_failures) × (p.restart ≡ serving))
unfolding perform_health_check handle_proxy_unhealthy restart_proxy count_failure count_check
perform_health_check-blocks_iff p st small = ground arith

-- Checks one after the other.
pub run_checks : List Probe → HealthStats → Outcome HealthStats
unfolding perform_health_check
run_checks [] st = returns st
run_checks (p ∷ probes) st = perform_health_check p st >>= run_checks probes

abbrev pub failures : List Probe → ℕ
failures [] = 0
failures (p ∷ probes) = (if check_proxy_health p then 0 else 1) + failures probes

-- The failures since the last success, given those before.
abbrev pub streak : ℕ → List Probe → ℕ
streak n [] = n
streak n (p ∷ probes) = streak (if check_proxy_health p then 0 else n + 1) probes

-- What a run counts.
abbrev pub Counted : List Probe → HealthStats → HealthStats → Type 0
Counted probes st after =
    (after.total_checks ≡ u64 (st.total_checks + length probes))
    × (after.failed_checks ≡ u64 (st.failed_checks + failures probes))
    × (u64 (after.successful_checks + failures probes) ≡ u64 (st.successful_checks + length probes))
    × (after.consecutive_failures ≡ u64 (streak st.consecutive_failures probes))

-- What one check leaves, if no restart succeeds.
pub record Checked (p : Probe) (st after : HealthStats) : Type 0 where
  pub total : after.total_checks ≡ u64 (st.total_checks + 1)
  pub failed :
      after.failed_checks ≡ u64 (st.failed_checks + (if check_proxy_health p then 0 else 1))
  pub successful :
      after.successful_checks ≡ u64 (st.successful_checks + (if check_proxy_health p then 1 else 0))
  pub streak_of :
      after.consecutive_failures
      ≡ u64 (if check_proxy_health p then 0 else st.consecutive_failures + 1)

abbrev pub IsSmall : HealthStats → Type 0
IsSmall st =
    (st.total_checks < 2 ^ 64)
    × (st.failed_checks < 2 ^ 64)
    × (st.successful_checks < 2 ^ 64)
    × (st.consecutive_failures < 2 ^ 64)

perform_health_check-Checked :
    (p : Probe) (st : HealthStats)
    → p.restart ≡ refused
    → IsSmall st
    → (after : HealthStats) × (perform_health_check p st ≡ returns after) × Checked p st after
unfolding perform_health_check handle_proxy_unhealthy restart_proxy count_failure count_check
    count_success
perform_health_check-Checked p st no_restart small =
    let counted = count_check p.now st in
    elim (Bool-cases (check_proxy_health p)) [
      | inl healthy ↦ (
        count_success p.now counted,
        ground arith,
        record {
          total = refl;
          failed = ground arith;
          successful = ground arith;
          streak_of = ground arith;
        },
      )
      | inr unhealthy ↦ (
        count_failure p.now counted,
        ground arith,
        record {
          total = refl;
          failed = ground arith;
          successful = ground arith;
          streak_of = ground arith;
        },
      )
    ]

Checked-IsSmall : (p : Probe) (st after : HealthStats) → Checked p st after → IsSmall after
Checked-IsSmall p st after c = ground arith

streak-mod :
    (probes : List Probe) (m n : ℕ) → u64 m ≡ u64 n → u64 (streak m probes) ≡ u64 (streak n probes)
streak-mod [] m n e = e
streak-mod (p ∷ probes) m n e = elim (Bool-cases (check_proxy_health p)) [
  | inl healthy ↦ rw healthy refl
  | inr unhealthy ↦ rw unhealthy (streak-mod probes (m + 1) (n + 1) (omega arith))
]

Counted-cons :
    (p : Probe) (probes : List Probe) (st next after : HealthStats)
    → Checked p st next
    → Counted probes next after
    → Counted (p ∷ probes) st after
Counted-cons p probes st next after c (t, f, s, k) =
    let streaks =
      streak-mod probes next.consecutive_failures
        (if check_proxy_health p then 0 else st.consecutive_failures + 1) in
    elim (Bool-cases (check_proxy_health p)) [
      | inl healthy ↦ ground (arith, streaks)
      | inr unhealthy ↦ ground (arith, streaks)
    ]

-- Any sequence of checks, none of whose restarts succeeds, comes to its end and counts so (modulo
-- 2^64): TotalChecks grows by the checks, FailedChecks by those that find the proxy not running,
-- without a listener or not to be reached, SuccessfulChecks by the others; and ConsecutiveFailures is
-- the number of failures since the last success, with those before the sequence if there is none.
pub run_checks-Counted :
    (probes : List Probe) (st : HealthStats)
    → All (λ (p : Probe). p.restart ≡ refused) probes
    → IsSmall st
    → (after : HealthStats) × (run_checks probes st ≡ returns after) × Counted probes st after
unfolding run_checks
run_checks-Counted [] st h small = (st, refl, omega arith)
run_checks-Counted (p ∷ probes) st (none_serves, h) small =
    let (next, first, c) = perform_health_check-Checked p st none_serves small in
    let (after, more, counts) = run_checks-Counted probes next h (Checked-IsSmall p st next c) in
    (
      after,
      ap (λ o. o >>= run_checks probes) first ∙ more,
      Counted-cons p probes st next after c counts,
    )
