-- ===== src/Proxy/Health/Loops.antt =====
-- proxy/health_checker.go: Start, Stop and the loops that Start spawns, counted.
use rtsp_go.Base.{
  ℕ, zero, suc, ◌+◌, ◌-◌, ◌≡◌, refl, Bool, true, false, Result, ok, err, if◌then◌else◌, arith,
}
use rtsp_go.Proxy.Health.{HealthChecker}

-- A checker, and how many goroutines are in runHealthChecks.
pub record Checker : Type 0 where
  pub checker : HealthChecker
  pub loops : ℕ

pub data StartError : Type 0 where
  already_running : StartError

-- Start
pub start_checker : Checker → Result StartError Checker
start_checker c =
    if c.checker.running
    then err already_running
    else ok (record { checker = record c.checker { running = true }; loops = c.loops + 1 })

-- Stop
pub stop_checker : Checker → Checker
stop_checker c = record c { checker = record c.checker { running = false } }

-- One tick of one goroutine in runHealthChecks: whether it checks, or ends.
pub run_health_checks : Checker → Bool × Checker
run_health_checks c =
    if c.checker.running then (true, c) else (false, record c { loops = c.loops - 1 })

-- Stop and Start, a number of times, between two ticks.
pub restarts : ℕ → Checker → Checker
restarts zero c = c
restarts (suc n) c =
    restarts n (record { checker = record c.checker { running = true }; loops = c.loops + 1 })

-- Each of the restarts is accepted.
restart_step :
    (c : Checker)
    → start_checker (stop_checker c)
      ≡ ok (record { checker = record c.checker { running = true }; loops = c.loops + 1 })
unfolding start_checker stop_checker
restart_step c = refl

-- Every restart before the next tick leaves one more goroutine that checks at each tick.
pub loops-restarts :
    (n : ℕ) (c : Checker)
    → c.checker.running ≡ true
    → ((restarts n c).loops ≡ c.loops + n)
      × (run_health_checks (restarts n c) ≡ (true, restarts n c))
unfolding restarts run_health_checks
loops-restarts zero c on = (omega arith, rw on refl)
loops-restarts (suc n) c on =
    let c' : Checker = record {
      checker = record c.checker { running = true };
      loops = c.loops + 1;
    } in
    let (count, checks) = loops-restarts n c' refl in (omega (arith, count), checks)
