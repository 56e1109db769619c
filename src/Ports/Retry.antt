-- ===== src/Ports/Retry.antt =====
-- rtspProtocon/port_manager.go: AllocatePortsWithRetry.
use rtsp_go.Base.{
  ℕ, zero, suc, ◌+◌, ◌<◌, ◌≡◌, refl, ap, ◌∙◌, Option, none, some, Result, ok, err, Outcome, returns,
  arith, ltb, ltb→lt, ltb-false, Bool-cases, inl, inr,
}
use rtsp_go.Base.Text.{Bytes}
use rtsp_go.Base.Sync.{RwMutex, feed, free}
use rtsp_go.Ports.{
  PortManager, PortAllocation, PortError, no_available_ports, Env, cleanup, mark_pair,
  allocate_ports, RetryError, retry, allocate_ports_with_retry,
}
use rtsp_go.Ports.Allocate.{IsFirstPair, Allocated, allocate_ports_lem}

-- The manager after the cleanups of the first `attempts` attempts.
pub cleaned : (ℕ → Env) → PortManager → ℕ → PortManager
cleaned envs pm zero = pm
cleaned envs pm (suc attempts) = cleanup (cleaned envs pm attempts) (envs attempts)

-- Attempt number k finds `o` as its first pair.
abbrev pub Finds : (ℕ → Env) → PortManager → ℕ → Option ℕ → Type 0
Finds envs pm k o = IsFirstPair (cleaned envs pm (suc k)) (envs k) o

-- The first `n` attempts find no pair.
abbrev pub AllFail : (ℕ → Env) → PortManager → ℕ → Type 0
AllFail envs pm n = (k : ℕ) → k < n → Finds envs pm k none

-- The last error after `n` failed attempts.
pub last_error_of : ℕ → Option PortError
last_error_of zero = none
last_error_of (suc n) = some no_available_ports

-- What `n` attempts should give.
abbrev pub Retried :
    (ℕ → Env) → PortManager → ℕ → Result RetryError PortAllocation → PortManager → Type 0
Retried envs pm n (ok a) after =
    (k : ℕ) × (k < n)
    × AllFail envs pm k
    × Finds envs pm k (some a.rtp_port)
    × (a.rtcp_port ≡ a.rtp_port + 1)
    × (after ≡ mark_pair (cleaned envs pm (suc k)) a.rtp_port)
Retried envs pm n (err e) after =
    AllFail envs pm n
    × (e.attempts ≡ n)
    × (e.last_error ≡ last_error_of n)
    × (after ≡ cleaned envs pm n)

one_more :
    (envs : ℕ → Env) (pm : PortManager) (n : ℕ)
    → AllFail envs pm n
    → Finds envs pm n none
    → AllFail envs pm (suc n)
one_more envs pm n h last k hk = elim (Bool-cases (ltb k n)) [
  | inl before ↦ h k (ltb→lt k n before)
  | inr not_before ↦
      let at : k ≡ n = (let beyond = ltb-false k n not_before in omega arith) in rw at last
]

-- A call returns with the mutex free, as it should after `n` attempts.
abbrev Returns :
    (ℕ → Env)
    → PortManager
    → ℕ
    → Outcome (Result RetryError PortAllocation × RwMutex × PortManager)
    → Type 0
Returns envs pm n o =
    (r : Result RetryError PortAllocation) × (after : PortManager) × (o ≡ returns (r, free, after))
    × Retried envs pm n r after

-- The attempts from number `attempt` on.
abbrev Rest : Bytes → ℕ → (ℕ → Env) → PortManager → ℕ → ℕ → Type 0
Rest session limit envs pm left attempt =
    AllFail envs pm attempt
    → Returns envs pm limit (
        retry session limit envs left attempt (last_error_of attempt) free
          (cleaned envs pm attempt))

retry_round :
    (session : Bytes) (limit : ℕ) (envs : ℕ → Env) (pm : PortManager) (left attempt : ℕ)
    → attempt < limit
    → Rest session limit envs pm left (suc attempt)
    → (r : Result PortError PortAllocation) (after : PortManager)
    → allocate_ports session (envs attempt) free (cleaned envs pm attempt)
      ≡ returns (r, free, after)
    → Allocated session (envs attempt) (cleaned envs pm (suc attempt)) r after
    → Rest session limit envs pm (suc left) attempt
unfolding retry cleaned last_error_of
retry_round session limit envs pm left attempt more rest (ok a) after run
      (first, pair, owner, marked) failed =
    (ok a, after, ap (feed _) run, (attempt, more, failed, first, pair, marked))
retry_round session limit envs pm left attempt more rest (err e) after run (first, is_none, same)
      failed =
    let (r, end, next, good) = rest (one_more envs pm attempt failed first) in
    (r, end, ap (feed _) run ∙ rw (is_none, same) next, good)

retry_lem :
    (session : Bytes) (limit : ℕ) (envs : ℕ → Env) (pm : PortManager) (left attempt : ℕ)
    → attempt + left ≡ limit
    → Rest session limit envs pm left attempt
unfolding retry cleaned
retry_lem session limit envs pm zero attempt total failed = (
  err (record { attempts = limit; last_error = last_error_of attempt }),
  cleaned envs pm attempt,
  refl,
  (
    (λ k hk. failed k (omega arith)),
    refl,
    ap last_error_of (omega arith),
    ap (cleaned envs pm) (omega arith),
  ),
)
retry_lem session limit envs pm (suc left) attempt total failed =
    let (r, after, run, given) =
      allocate_ports_lem session (envs attempt) (cleaned envs pm attempt) in
    retry_round session limit envs pm left attempt (omega arith)
      (retry_lem session limit envs pm left (suc attempt) (omega arith)) r after run given failed

-- AllocatePortsWithRetry, called with the mutex free, returns with the mutex free after at most the
-- given number of attempts. It gives the first pair that the first successful attempt finds, and
-- marks it; it fails exactly when every attempt finds no pair, with the number of attempts and the
-- last error (none, where no attempt was asked for).
pub allocate_ports_with_retry_lem :
    (session : Bytes) (limit : ℕ) (envs : ℕ → Env) (pm : PortManager)
    → (r : Result RetryError PortAllocation) × (after : PortManager) × (allocate_ports_with_retry
          session limit envs free pm
        ≡ returns (r, free, after))
      × Retried envs pm limit r after
unfolding allocate_ports_with_retry last_error_of cleaned
allocate_ports_with_retry_lem session limit envs pm =
    retry_lem session limit envs pm limit 0 (omega arith) (λ k hk. absurd (omega arith))
