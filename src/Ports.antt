-- ===== src/Ports.antt =====
-- rtspProtocon/port_manager.go: the pool of UDP port pairs, and the history of allocations.
-- A port or a bound is a non-negative int: the source makes no manager with a negative bound, and
-- SetPortRange refuses one. `Env` holds what a call learns from outside: the times that it reads and
-- the ports that the system lets it bind (ResolveUDPAddr and ListenUDP succeed).
pub mod Search
pub mod Allocate
pub mod Mutex
pub mod Retry
pub mod Ledger
pub mod Ranges
pub mod History
pub mod Examples
use rtsp_go.Base.{
  ℕ, zero, suc, ◌+◌, ◌-◌, ◌*◌, ◌^◌, Bool, true, false, ◌&&◌, ◌||◌, List, [], ◌∷◌, ◌++◌, Option,
  none, some, Result, ok, err, Outcome, ltb, leb, ◌==◌, if◌then◌else◌, length,
}
use rtsp_go.Base.Int.{ℤ, sub_ℕ}
use rtsp_go.Base.Text.{Bytes, codes}
use rtsp_go.Base.Text.Decimal.{itoa}
use rtsp_go.Base.Dict.{Dict, lookup, insert, delete, number_eq}
use rtsp_go.Base.Sync.{Method, pure, get, modify, ◌>>=◌, ◌>>◌, locked, rlocked}

pub record PortRange : Type 0 where
  pub start : ℕ
  pub last : ℕ

pub record PortManager : Type 0 where
  pub rtp_range : PortRange
  pub rtcp_range : PortRange
  pub used_ports : Dict ℕ Bool
  pub last_cleanup : ℕ

pub record PortAllocation : Type 0 where
  pub rtp_port : ℕ
  pub rtcp_port : ℕ
  pub allocated_at : ℕ
  pub session_id : Bytes

pub data PortError : Type 0 where
  no_available_ports too_few_ports : PortError
  bad_rtp_start bad_rtp_end bad_rtcp_start bad_rtcp_end : PortError

pub record Env : Type 0 where
  pub checked_at : ℕ
  pub cleaned_at : ℕ
  pub allocation_time : ℕ
  pub bindable : ℕ → Bool

-- NewPortManager at the time `now`.
pub new_port_manager : ℕ → ℕ → ℕ → ℕ → ℕ → PortManager
new_port_manager rtp_start rtp_end rtcp_start rtcp_end now = record {
  rtp_range = record { start = rtp_start; last = rtp_end };
  rtcp_range = record { start = rtcp_start; last = rtcp_end };
  used_ports = [];
  last_cleanup = now;
}

pub new_default_port_manager : ℕ → PortManager
unfolding new_port_manager
new_default_port_manager now = new_port_manager 5000 6000 5000 6000 now

-- A key that is not in the map reads as false.
flag : Option Bool → Bool
flag none = false
flag (some b) = b

-- pm.UsedPorts[port]
pub is_used : PortManager → ℕ → Bool
is_used pm port = flag (lookup port pm.used_ports)

-- isPortAvailable
pub is_port_available : PortManager → Env → ℕ → Bool
is_port_available pm env port =
    if is_used pm port
    then false
    else if ltb port pm.rtp_range.start || ltb pm.rtp_range.last port
    then false
    else env.bindable port

-- Five minutes in nanoseconds.
abbrev pub cleanup_interval : ℕ
cleanup_interval = 5 * 60 * 10 ^ 9

-- cleanupExpiredPorts
pub cleanup : PortManager → Env → PortManager
cleanup pm env =
    if ltb (env.checked_at - pm.last_cleanup) cleanup_interval
    then pm
    else record pm { used_ports = []; last_cleanup = env.cleaned_at }

-- `for port := …; port <= last; port += stride { if test(port) { return port } }`. The port grows in
-- each round, so last + 1 - port rounds are enough.
pub search : (ℕ → Bool) → ℕ → ℕ → ℕ → ℕ → Option ℕ
search test stride last zero port = none
search test stride last (suc fuel) port = elim (leb port last) [
  | false ↦ none
  | true ↦ elim (test port) [
    | true ↦ some port
    | false ↦ search test stride last fuel (port + stride)
  ]
]

pub pair_available : PortManager → Env → ℕ → Bool
pair_available pm env port = is_port_available pm env port && is_port_available pm env (port + 1)

pub first_pair : PortManager → Env → Option ℕ
first_pair pm env =
    search (pair_available pm env) 2 pm.rtp_range.last (pm.rtp_range.last + 1 - pm.rtp_range.start)
      pm.rtp_range.start

pub mark_pair : PortManager → ℕ → PortManager
mark_pair pm port = record pm {
  used_ports = insert (port + 1) true (insert port true pm.used_ports);
}

take_pair : PortManager → Env → Bytes → Option ℕ → Result PortError PortAllocation × PortManager
take_pair pm env session none = (err no_available_ports, pm)
take_pair pm env session (some port) = (
  ok (record {
    rtp_port = port;
    rtcp_port = port + 1;
    allocated_at = env.allocation_time;
    session_id = session;
  }),
  mark_pair pm port,
)

-- A method that computes its value and the next state.
abbrev pub update : {S A : Type 0} → (S → A × S) → Method S A
update f m s = Outcome.returns ((f s).0, m, (f s).1)

-- AllocatePorts
pub allocate_ports : Bytes → Env → Method PortManager (Result PortError PortAllocation)
unfolding take_pair
allocate_ports session env =
    locked (update λ pm. let pm' = cleanup pm env in take_pair pm' env session (first_pair pm' env))

-- ReleasePorts
pub release_pair : PortManager → PortAllocation → PortManager
release_pair pm a = record pm { used_ports = delete a.rtcp_port (delete a.rtp_port pm.used_ports) }

pub release_ports : PortAllocation → Method PortManager (Unit {0})
release_ports a = locked (modify λ pm. release_pair pm a)

-- The error of AllocatePortsWithRetry: the number of attempts, and the last error.
pub record RetryError : Type 0 where
  pub attempts : ℕ
  pub last_error : Option PortError

-- The attempts from number `attempt` on, `left` in all; `envs` is what each attempt finds.
retry :
    Bytes
    → ℕ
    → (ℕ → Env)
    → ℕ
    → ℕ
    → Option PortError
    → Method PortManager (Result RetryError PortAllocation)
retry session limit envs zero attempt e = pure (err (record { attempts = limit; last_error = e }))
retry session limit envs (suc left) attempt e = do
  r ← allocate_ports session (envs attempt)
  elim r [ ok a ↦ pure (ok a) | err e' ↦ retry session limit envs left (suc attempt) (some e') ]

-- AllocatePortsWithRetry; the waits between the attempts leave the manager unlocked.
pub allocate_ports_with_retry :
    Bytes → ℕ → (ℕ → Env) → Method PortManager (Result RetryError PortAllocation)
unfolding retry
allocate_ports_with_retry session limit envs = retry session limit envs limit 0 none

release_all : List PortAllocation → Method PortManager (Unit {0})
release_all [] = pure tt
release_all (a ∷ as_) = do release_ports a; release_all as_

-- The rounds i, i + 1, … of PreAllocatePorts, `left` in all.
pre_allocate :
    (ℕ → Env)
    → ℕ
    → ℕ
    → List PortAllocation
    → Method PortManager (Result PortError (List PortAllocation))
unfolding release_all
pre_allocate envs zero i done = pure (ok done)
pre_allocate envs (suc left) i done = do
  r ← allocate_ports (codes "prealloc-" ++ itoa i) (envs i)
  elim r [
    | ok a ↦ pre_allocate envs left (suc i) (done ++ a ∷ [])
    | err e ↦ (release_all done >> pure (err e))
  ]

-- PreAllocatePorts: it holds the mutex while it calls AllocatePorts.
pub pre_allocate_ports : ℕ → (ℕ → Env) → Method PortManager (Result PortError (List PortAllocation))
unfolding pre_allocate
pre_allocate_ports count envs = locked (pre_allocate envs count 0 [])
