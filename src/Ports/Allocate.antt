-- ===== src/Ports/Allocate.antt =====
-- rtspProtocon/port_manager.go: what AllocatePorts, ReleasePorts and the cleanup do.
use rtsp_go.Base.{
  ℕ, ◌+◌, ◌-◌, ◌≤◌, ◌<◌, ◌≡◌, refl, ap, true, false, ◌||◌, Option, none, some, Result, ok, err,
  returns, arith, ◌==◌, if◌then◌else◌, le→ltb-false,
}
use rtsp_go.Base.Text.{Bytes}
use rtsp_go.Base.Dict.{lookup, insert, delete, number_eq, lookup-insert, lookup-delete}
use rtsp_go.Base.Sync.{free, lock, unlock, locked}
use rtsp_go.Ports.{
  PortManager, PortAllocation, PortError, no_available_ports, Env, flag, is_used, is_port_available,
  cleanup, cleanup_interval, pair_available, first_pair, mark_pair, take_pair, allocate_ports,
  release_pair, release_ports,
}
use rtsp_go.Ports.Search.{IsFirst, search-IsFirst, IsFirst-head}

-- The first pair of the range, by even steps from its start, or none.
abbrev pub IsFirstPair : PortManager → Env → Option ℕ → Type 0
IsFirstPair pm env = IsFirst (pair_available pm env) 2 pm.rtp_range.last pm.rtp_range.start

first_pair-IsFirst : (pm : PortManager) (env : Env) → IsFirstPair pm env (first_pair pm env)
unfolding first_pair
first_pair-IsFirst pm env =
    search-IsFirst (pair_available pm env) 2 pm.rtp_range.last _ pm.rtp_range.start (omega arith)
      (omega arith)

pub is_used-mark_pair :
    (pm : PortManager) (port other : ℕ)
    → is_used (mark_pair pm port) other ≡ (other == port || other == port + 1 || is_used pm other)
unfolding is_used mark_pair flag
is_used-mark_pair pm port other = ground (
  arith,
  lookup-insert (port + 1) other true (insert port true pm.used_ports),
  lookup-insert port other true pm.used_ports,
)

pub is_used-release_pair :
    (pm : PortManager) (a : PortAllocation) (other : ℕ)
    → is_used (release_pair pm a) other
      ≡ (if other == a.rtp_port || other == a.rtcp_port then false else is_used pm other)
unfolding is_used release_pair flag
is_used-release_pair pm a other = ground (
  arith,
  lookup-delete a.rtcp_port other (delete a.rtp_port pm.used_ports),
  lookup-delete a.rtp_port other pm.used_ports,
)

-- What a call of AllocatePorts gives, by its result, with `pm` the manager after the cleanup: the
-- first available pair, which alone becomes used; or an error, where no pair is available.
abbrev pub Allocated :
    Bytes → Env → PortManager → Result PortError PortAllocation → PortManager → Type 0
Allocated session env pm (ok a) after =
    IsFirstPair pm env (some a.rtp_port)
    × (a.rtcp_port ≡ a.rtp_port + 1)
    × (a.session_id ≡ session)
    × (after ≡ mark_pair pm a.rtp_port)
Allocated session env pm (err e) after =
    IsFirstPair pm env none × (e ≡ no_available_ports) × (after ≡ pm)

take_pair-Allocated :
    (session : Bytes) (env : Env) (pm : PortManager) (o : Option ℕ)
    → IsFirstPair pm env o
    → Allocated session env pm (take_pair pm env session o).0 (take_pair pm env session o).1
unfolding take_pair
take_pair-Allocated session env pm none h = (h, refl, refl)
take_pair-Allocated session env pm (some port) h = (h, refl, refl, refl)

-- AllocatePorts, called with the mutex free, returns with the mutex free. It hands out the first
-- pair (p, p + 1), by even steps through the RTP range, whose ports are both unused, in range and
-- bindable, and marks exactly these two; it fails exactly when there is no such pair, and then
-- changes nothing but what the cleanup does.
pub allocate_ports_lem :
    (session : Bytes) (env : Env) (pm : PortManager)
    → (r : Result PortError PortAllocation) × (after : PortManager) × (allocate_ports session env
          free pm
        ≡ returns (r, free, after))
      × Allocated session env (cleanup pm env) r after
unfolding allocate_ports locked
allocate_ports_lem session env pm =
    let pm' = cleanup pm env in
    let t = take_pair pm' env session (first_pair pm' env) in
    (
      t.0,
      t.1,
      refl,
      take_pair-Allocated session env pm' (first_pair pm' env) (first_pair-IsFirst pm' env),
    )

-- Both ports of a pair that was handed out were unused, in range and bindable.
pub pair_available_parts :
    (pm : PortManager) (env : Env) (port : ℕ)
    → pair_available pm env port ≡ true
    → (is_used pm port ≡ false)
      × (is_used pm (port + 1) ≡ false)
      × (pm.rtp_range.start ≤ port)
      × (port + 1 ≤ pm.rtp_range.last)
      × (env.bindable port ≡ true)
      × (env.bindable (port + 1) ≡ true)
unfolding pair_available is_port_available
pair_available_parts pm env port h = ground arith

-- Releasing the pair that AllocatePorts has just handed out makes every port as used or unused as
-- it was after the cleanup.
pub release_pair-mark_pair :
    (env : Env) (pm : PortManager) (a : PortAllocation) (other : ℕ)
    → pair_available pm env a.rtp_port ≡ true
    → a.rtcp_port ≡ a.rtp_port + 1
    → is_used (release_pair (mark_pair pm a.rtp_port) a) other ≡ is_used pm other
release_pair-mark_pair env pm a other av pair =
    let parts = pair_available_parts pm env a.rtp_port av in
    ground (
      arith,
      is_used-release_pair (mark_pair pm a.rtp_port) a other,
      is_used-mark_pair pm a.rtp_port other,
      ap (is_used pm) pair,
    )

-- With no port marked, the first pair is the start of the range, if it can be bound.
first_pair_unused :
    (env : Env) (pm : PortManager)
    → ((port : ℕ) → is_used pm port ≡ false)
    → pm.rtp_range.start < pm.rtp_range.last
    → env.bindable pm.rtp_range.start ≡ true
    → env.bindable (pm.rtp_range.start + 1) ≡ true
    → first_pair pm env ≡ some pm.rtp_range.start
unfolding pair_available is_port_available
first_pair_unused env pm unused room b0 b1 =
    IsFirst-head (pair_available pm env) 2 pm.rtp_range.last pm.rtp_range.start (first_pair pm env)
      head (omega arith) (first_pair-IsFirst pm env)
  where
    head : pair_available pm env pm.rtp_range.start ≡ true
    head = ground (arith, unused pm.rtp_range.start, unused (pm.rtp_range.start + 1))

first_pair-cleanup :
    (env : Env) (pm : PortManager)
    → cleanup_interval ≤ env.checked_at - pm.last_cleanup
    → pm.rtp_range.start < pm.rtp_range.last
    → env.bindable pm.rtp_range.start ≡ true
    → env.bindable (pm.rtp_range.start + 1) ≡ true
    → first_pair (cleanup pm env) env ≡ some pm.rtp_range.start
unfolding cleanup is_used flag lookup
first_pair-cleanup env pm due room b0 b1 =
    rw (le→ltb-false (env.checked_at - pm.last_cleanup) cleanup_interval due)
      (first_pair_unused env _ (λ port. refl) room b0 b1)

-- Once five minutes have passed since the last cleanup, AllocatePorts hands out the first two
-- ports of a range with two ports or more whenever the system lets them be bound, although
-- another session may hold them.
pub allocate_ports-cleanup :
    (session : Bytes) (env : Env) (pm : PortManager)
    → cleanup_interval ≤ env.checked_at - pm.last_cleanup
    → pm.rtp_range.start < pm.rtp_range.last
    → env.bindable pm.rtp_range.start ≡ true
    → env.bindable (pm.rtp_range.start + 1) ≡ true
    → (a : PortAllocation) × (after : PortManager) × (allocate_ports session env free pm
        ≡ returns (ok a, free, after))
      × (a.rtp_port ≡ pm.rtp_range.start)
unfolding allocate_ports locked take_pair
allocate_ports-cleanup session env pm due room b0 b1 =
    let pm' = cleanup pm env in
    let given : PortAllocation = record {
      rtp_port = pm.rtp_range.start;
      rtcp_port = pm.rtp_range.start + 1;
      allocated_at = env.allocation_time;
      session_id = session;
    } in
    (
      given,
      mark_pair pm' pm.rtp_range.start,
      rw (first_pair-cleanup env pm due room b0 b1) refl,
      refl,
    )

pub release_ports_lem :
    (a : PortAllocation) (pm : PortManager)
    → release_ports a free pm ≡ returns (tt, free, release_pair pm a)
unfolding release_ports locked lock unlock
release_ports_lem a pm = refl
