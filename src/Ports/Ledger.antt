-- ===== src/Ports/Ledger.antt =====
-- rtspProtocon/port_manager.go: the allocations that sessions hold at one time.
use rtsp_go.Base.{
  ◌+◌, ◌-◌, ◌<◌, ◌≡◌, ◌≢◌, true, List, [], ◌∷◌, Result, ok, err, Outcome, returns, blocks, panics,
  All,
}
use rtsp_go.Base.Text.{Bytes}
use rtsp_go.Base.Sync.{RwMutex, free}
use rtsp_go.Ports.{
  PortManager, PortAllocation, PortError, Env, is_used, cleanup_interval, allocate_ports,
  release_ports,
}
use rtsp_go.Ports.Allocate.{Allocated}

-- The pool and the allocations handed out and not yet released.
pub record Ledger : Type 0 where
  pub pool : PortManager
  pub held : List PortAllocation

-- `rest` is `all` without one occurrence of `a`.
pub data Removes (a : PortAllocation) : List PortAllocation → List PortAllocation → Type 0 where
  here : {xs : List PortAllocation} → Removes a (a ∷ xs) xs
  there :
      {b : PortAllocation} {xs ys : List PortAllocation}
      → Removes a xs ys
      → Removes a (b ∷ xs) (b ∷ ys)

-- A call of AllocatePorts or of ReleasePorts, while no cleanup is due.
pub data Step : Ledger → Ledger → Type 0 where
  allocates :
      (session : Bytes) (env : Env) {pm after : PortManager} {a : PortAllocation}
      {held : List PortAllocation}
      → env.checked_at - pm.last_cleanup < cleanup_interval
      → allocate_ports session env free pm ≡ returns (ok a, free, after)
      → Step (record { pool = pm; held = held }) (record { pool = after; held = a ∷ held })
  refuses :
      (session : Bytes) (env : Env) {pm after : PortManager} {e : PortError}
      {held : List PortAllocation}
      → env.checked_at - pm.last_cleanup < cleanup_interval
      → allocate_ports session env free pm ≡ returns (err e, free, after)
      → Step (record { pool = pm; held = held }) (record { pool = after; held = held })
  releases :
      {pm after : PortManager} {a : PortAllocation} {held rest : List PortAllocation}
      → Removes a held rest
      → release_ports a free pm ≡ returns (tt, free, after)
      → Step (record { pool = pm; held = held }) (record { pool = after; held = rest })

pub data Steps : Ledger → Ledger → Type 0 where
  done : {l : Ledger} → Steps l l
  step : {l m n : Ledger} → Step l m → Steps m n → Steps l n

-- A held pair is marked in the pool, and its ports are neighbours.
abbrev pub IsMarked : PortManager → PortAllocation → Type 0
IsMarked pm a =
    (is_used pm a.rtp_port ≡ true)
    × (is_used pm a.rtcp_port ≡ true)
    × (a.rtcp_port ≡ a.rtp_port + 1)

-- Two pairs share no port.
abbrev pub Apart : PortAllocation → PortAllocation → Type 0
Apart a b =
    (a.rtp_port ≢ b.rtp_port)
    × (a.rtp_port ≢ b.rtcp_port)
    × (a.rtcp_port ≢ b.rtp_port)
    × (a.rtcp_port ≢ b.rtcp_port)

abbrev pub AllApart : List PortAllocation → Type 0
AllApart [] = Unit
AllApart (a ∷ as_) = All (Apart a) as_ × AllApart as_

abbrev pub IsConsistent : Ledger → Type 0
IsConsistent l = All (IsMarked l.pool) l.held × AllApart l.held

-- What a run says of its result.
AllocatedBy :
    Bytes
    → Env
    → PortManager
    → Outcome (Result PortError PortAllocation × RwMutex × PortManager)
    → Type 0
AllocatedBy session env pm (returns (r, m, after)) = Allocated session env pm r after
AllocatedBy session env pm blocks = ⊥
AllocatedBy session env pm panics = ⊥

-- The ledger that a run of ReleasePorts leaves.
abbrev Released :
    PortManager
    → PortAllocation
    → List PortAllocation
    → Outcome (Unit {0} × RwMutex × PortManager)
    → Type 0
Released pm a rest (returns (u, m, after)) = IsConsistent (record { pool = after; held = rest })
Released pm a rest blocks = ⊥
Released pm a rest panics = ⊥
