-- ===== src/Ports/Mutex.antt =====
-- rtspProtocon/port_manager.go: PreAllocatePorts holds the mutex that its own calls ask for.
use rtsp_go.Base.{ℕ, suc, ◌≡◌, refl, [], ok, blocks, returns}
use rtsp_go.Base.Sync.{RwMutex, free, written, read_by, locked, lock, unlock}
use rtsp_go.Ports.{PortManager, Env, allocate_ports, pre_allocate, pre_allocate_ports}

-- PreAllocatePorts never returns when it is asked for at least one pair, whatever the state of the
-- mutex and of the manager; with the mutex free and no pair to allocate it returns the empty list.
pub pre_allocate_ports-blocks :
    (count : ℕ) (envs : ℕ → Env) (m : RwMutex) (pm : PortManager)
    → (pre_allocate_ports (suc count) envs m pm ≡ blocks)
      × (pre_allocate_ports 0 envs free pm ≡ returns (ok [], free, pm))
unfolding pre_allocate_ports pre_allocate allocate_ports locked lock unlock
pre_allocate_ports-blocks count envs free pm = (refl, refl)
pre_allocate_ports-blocks count envs written pm = (refl, refl)
pre_allocate_ports-blocks count envs (read_by n) pm = (refl, refl)
