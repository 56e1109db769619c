-- ===== src/Ports/Examples.antt =====
-- rtspProtocon/port_manager.go on concrete pools: tests, and instances of the theorems.
use rtsp_go.Base.{◌^◌, ◌≡◌, true, false, [], Result, ok, blocks, returns, ◌==◌, if◌then◌else◌}
use rtsp_go.Base.Text.{Bytes, codes}
use rtsp_go.Base.Dict.{number_eq}
use rtsp_go.Base.Sync.{free}
use rtsp_go.Ports.{
  PortManager, PortAllocation, PortError, Env, new_port_manager, new_default_port_manager, cleanup,
  mark_pair, allocate_ports, release_pair, RetryError, allocate_ports_with_retry,
  pre_allocate_ports,
}
use rtsp_go.Ports.Allocate.{Allocated, allocate_ports_lem}
use rtsp_go.Ports.Mutex.{pre_allocate_ports-blocks}
use rtsp_go.Ports.Ledger.{Ledger}

-- A system that has everything but port 5000 free, at a time before the first cleanup.
abbrev early : Env
early = record {
  checked_at = 7;
  cleaned_at = 8;
  allocation_time = 9;
  bindable = λ p. if p == 5000 then false else true;
}

abbrev late : Env
late = record {
  checked_at = 10 ^ 12;
  cleaned_at = 10 ^ 12;
  allocation_time = 10 ^ 12;
  bindable = λ p. true;
}

abbrev camera : Bytes
camera = codes "camera"

abbrev pool : PortManager
pool = record {
  rtp_range = record { start = 5000; last = 5005 };
  rtcp_range = record { start = 5000; last = 5005 };
  used_ports = [];
  last_cleanup = 0;
}

abbrev first : PortAllocation
first = record { rtp_port = 5002; rtcp_port = 5003; allocated_at = 9; session_id = camera }

allocate_ports_lem_example :
    (r : Result PortError PortAllocation) × (after : PortManager) × (allocate_ports camera early
        free pool
      ≡ returns (r, free, after))
    × Allocated camera early (cleanup pool early) r after
allocate_ports_lem_example = allocate_ports_lem camera early pool

pre_allocate_ports-blocks_example :
    (pre_allocate_ports 1 (λ i. early) free pool ≡ blocks)
    × (pre_allocate_ports 0 (λ i. early) free pool ≡ returns (ok [], free, pool))
pre_allocate_ports-blocks_example = pre_allocate_ports-blocks 0 (λ i. early) free pool

-- A session takes a pair and gives it back.
abbrev unused : Ledger
unused = record { pool = pool; held = [] }

abbrev given_back : Ledger
given_back = record { pool = release_pair (mark_pair pool 5002) first; held = [] }
