-- ===== src/Ports/Ranges.antt =====
-- rtspProtocon/port_manager.go: the methods that set the ranges or read the pool.
pub mod Queries
use rtsp_go.Base.{
  ℕ, zero, suc, ◌+◌, ◌-◌, ◌≤◌, ◌<◌, ◌≡◌, refl, sym, ap, ◌∙◌, ◌↔◌, Bool, true, false, ◌&&◌, ◌||◌,
  List, [], ◌∷◌, ◌++◌, Option, none, some, Result, ok, err, Outcome, returns, arith, ltb, leb, ◌==◌,
  if◌then◌else◌, length, Bool-cases, inl, inr,
}
use rtsp_go.Base.Int.{ℤ, sub_ℕ}
use rtsp_go.Base.Dict.{
  Dict, lookup, insert, delete, number_eq, lookup-insert, lookup-delete, lookup-delete_self,
}
use rtsp_go.Base.Sync.{
  RwMutex, free, lock, unlock, Method, pure, get, modify, ◌>>=◌, ◌>>◌, locked, rlocked,
}
use rtsp_go.Ports.{
  PortRange, PortManager, PortError, no_available_ports, too_few_ports, bad_rtp_start, bad_rtp_end,
  bad_rtcp_start, bad_rtcp_end, Env, flag, is_used, is_port_available, search, update,
}
use rtsp_go.Ports.Search.{IsFirst, search-IsFirst}

-- ValidatePortRange
pub validate_port_range : PortRange → PortRange → Result PortError (Unit {0})
validate_port_range rtp rtcp =
    if ltb rtp.start 1024 || ltb 65535 rtp.start
    then err bad_rtp_start
    else if ltb rtp.last rtp.start || ltb 65535 rtp.last
    then err bad_rtp_end
    else if ltb rtcp.start 1024 || ltb 65535 rtcp.start
    then err bad_rtcp_start
    else if ltb rtcp.last rtcp.start || ltb 65535 rtcp.last
    then err bad_rtcp_end
    else ok tt

set_valid :
    PortRange
    → PortRange
    → Result PortError (Unit {0})
    → Method PortManager (Result PortError (Unit {0}))
set_valid rtp rtcp (err e) = pure (err e)
set_valid rtp rtcp (ok u) =
    locked (modify (λ pm. record pm { rtp_range = rtp; rtcp_range = rtcp }) >> pure (ok tt))

-- SetPortRange; the ranges are validated before the mutex is taken.
pub set_port_range : PortRange → PortRange → Method PortManager (Result PortError (Unit {0}))
unfolding set_valid
set_port_range rtp rtcp = set_valid rtp rtcp (validate_port_range rtp rtcp)

in_range : PortRange → ℕ → Bool
in_range r port = leb r.start port && leb port r.last

-- IsPortInRange
pub is_port_in_range : ℕ → Method PortManager Bool
is_port_in_range port =
    rlocked (do pm ← get; pure (in_range pm.rtp_range port || in_range pm.rtcp_range port))

-- CheckPortConflict
pub check_port_conflict : ℕ → Method PortManager Bool
check_port_conflict port = rlocked (do pm ← get; pure (is_used pm port))

-- ForceReleasePort
pub force_release_port : ℕ → Method PortManager (Unit {0})
force_release_port port = locked (modify λ pm. record pm { used_ports = delete port pm.used_ports })

-- ResolvePortConflict; its error is always nil.
pub resolve_port_conflict : ℕ → Method PortManager (Unit {0})
resolve_port_conflict port =
    locked (modify λ pm. record pm { used_ports = delete port pm.used_ports })

next_port : ℕ → Option ℕ → Result PortError ℕ
next_port from none = err no_available_ports
next_port from (some port) = ok port

-- GetNextAvailablePort
pub get_next_available_port : Env → ℕ → Method PortManager (Result PortError ℕ)
unfolding next_port
get_next_available_port env from = locked do
  pm ← get
  pure (
      next_port from
        (search (is_port_available pm env) 1 pm.rtp_range.last (pm.rtp_range.last + 1 - from) from))

-- The loop of GetAvailablePorts: at most `count` ports, by even steps.
pub gather : (ℕ → Bool) → ℕ → ℕ → ℕ → ℕ → List ℕ
gather test last zero port count = []
gather test last (suc fuel) port zero = []
gather test last (suc fuel) port (suc count) = elim (leb port last) [
  | false ↦ []
  | true ↦ elim (test port) [
    | true ↦ port ∷ gather test last fuel (port + 2) count
    | false ↦ gather test last fuel (port + 2) (suc count)
  ]
]

-- GetAvailablePorts
pub get_available_ports : Env → ℕ → Method PortManager (Result PortError (List ℕ))
unfolding gather
get_available_ports env count = rlocked do
  pm ← get
  let ports =
      gather (is_port_available pm env) pm.rtp_range.last
        (pm.rtp_range.last + 1 - pm.rtp_range.start) pm.rtp_range.start count
  pure (if ltb (length ports) count then err too_few_ports else ok ports)

check_all : (ℕ → Bool) → List ℕ → Dict ℕ Bool → Dict ℕ Bool
check_all test [] result = result
check_all test (port ∷ ports) result = check_all test ports (insert port (test port) result)

-- CheckPortsAvailability
pub check_ports_availability : Env → List ℕ → Method PortManager (Dict ℕ Bool)
unfolding check_all
check_ports_availability env ports =
    rlocked (do pm ← get; pure (check_all (is_port_available pm env) ports []))

-- GetPortUsage
pub get_port_usage : Method PortManager (Dict ℕ Bool)
get_port_usage = rlocked get_used
  where
    get_used : Method PortManager (Dict ℕ Bool)
    get_used m pm = returns (pm.used_ports, m, pm)

pub record PortStats : Type 0 where
  pub stats_rtp : PortRange
  pub stats_rtcp : PortRange
  pub stats_used : ℕ
  pub stats_total : ℤ
  pub stats_available : ℤ
  pub stats_cleanup : ℕ

-- GetStats
pub get_stats : Method PortManager PortStats
get_stats = rlocked do
  pm ← get
  let used = length pm.used_ports
  pure (record {
    stats_rtp = pm.rtp_range;
    stats_rtcp = pm.rtcp_range;
    stats_used = used;
    stats_total = sub_ℕ (pm.rtp_range.last + 1) pm.rtp_range.start;
    stats_available = sub_ℕ (pm.rtp_range.last + 1) (pm.rtp_range.start + used);
    stats_cleanup = pm.last_cleanup;
  })

-- A range that a manager may have.
abbrev pub IsValidRange : PortRange → Type 0
IsValidRange r = (1024 ≤ r.start) × (r.start ≤ r.last) × (r.last ≤ 65535)

-- What SetPortRange should do, by its result.
abbrev pub RangeSet :
    PortRange → PortRange → PortManager → Result PortError (Unit {0}) → PortManager → Type 0
RangeSet rtp rtcp pm (ok u) after =
    IsValidRange rtp
    × IsValidRange rtcp
    × (after ≡ record pm { rtp_range = rtp; rtcp_range = rtcp })
RangeSet rtp rtcp pm (err e) after = ¬ (IsValidRange rtp × IsValidRange rtcp) × (after ≡ pm)

validate_port_range_iff :
    (rtp rtcp : PortRange)
    → (validate_port_range rtp rtcp ≡ ok tt) ↔ (IsValidRange rtp × IsValidRange rtcp)
unfolding validate_port_range
validate_port_range_iff rtp rtcp = ground arith

-- SetPortRange, called with the mutex free, returns with the mutex free. It accepts exactly the pairs
-- of ranges that lie between 1024 and 65535 and are not empty; it then changes both ranges and
-- nothing else, and in the other cases it changes nothing.
pub set_port_range_lem :
    (rtp rtcp : PortRange) (pm : PortManager)
    → (r : Result PortError (Unit {0})) × (after : PortManager) × (set_port_range rtp rtcp free pm
        ≡ returns (r, free, after))
      × RangeSet rtp rtcp pm r after
unfolding set_port_range set_valid locked lock unlock
set_port_range_lem rtp rtcp pm =
    by_result (validate_port_range rtp rtcp) (validate_port_range_iff rtp rtcp)
  where
    by_result :
        (v : Result PortError (Unit {0}))
        → (v ≡ ok tt) ↔ (IsValidRange rtp × IsValidRange rtcp)
        → (r : Result PortError (Unit {0})) × (after : PortManager) × (set_valid rtp rtcp v free pm
            ≡ returns (r, free, after))
          × RangeSet rtp rtcp pm r after
    by_result (ok u) valid = (ok tt, _, refl, ((valid.0 refl).0, (valid.0 refl).1, refl))
    by_result (err e) valid = (err e, pm, refl, ((λ h. ground (arith, valid.1 h)), refl))
