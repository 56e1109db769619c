-- ===== src/Ports/Ranges/Queries.antt =====
-- rtspProtocon/port_manager.go: what the methods that read the pool give.
use rtsp_go.Base.{
  ℕ, zero, suc, ◌+◌, ◌-◌, ◌<◌, ◌≡◌, refl, Bool, false, ◌&&◌, ◌||◌, List, [], ◌∷◌, Option, none,
  some, Result, ok, err, returns, arith, ltb, leb, ◌==◌, if◌then◌else◌, length, take, length-take,
}
use rtsp_go.Base.Dict.{Dict, lookup, insert, number_eq, lookup-insert}
use rtsp_go.Base.Sync.{free, lock, unlock, rlock, runlock, locked, rlocked}
use rtsp_go.Ports.{PortManager, PortError, too_few_ports, Env, is_port_available}
use rtsp_go.Ports.Search.{IsFirst, search-IsFirst}
use rtsp_go.Ports.Ranges.{
  next_port, get_next_available_port, gather, get_available_ports, check_all,
  check_ports_availability,
}

pub has : ℕ → List ℕ → Bool
has x [] = false
has x (y ∷ ys) = y == x || has x ys

-- The elements that pass a test.
pub keep : (ℕ → Bool) → List ℕ → List ℕ
keep test [] = []
keep test (x ∷ xs) = let rest = keep test xs in if test x then x ∷ rest else rest

-- port, port + 2, … , n ports in all.
pub evens : ℕ → ℕ → List ℕ
evens zero port = []
evens (suc n) port = port ∷ evens n (port + 2)

keep-beyond :
    (test : ℕ → Bool) (last n port : ℕ)
    → last < port
    → keep (λ p. leb p last && test p) (evens n port) ≡ []
unfolding keep evens
keep-beyond test last zero port h = refl
keep-beyond test last (suc n) port h = ground (arith, keep-beyond test last n (port + 2))

-- The loop gives the first `count` ports of the even sequence that are in range and pass.
gather_lem :
    (test : ℕ → Bool) (last n port count : ℕ)
    → gather test last n port count ≡ take count (keep (λ p. leb p last && test p) (evens n port))
unfolding gather keep evens
gather_lem test last zero port zero = refl
gather_lem test last zero port (suc count) = refl
gather_lem test last (suc n) port zero = refl
gather_lem test last (suc n) port (suc count) = ground (
  arith,
  keep-beyond test last n (port + 2),
  gather_lem test last n (port + 2) count,
  gather_lem test last n (port + 2) (suc count),
)

-- What GetAvailablePorts should give, by its result.
abbrev pub Listed : (ℕ → Bool) → PortManager → ℕ → Result PortError (List ℕ) → Type 0
Listed test pm count r =
    let candidates = evens (pm.rtp_range.last + 1 - pm.rtp_range.start) pm.rtp_range.start in
    let found = keep (λ p. leb p pm.rtp_range.last && test p) candidates in
    r ≡ (if leb count (length found) then ok (take count found) else err too_few_ports)

enough :
    (count : ℕ) (found : List ℕ)
    → (if ltb (length (take count found)) count then err too_few_ports else ok (take count found))
      ≡ (if leb count (length found) then ok (take count found) else err too_few_ports)
enough count found = ground (arith, length-take count found)

-- GetAvailablePorts, called with the mutex free, returns with the mutex free and the pool unchanged.
-- It gives the first `count` available ports of the even steps through the RTP range, in ascending
-- order, and it fails exactly when there are fewer.
pub get_available_ports_lem :
    (env : Env) (count : ℕ) (pm : PortManager)
    → (r : Result PortError (List ℕ)) × (get_available_ports env count free pm
        ≡ returns (r, free, pm))
      × Listed (is_port_available pm env) pm count r
unfolding get_available_ports rlocked rlock runlock
get_available_ports_lem env count pm =
    let n = pm.rtp_range.last + 1 - pm.rtp_range.start in
    let test = is_port_available pm env in
    (
      _,
      refl,
      rw (gather_lem test pm.rtp_range.last n pm.rtp_range.start count) (
          enough count
            (keep (λ p. leb p pm.rtp_range.last && test p) (evens n pm.rtp_range.start))),
    )

-- What GetNextAvailablePort should give: the first available port from the given one on.
abbrev pub NextPort : (ℕ → Bool) → ℕ → ℕ → Result PortError ℕ → Type 0
NextPort test last from (ok port) = IsFirst test 1 last from (some port)
NextPort test last from (err e) = IsFirst test 1 last from none

-- GetNextAvailablePort, called with the mutex free, returns with the mutex free and the pool
-- unchanged: the least available port from the given one on, or an error, where there is none.
pub get_next_available_port_lem :
    (env : Env) (from : ℕ) (pm : PortManager)
    → (r : Result PortError ℕ) × (get_next_available_port env from free pm ≡ returns (r, free, pm))
      × NextPort (is_port_available pm env) pm.rtp_range.last from r
unfolding get_next_available_port locked lock unlock
get_next_available_port_lem env from pm = (
  _,
  refl,
  by_option _ (
      search-IsFirst (is_port_available pm env) 1 pm.rtp_range.last _ from (omega arith)
        (omega arith)),
)
  where
    by_option :
        (o : Option ℕ)
        → IsFirst (is_port_available pm env) 1 pm.rtp_range.last from o
        → NextPort (is_port_available pm env) pm.rtp_range.last from (next_port from o)
    by_option none h = h
    by_option (some port) h = h

check_all_lem :
    (test : ℕ → Bool) (ports : List ℕ) (result : Dict ℕ Bool) (port : ℕ)
    → lookup port (check_all test ports result)
      ≡ (if has port ports then some (test port) else lookup port result)
unfolding check_all has
check_all_lem test [] result port = refl
check_all_lem test (p ∷ ports) result port = ground (
  arith,
  check_all_lem test ports (insert p (test p) result) port,
  lookup-insert p port (test p) result,
)

-- CheckPortsAvailability, called with the mutex free, returns with the mutex free and the pool
-- unchanged, a map with the availability of each of the given ports and of no other port.
pub check_ports_availability_lem :
    (env : Env) (ports : List ℕ) (pm : PortManager)
    → (m : Dict ℕ Bool) × (check_ports_availability env ports free pm ≡ returns (m, free, pm))
      × ((port : ℕ)
          → lookup port m ≡ (if has port ports then some (is_port_available pm env port) else none))
unfolding check_ports_availability rlocked rlock runlock lookup
check_ports_availability_lem env ports pm =
    (_, refl, λ port. check_all_lem (is_port_available pm env) ports [] port)
