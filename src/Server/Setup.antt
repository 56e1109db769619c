-- ===== src/Server/Setup.antt =====
-- server/server.go: what SETUP leaves behind.
use rtsp_go.Base.{
  suc, ◌≡◌, refl, true, false, ◌⊎◌, inl, inr, some, Gives, gives, Gives-bind, Result, ok, err,
  if◌then◌else◌, arith,
}
use rtsp_go.Base.Int.{pos}
use rtsp_go.Base.Text.{codes, is_empty}
use rtsp_go.Base.Dict.{lookup, bytes_eq, lookup-insert_self}
use rtsp_go.Base.Sync.{free}
use rtsp_go.Ports.{PortManager, PortAllocation, RetryError, is_used}
use rtsp_go.Ports.Allocate.{is_used-mark_pair}
use rtsp_go.Ports.Retry.{Retried, cleaned, allocate_ports_with_retry_lem}
use rtsp_go.Protocol.Message.{Message, set_header, get_header}
use rtsp_go.Protocol.Session.{Session, ready, new_session, update_state}
use rtsp_go.Protocol.Transport.{Transport, is_tcp_transport}
use rtsp_go.Protocol.Transport.Never.{IsRtp, parse_transport-IsRtp, tcp_kind-rtp}
use rtsp_go.Server.{
  Server, Client, Context, setup_response, open_session, setup_tcp, setup_ports, setup_udp,
  handle_setup,
}

-- The session of a SETUP: ready, with the request's URL.
abbrev pub opened : Message → Context → Session
opened m x = update_state ready x.now (record (new_session x.session_id x.now) { url = m.url })

abbrev pub AreMarked : PortManager → PortAllocation → Type 0
AreMarked pm a = (is_used pm a.rtp_port ≡ true) × (is_used pm a.rtcp_port ≡ true)

-- What SETUP should leave.
abbrev pub IsSetUp : Message → Context → Client → Message × Server × Client → Type 0
IsSetUp m x c (r, s', c') =
    (s'.ports_mutex ≡ free)
    × (lookup x.session_id s'.sessions ≡ some (opened m x))
    × (c'.session ≡ some x.session_id)
    × (c'.use_tcp ≡ c.use_tcp)
    × (((r.status_code ≡ pos 200)
          × ((a : PortAllocation) × (c'.allocation ≡ some a) × AreMarked s'.ports a))
        ⊎ ((r.status_code ≡ pos 503) × (c'.allocation ≡ c.allocation)))

Retried-AreMarked :
    (x : Context) (pm after : PortManager) (a : PortAllocation)
    → Retried x.attempts pm 3 (ok a) after
    → AreMarked after a
Retried-AreMarked x pm after a (k, small, before, found, pair, marked) =
    let here = is_used-mark_pair (cleaned x.attempts pm (suc k)) a.rtp_port in
    rw marked (ground (arith, here a.rtp_port), ground (arith, here a.rtcp_port))

ports-IsSetUp :
    (t : Transport) (m : Message) (x : Context) (s : Server) (c : Client)
    (r : Result RetryError PortAllocation) (after : PortManager)
    → Retried x.attempts s.ports 3 r after
    → IsSetUp m x c (setup_ports t x (open_session m x s) c (r, free, after))
unfolding setup_ports setup_response open_session set_header
ports-IsSetUp t m x s c (ok a) after good = (
  refl,
  lookup-insert_self x.session_id (opened m x) s.sessions,
  refl,
  refl,
  inl (refl, (a, refl, Retried-AreMarked x s.ports after a good)),
)
ports-IsSetUp t m x s c (err e) after good =
    (refl, lookup-insert_self x.session_id (opened m x) s.sessions, refl, refl, inr (refl, refl))

udp-IsSetUp :
    (t : Transport) (m : Message) (x : Context) (s : Server) (c : Client)
    → s.ports_mutex ≡ free
    → Gives (IsSetUp m x c) (setup_udp t x (open_session m x s) c)
unfolding setup_udp open_session
udp-IsSetUp t m x s c h =
    let (r, after, run, good) = allocate_ports_with_retry_lem x.session_id 3 x.attempts s.ports in
    rw h (rw run (gives (ports-IsSetUp t m x s c r after good)))

-- No header asks for TCP.
kind-IsSetUp :
    (t : Transport) (m : Message) (x : Context) (s : Server) (c : Client)
    → s.ports_mutex ≡ free
    → IsRtp t
    → Gives (IsSetUp m x c) (
        if is_tcp_transport t
        then setup_tcp t x (open_session m x s) c
        else setup_udp t x (open_session m x s) c)
kind-IsSetUp t m x s c h w = rw (tcp_kind-rtp t w) (udp-IsSetUp t m x s c h)

-- SETUP with a Transport header, whatever it says, and the ports' mutex free: the new session is in
-- the table, ready and with the URL of the request, and is the client's. Either the answer is 200,
-- and the client has a pair of ports that are both marked in the pool; or it is 503, the client has
-- the ports that it had, and the new session is in the table all the same.
pub handle_setup-IsSetUp :
    (m : Message) (x : Context) (s : Server) (c : Client)
    → s.ports_mutex ≡ free
    → is_empty (get_header (codes "Transport") m) ≡ false
    → Gives (IsSetUp m x c) (handle_setup m x s c)
unfolding handle_setup
handle_setup-IsSetUp m x s c h has_header = rw has_header (
    Gives-bind _ (λ t w. kind-IsSetUp t m x s c h w)
      (parse_transport-IsRtp (get_header (codes "Transport") m)))
