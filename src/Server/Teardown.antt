-- ===== src/Server/Teardown.antt =====
-- server/server.go: TEARDOWN gives back what SETUP took.
use rtsp_go.Base.{
  ℕ, ◌≡◌, refl, ap, ◌∙◌, false, Option, none, some, Gives, gives, Gives-bind, ◌>>=◌, arith,
}
use rtsp_go.Base.Int.{pos}
use rtsp_go.Base.Text.{Bytes, codes, is_empty}
use rtsp_go.Base.Dict.{lookup, delete, bytes_eq, lookup-delete_self}
use rtsp_go.Base.Sync.{free}
use rtsp_go.Ports.{PortManager, PortAllocation, is_used}
use rtsp_go.Ports.Allocate.{is_used-release_pair, release_ports_lem}
use rtsp_go.Protocol.Message.{Message, set_header, get_header}
use rtsp_go.Protocol.Session.{Session}
use rtsp_go.Server.{
  status, Server, Client, release_allocation, release_transport, handle_teardown, play, handle_play,
}

-- The ports that a client may hold are not marked.
abbrev pub AreFree : PortManager → Option PortAllocation → Type 0
AreFree pm none = Unit
AreFree pm (some a) = (is_used pm a.rtp_port ≡ false) × (is_used pm a.rtcp_port ≡ false)

-- What TEARDOWN of the session should leave.
abbrev pub IsTornDown : Bytes → Client → Message × Server × Client → Type 0
IsTornDown sid c (r, s, c') =
    (r.status_code ≡ pos 200)
    × (s.ports_mutex ≡ free)
    × (lookup sid s.sessions ≡ none)
    × (c' ≡ c)
    × AreFree s.ports c'.allocation

release-AreFree :
    (o : Option PortAllocation) (s : Server)
    → s.ports_mutex ≡ free
    → Gives
        (λ s'. (s'.ports_mutex ≡ free) × (s'.sessions ≡ s.sessions) × AreFree s'.ports o)
        (release_allocation o s)
unfolding release_allocation
release-AreFree none s h = gives (h, refl, tt)
release-AreFree (some a) s h =
    let here = is_used-release_pair s.ports a in
    rw (h, release_ports_lem a s.ports)
      (gives (refl, refl, (ground (arith, here a.rtp_port), ground (arith, here a.rtcp_port))))

-- TEARDOWN by a client without TCP channels, of any session that its header names, with the
-- ports' mutex free: the answer is 200, the session is gone, the client is unchanged, and its
-- ports are not marked any more, whether they were the session's or not.
pub handle_teardown-IsTornDown :
    (m : Message) (s : Server) (c : Client)
    → s.ports_mutex ≡ free
    → c.use_tcp ≡ false
    → is_empty (get_header (codes "Session") m) ≡ false
    → Gives (IsTornDown (get_header (codes "Session") m) c) (handle_teardown m s c)
unfolding handle_teardown release_transport set_header
handle_teardown-IsTornDown m s c h no_tcp has_id =
    let sid = get_header (codes "Session") m in
    rw has_id (
      rw no_tcp (
        Gives-bind _
          (λ s' (mutex, same, unmarked).
            gives (
              refl,
              mutex,
              ap (lookup sid) same ∙ lookup-delete_self sid s.sessions,
              refl,
              unmarked,
            ))
          (release-AreFree c.allocation (record s { sessions = delete sid s.sessions }) h)))

not_found :
    (o : Option Session) (sid : Bytes) (now : ℕ) (s : Server) (c : Client)
    → o ≡ none
    → Gives (λ r. r.0 ≡ status 404) (play o sid now s c)
unfolding play
not_found none sid now s c h = gives refl
not_found (some session) sid now s c h = cc

play-after :
    (m m' : Message) (now : ℕ) (c : Client) (r : Message × Server × Client)
    → is_empty (get_header (codes "Session") m) ≡ false
    → get_header (codes "Session") m' ≡ get_header (codes "Session") m
    → IsTornDown (get_header (codes "Session") m) c r
    → Gives (λ q. q.0 ≡ status 404) (handle_play m' now r.1 r.2)
unfolding handle_play
play-after m m' now c r has_id names (code, free_again, absent, same, rest) =
    rw (names, has_id)
      (not_found (lookup (get_header (codes "Session") m) r.1.sessions) _ now r.1 r.2 absent)

-- A PLAY that names the session which a TEARDOWN named just before, by the same client without
-- TCP channels and with the ports' mutex free, is answered with 404.
pub handle_play-handle_teardown :
    (m m' : Message) (now : ℕ) (s : Server) (c : Client)
    → s.ports_mutex ≡ free
    → c.use_tcp ≡ false
    → is_empty (get_header (codes "Session") m) ≡ false
    → get_header (codes "Session") m' ≡ get_header (codes "Session") m
    → Gives (λ r. r.0 ≡ status 404) (handle_teardown m s c >>= λ r. handle_play m' now r.1 r.2)
handle_play-handle_teardown m m' now s c h no_tcp has_id names =
    Gives-bind _ (λ r down. play-after m m' now c r has_id names down)
      (handle_teardown-IsTornDown m s c h no_tcp has_id)
