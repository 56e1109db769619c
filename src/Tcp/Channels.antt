-- ===== src/Tcp/Channels.antt =====
-- rtspProtocon/tcp_transport.go: the channel numbers that AllocateChannel gives out.
use rtsp_go.Base.{
  ℕ, suc, ◌+◌, ◌*◌, ◌%◌, ◌<◌, ◌≡◌, ◌≢◌, List, [], ◌∷◌, Option, none, some, arith, if◌then◌else◌,
}
use rtsp_go.Base.Text.{Bytes, text_eq}
use rtsp_go.Base.Text.Laws.{text_eq_iff}
use rtsp_go.Base.Dict.{
  bytes_eq, lookup-insert, lookup-delete, lookup-insert_self, lookup-delete_self,
}
use rtsp_go.Tcp.{
  TcpChannel, TransportManager, new_transport_manager, allocate_channel, release_channel,
  get_channel,
}

-- Calls on the table: a session allocates at a time, or is released.
pub data Call : Type 0 where
  allocates : Bytes → ℕ → Call
  releases : Bytes → Call

pub call : TransportManager → Call → TransportManager
call tm (allocates session now) = (allocate_channel tm session now).1
call tm (releases session) = release_channel tm session

pub calls : TransportManager → List Call → TransportManager
unfolding call
calls tm [] = tm
calls tm (c ∷ cs) = calls (call tm c) cs

abbrev pub allocations : List Call → ℕ
allocations [] = 0
allocations (allocates session now ∷ cs) = suc (allocations cs)
allocations (releases session ∷ cs) = allocations cs

next_channel-calls :
    (tm : TransportManager) (cs : List Call)
    → tm.next_channel < 256
    → (calls tm cs).next_channel ≡ (tm.next_channel + 2 * allocations cs) % 256
unfolding calls allocate_channel release_channel
next_channel-calls tm [] h = omega arith
next_channel-calls tm (allocates session now ∷ cs) h =
    omega (arith, next_channel-calls (allocate_channel tm session now).1 cs (omega arith))
next_channel-calls tm (releases session ∷ cs) h =
    omega (arith, next_channel-calls (release_channel tm session) cs h)

even_number : (n c : ℕ) → c ≡ (0 + 2 * n) % 256 → (c ≡ 2 * n % 256) × ((c + 1) % 256 ≡ c + 1)
even_number n c h = omega arith

-- After any calls on a new manager, the next allocation gives the pair (2 n, 2 n + 1) modulo 256
-- for n allocations so far, and the session finds its pair in the table: the RTP channel is even,
-- and the RTCP channel follows it with no wrap between.
pub allocate_channel-calls :
    (cs : List Call) (session : Bytes) (now : ℕ)
    → let tm = calls new_transport_manager cs in
      let c = (allocate_channel tm session now).0 in
      (c.rtp_channel ≡ 2 * allocations cs % 256)
      × (c.rtcp_channel ≡ c.rtp_channel + 1)
      × (get_channel (allocate_channel tm session now).1 session ≡ some c)
unfolding allocate_channel get_channel new_transport_manager
allocate_channel-calls cs session now =
    let h = next_channel-calls new_transport_manager cs (omega arith) in
    let even = even_number (allocations cs) (calls new_transport_manager cs).next_channel h in
    (even.0, even.1, lookup-insert_self session _ _)

skip :
    (session other : Bytes) (x y z : Option TcpChannel)
    → session ≢ other
    → x ≡ (if text_eq session other then y else z)
    → x ≡ z
skip session other x y z ne e = ground (arith, text_eq_iff session other)

-- Releasing a session or allocating for it leaves what the table says of every other session.
pub get_channel-call :
    (tm : TransportManager) (session other : Bytes) (now : ℕ)
    → session ≢ other
    → (get_channel (call tm (allocates session now)) other ≡ get_channel tm other)
      × (get_channel (call tm (releases session)) other ≡ get_channel tm other)
      × (get_channel (call tm (releases session)) session ≡ none)
unfolding call allocate_channel release_channel get_channel
get_channel-call tm session other now ne = (
  skip session other _ _ _ ne (lookup-insert session other _ tm.channels),
  skip session other _ _ _ ne (lookup-delete session other tm.channels),
  lookup-delete_self session tm.channels,
)

-- The calls that neither allocate for a session nor release it.
abbrev pub Spares : Bytes → List Call → Type 0
Spares session [] = Unit {0}
Spares session (allocates other now ∷ cs) = (other ≢ session) × Spares session cs
Spares session (releases other ∷ cs) = (other ≢ session) × Spares session cs
