-- ===== src/Client/Calls/Sessions.antt =====
-- client/client.go: what Setup, Play, Pause, Teardown and Disconnect leave, when no TCP channel is set.
use rtsp_go.Base.{
  ℕ, ◌≡◌, refl, sym, true, false, List, [], ◌∷◌, Option, none, some, returns, Bool-cases, inl, inr,
  ◌⊎◌, Comes, Comes-bind, Comes-if, if◌then◌else◌, Bool, Comes-Gives, subst, ap, ◌∙◌,
}
use rtsp_go.Base.Text.{Bytes, codes, split, is_empty}
use rtsp_go.Protocol.Message.{Message, get_header}
use rtsp_go.Protocol.Session.{Session, SessionState, ready, playing, new_session, update_state}
use rtsp_go.Protocol.Transport.{Transport, parse_transport, print_transport, is_tcp_transport}
use rtsp_go.Protocol.Transport.Never.{is_tcp_transport-parse_transport}
use rtsp_go.Sdp.{SessionDescription}
use rtsp_go.Client.{PeerPorts, RtspClient, ClientError, Meeting, count_up}
use rtsp_go.Client.Stream.{receive_tcp_media_stream_without}
use rtsp_go.Client.Calls.{
  wanted_transport, note_transport, note_ports, name_ports, name_channel, open_session,
  session_named, transported, setup_with, setup, after_receive, start_receiver, played, play_in,
  play, paused, pause_in, pause, torn_down, teardown_in, teardown, disconnect,
}
use rtsp_go.Client.Calls.Posts.{Post, ask-Post}

-- The client with another transport and other ports.
abbrev pub noted : RtspClient → Option Transport → Option PeerPorts → RtspClient
noted c t p = record c { transport = t; port_allocation = p }

abbrev pub IsNoted : RtspClient → RtspClient → Type 0
IsNoted c a = (t : Option Transport) × (p : Option PeerPorts) × (a ≡ noted c t p)

-- One request more, and a session in the state.
abbrev pub InState : SessionState → RtspClient → RtspClient → Type 0
InState state c a =
    (s : Session) × (s.state ≡ state) × (a ≡ count_up (record c { session = some s }))

abbrev pub IsSetUp : RtspClient → RtspClient → Type 0
IsSetUp c a = (t : Option Transport) × (p : Option PeerPorts) × InState ready (noted c t p) a

note_ports-IsNoted :
    (now : ℕ) (ps : List Bytes) (c : RtspClient) (t : Transport)
    → IsNoted c (note_ports now ps (record c { transport = some t }))
unfolding note_ports
note_ports-IsNoted now [] c t = (some t, c.port_allocation, refl)
note_ports-IsNoted now (a ∷ []) c t = (some t, c.port_allocation, refl)
note_ports-IsNoted now (a ∷ b ∷ more) c t = (some t, some _, refl)

note_transport-IsNoted :
    (now : ℕ) (c : RtspClient) (t : Transport)
    → is_tcp_transport t ≡ false
    → IsNoted c (note_transport now c t)
unfolding note_transport
note_transport-IsNoted now c t plain =
    rw plain (note_ports-IsNoted now (split t.server_ports b'-') c t)

open_session_lem :
    (now : ℕ) (id : Bytes) (c : RtspClient) (t : Option Transport) (p : Option PeerPorts)
    → c.tcp_channel ≡ none
    → IsSetUp c (count_up (open_session now id (noted c t p)))
unfolding open_session name_channel update_state
open_session_lem now id c t p unset =
    (t, name_ports id p, (update_state ready now (new_session id now), refl, rw unset refl))

session_named-Post :
    (now : ℕ) (id : Bytes) (c a : RtspClient)
    → c.tcp_channel ≡ none
    → IsNoted c a
    → Comes (Post (IsNoted c) (IsSetUp c)) (session_named now id a)
unfolding session_named
session_named-Post now id c a unset (t, p, e) = elim (Bool-cases (is_empty id)) [
  | inl missing ↦ rw missing (t, p, e)
  | inr named ↦ rw named (
      subst (λ a'. IsSetUp c (count_up (open_session now id a'))) (sym e)
        (open_session_lem now id c t p unset))
]

transported-Post :
    (now : ℕ) (m : Message) (c : RtspClient)
    → c.tcp_channel ≡ none
    → Comes (Post (IsNoted c) (IsSetUp c)) (transported now m c)
unfolding transported
transported-Post now m c unset =
    let header = get_header (codes "Transport") m in
    elim (Bool-cases (is_empty header)) [
      | inl missing ↦ rw missing (c.transport, c.port_allocation, refl)
      | inr given ↦ rw given (
          Comes-bind (Post (IsNoted c) (IsSetUp c)) (parse_transport header)
            (λ t. session_named now (get_header (codes "Session") m) (note_transport now c t))
            (λ t plain.
              session_named-Post now (get_header (codes "Session") m) c (note_transport now c t)
                unset (note_transport-IsNoted now c t plain))
            (Comes-Gives (is_tcp_transport-parse_transport header)))
    ]

setup_with-Post :
    (heap : ℕ) (x : Meeting) (o : Option SessionDescription) (c : RtspClient)
    → c.tcp_channel ≡ none
    → Comes (Post (IsNoted c) (IsSetUp c)) (setup_with heap x o c)
unfolding setup_with
setup_with-Post heap x none c unset = (c.transport, c.port_allocation, refl)
setup_with-Post heap x (some d) c unset =
    ask-Post (IsNoted c) (IsSetUp c) heap x (codes "SETUP")
      ((codes "Transport", print_transport (wanted_transport c)) ∷ []) (transported x.now) c
      (c.transport, c.port_allocation, refl) (λ m. transported-Post x.now m c unset)

-- Setup returns an error and at most notes the transport and the ports, or it has a session.
pub setup-Post :
    (heap : ℕ) (x : Meeting) (c : RtspClient)
    → c.tcp_channel ≡ none
    → Comes (Post (IsNoted c) (IsSetUp c)) (setup heap x c)
unfolding setup
setup-Post heap x c unset = setup_with-Post heap x c.sdp c unset

if_same : {A : Type 0} (b : Bool) (a : A) → (if b then a else a) ≡ a
if_same true a = refl
if_same false a = refl

start_receiver_without : (c : RtspClient) → c.tcp_channel ≡ none → start_receiver c ≡ c
unfolding start_receiver after_receive
start_receiver_without c unset =
    ap (λ r. if c.use_tcp_transport then after_receive c r else c)
      (receive_tcp_media_stream_without c unset)
    ∙ if_same c.use_tcp_transport c

play_in-Post :
    (heap : ℕ) (x : Meeting) (o : Option Session) (c : RtspClient)
    → c.tcp_channel ≡ none
    → Comes (Post (λ a. a ≡ c) (InState playing c)) (play_in heap x o c)
unfolding play_in played update_state
play_in-Post heap x none c unset = refl
play_in-Post heap x (some s) c unset =
    ask-Post (λ a. a ≡ c) (InState playing c) heap x (codes "PLAY") ((codes "Session", s.id) ∷ [])
      (played x.now s) c refl
      (λ m.
        let s' = update_state playing x.now s in
        (s', refl, ap count_up (start_receiver_without (record c { session = some s' }) unset)))

-- Play returns an error and changes nothing, or the session that there was is playing.
pub play-Post :
    (heap : ℕ) (x : Meeting) (c : RtspClient)
    → c.tcp_channel ≡ none
    → Comes (Post (λ a. a ≡ c) (InState playing c)) (play heap x c)
unfolding play
play-Post heap x c unset = play_in-Post heap x c.session c unset

pause_in-Post :
    (heap : ℕ) (x : Meeting) (o : Option Session) (c : RtspClient)
    → Comes (Post (λ a. a ≡ c) (InState ready c)) (pause_in heap x o c)
unfolding pause_in paused update_state
pause_in-Post heap x none c = refl
pause_in-Post heap x (some s) c =
    ask-Post (λ a. a ≡ c) (InState ready c) heap x (codes "PAUSE") ((codes "Session", s.id) ∷ [])
      (paused x.now s) c refl (λ m. (update_state ready x.now s, refl, refl))

-- Pause returns an error and changes nothing, or the session that there was is ready.
pub pause-Post :
    (heap : ℕ) (x : Meeting) (c : RtspClient)
    → Comes (Post (λ a. a ≡ c) (InState ready c)) (pause heap x c)
unfolding pause
pause-Post heap x c = pause_in-Post heap x c.session c

-- The client as it was, or with one request more and no session.
abbrev pub IsTornDown : RtspClient → RtspClient → Type 0
IsTornDown c a = (a ≡ c) ⊎ (a ≡ count_up (record c { session = none }))

teardown_in-Post :
    (heap : ℕ) (x : Meeting) (o : Option Session) (c : RtspClient)
    → Comes (Post (λ a. a ≡ c) (IsTornDown c)) (teardown_in heap x o c)
unfolding teardown_in torn_down
teardown_in-Post heap x none c = inl refl
teardown_in-Post heap x (some s) c =
    ask-Post (λ a. a ≡ c) (IsTornDown c) heap x (codes "TEARDOWN") ((codes "Session", s.id) ∷ [])
      torn_down c refl (λ m. inr refl)

pub teardown-Post :
    (heap : ℕ) (x : Meeting) (c : RtspClient)
    → Comes (Post (λ a. a ≡ c) (IsTornDown c)) (teardown heap x c)
unfolding teardown
teardown-Post heap x c = teardown_in-Post heap x c.session c

torn_after :
    (c : RtspClient) (r : Option ClientError × RtspClient)
    → Post (λ b. b ≡ c) (IsTornDown c) r
    → IsTornDown c r.1
torn_after c (none, a) h = h
torn_after c (some e, a) h = inl h

abbrev pub IsLeft : RtspClient → RtspClient → Type 0
IsLeft c a = (b : RtspClient) × IsTornDown c b × (a ≡ record b { connected = false })

-- Disconnect never returns an error, and the client is connected no more.
pub disconnect-Post :
    (heap : ℕ) (x : Meeting) (c : RtspClient)
    → Comes (Post (λ a. ⊥) (IsLeft c)) (disconnect heap x c)
unfolding disconnect
disconnect-Post heap x c =
    Comes-if (Post (λ a. ⊥) (IsLeft c)) c.connected _ _
      (λ on.
        Comes-bind (Post (λ a. ⊥) (IsLeft c)) (teardown heap x c)
          (λ r. returns (none, record r.1 { connected = false }))
          (λ r h. (r.1, torn_after c r h, refl)) (teardown-Post heap x c))
      (λ off. (c, inl refl, ap (λ b. record c { connected = b }) off))
