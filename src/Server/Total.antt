-- ===== src/Server/Total.antt =====
-- server/server.go: every request gets an answer.
use rtsp_go.Base.{
  ℕ, ◌≡◌, refl, ap, arith, Bool, true, false, ◌||◌, Option, none, some, returns, Gives, gives,
  Gives-bind, Result, ok, err, ◌==◌, Bool-cases, inl, inr, if◌then◌else◌, ◌&&◌,
}
use rtsp_go.Base.Int.{ℤ, pos, negsuc}
use rtsp_go.Base.Text.{Bytes, codes, is_empty, text_eq, has_prefix, trim_space, is_space}
use rtsp_go.Base.Text.Decimal.{atoi, print_int, itoa}
use rtsp_go.Base.Dict.{lookup, insert, bytes_eq}
use rtsp_go.Base.Sync.{free}
use rtsp_go.Ports.{PortManager, PortAllocation, RetryError}
use rtsp_go.Ports.Allocate.{release_ports_lem}
use rtsp_go.Ports.Retry.{allocate_ports_with_retry_lem}
use rtsp_go.Protocol.Message.{
  Message, new_response, first_line, body_of, read_line, set_header, get_header,
}
use rtsp_go.Protocol.Session.{Session, get_status_text-ok}
use rtsp_go.Reader.{trim_line_end, body_length}
use rtsp_go.Reader.Once.{IsBare}
use rtsp_go.Protocol.Transport.{Transport, is_tcp_transport}
use rtsp_go.Protocol.Transport.Never.{parse_transport-IsRtp}
use rtsp_go.Server.{
  status, Server, Client, Context, Stream, Handled, handle_options, describe, handle_describe,
  setup_response, open_session, setup_tcp, setup_ports, setup_udp, handle_setup, play, handle_play,
  pause, handle_pause, release_allocation, release_transport, is_some, handle_teardown,
  handle_message, extract_stream_name,
}

-- The codes that the handlers answer with.
pub is_answer : ℤ → Bool
is_answer (pos n) = n == 200 || n == 400 || n == 404 || n == 405 || n == 503
is_answer (negsuc n) = false

-- An answer, with the ports' mutex free.
abbrev pub IsAnswered : Message × Server × Client → Type 0
IsAnswered (m, s, c) = (s.ports_mutex ≡ free) × (is_answer m.status_code ≡ true)

either :
    (b : Bool) (o p : Handled)
    → Gives IsAnswered o
    → Gives IsAnswered p
    → Gives IsAnswered (if b then o else p)
either true o p ho hp = ho
either false o p ho hp = hp

describe-answers : (o : Option Stream) → is_answer (describe o).status_code ≡ true
unfolding describe is_answer set_header
describe-answers none = refl
describe-answers (some stream) = refl

play-answers :
    (o : Option Session) (sid : Bytes) (now : ℕ) (s : Server) (c : Client)
    → s.ports_mutex ≡ free
    → Gives IsAnswered (play o sid now s c)
unfolding play is_answer set_header
play-answers none sid now s c h = gives (h, refl)
play-answers (some session) sid now s c h = gives (h, refl)

pause-answers :
    (o : Option Session) (sid : Bytes) (now : ℕ) (s : Server) (c : Client)
    → s.ports_mutex ≡ free
    → Gives IsAnswered (pause o sid now s c)
unfolding pause is_answer set_header
pause-answers none sid now s c h = gives (h, refl)
pause-answers (some session) sid now s c h = gives (h, refl)

-- The transport's resources are given back with the mutex free.
abbrev HasFree : Server → Type 0
HasFree s = s.ports_mutex ≡ free

release-answers :
    (o : Option PortAllocation) (s : Server) → HasFree s → Gives HasFree (release_allocation o s)
unfolding release_allocation
release-answers none s h = gives h
release-answers (some a) s h = rw (h, release_ports_lem a s.ports) (gives refl)

transport-answers :
    (sid : Bytes) (s : Server) (c : Client) → HasFree s → Gives HasFree (release_transport sid s c)
unfolding release_transport
transport-answers sid s c h = elim (Bool-cases (c.use_tcp && is_some c.channel)) [
  | inl tcp ↦ rw tcp (gives h)
  | inr udp ↦ rw udp (release-answers c.allocation s h)
]

teardown-answers :
    (m : Message) (s : Server) (c : Client) → HasFree s → Gives IsAnswered (handle_teardown m s c)
unfolding handle_teardown is_answer set_header
teardown-answers m s c h = elim (Bool-cases (is_empty (get_header (codes "Session") m))) [
  | inl no_id ↦ rw no_id (gives (h, refl))
  | inr has_id ↦ rw has_id (Gives-bind _ (λ s' h'. gives (h', refl)) (transport-answers _ _ c h))
]

ports-answers :
    (t : Transport) (x : Context) (s : Server) (c : Client) (r : Result RetryError PortAllocation)
    (pm : PortManager)
    → IsAnswered (setup_ports t x s c (r, free, pm))
unfolding setup_ports setup_response is_answer set_header
ports-answers t x s c (ok a) pm = (refl, refl)
ports-answers t x s c (err e) pm = (refl, refl)

udp-answers :
    (t : Transport) (x : Context) (s : Server) (c : Client)
    → HasFree s
    → Gives IsAnswered (setup_udp t x s c)
unfolding setup_udp
udp-answers t x s c h =
    let (r, pm, run, good) = allocate_ports_with_retry_lem x.session_id 3 x.attempts s.ports in
    rw h (rw run (gives (ports-answers t x s c r pm)))

setup-answers :
    (m : Message) (x : Context) (s : Server) (c : Client)
    → HasFree s
    → Gives IsAnswered (handle_setup m x s c)
unfolding handle_setup setup_tcp setup_response open_session is_answer set_header
setup-answers m x s c h = elim (Bool-cases (is_empty (get_header (codes "Transport") m))) [
  | inl no_header ↦ rw no_header (gives (h, refl))
  | inr has_header ↦ rw has_header (
      Gives-bind _
        (λ t w.
          either (is_tcp_transport t) (setup_tcp t x (open_session m x s) c)
            (setup_udp t x (open_session m x s) c) (gives (h, refl))
            (udp-answers t x (open_session m x s) c h))
        (parse_transport-IsRtp (get_header (codes "Transport") m)))
]

options-answers : (s : Server) (c : Client) → HasFree s → Gives IsAnswered (handle_options s c)
unfolding handle_options is_answer set_header
options-answers s c h = gives (h, refl)

described :
    (m : Message) (s : Server) (c : Client) → HasFree s → Gives IsAnswered (handle_describe m s c)
unfolding handle_describe
described m s c h = gives (h, describe-answers (lookup (extract_stream_name m.url) s.streams))

refused :
    (code : ℕ) (s : Server) (c : Client)
    → HasFree s
    → is_answer (pos code) ≡ true
    → Gives IsAnswered (returns (status code, s, c))
refused code s c h a = gives (h, a)

played :
    (m : Message) (now : ℕ) (s : Server) (c : Client)
    → HasFree s
    → Gives IsAnswered (handle_play m now s c)
unfolding handle_play is_answer
played m now s c h =
    let sid = get_header (codes "Session") m in
    either (is_empty sid) (returns (status 400, s, c)) (play (lookup sid s.sessions) sid now s c)
      (refused 400 s c h refl) (play-answers (lookup sid s.sessions) sid now s c h)

paused :
    (m : Message) (now : ℕ) (s : Server) (c : Client)
    → HasFree s
    → Gives IsAnswered (handle_pause m now s c)
unfolding handle_pause is_answer
paused m now s c h =
    let sid = get_header (codes "Session") m in
    either (is_empty sid) (returns (status 400, s, c)) (pause (lookup sid s.sessions) sid now s c)
      (refused 400 s c h refl) (pause-answers (lookup sid s.sessions) sid now s c h)

-- Every request is answered, whatever it holds, by a server whose ports' mutex is free:
-- handleMessage neither panics nor waits for ever, the mutex is free again, and the status is
-- 200, 400, 404, 405 or 503.
pub handle_message-IsAnswered :
    (m : Message) (x : Context) (s : Server) (c : Client)
    → s.ports_mutex ≡ free
    → Gives IsAnswered (handle_message m x s c)
unfolding handle_message is_answer
handle_message-IsAnswered m x s c h =
    let is = λ (name : Bytes). text_eq m.method name in
    either (is (codes "OPTIONS")) _ _ (options-answers s c h) (
      either (is (codes "DESCRIBE")) _ _ (described m s c h) (
        either (is (codes "SETUP")) _ _ (setup-answers m x s c h) (
          either (is (codes "PLAY")) _ _ (played m x.now s c h) (
            either (is (codes "PAUSE")) _ _ (paused m x.now s c h) (
              either (is (codes "TEARDOWN")) _ _ (teardown-answers m s c h)
                (refused 405 s c h refl))))))

with_headers : Message → Message
unfolding set_header
with_headers m =
    set_header (codes "Server") (codes "Go-RTSP-Server/1.0")
      (set_header (codes "Public") (codes "OPTIONS, DESCRIBE, SETUP, PLAY, PAUSE, TEARDOWN") m)

-- What OPTIONS is answered.
pub options_response : Message
unfolding with_headers
options_response = with_headers (new_response (pos 200) (codes "OK"))

pub handle_message-options :
    (m : Message) (x : Context) (s : Server) (c : Client)
    → text_eq m.method (codes "OPTIONS") ≡ true
    → handle_message m x s c ≡ returns (options_response, s, c)
unfolding handle_message handle_options options_response with_headers
handle_message-options m x s c h =
    rw h (ap (λ t. returns (with_headers (new_response (pos 200) t), s, c)) get_status_text-ok)

pub options_response-IsBare : (heap : ℕ) → IsBare heap options_response
unfolding options_response with_headers set_header first_line lookup trim_space is_space has_prefix
    text_eq trim_line_end is_empty body_length body_of read_line atoi print_int itoa insert
options_response-IsBare heap = (
  (
    (
      (omega arith, refl, refl, refl, (200, omega arith, refl)),
      omega arith,
      (
        (omega arith, omega arith, omega arith, refl, refl),
        ((omega arith, omega arith, omega arith, refl, refl), tt),
      ),
      (refl, (refl, tt)),
    ),
    (
      ((omega arith, refl, refl), ((omega arith, refl, refl), ((omega arith, refl, refl), tt))),
      refl,
      omega arith,
      refl,
    ),
  ),
  refl,
)

pub options_response-status : options_response.status_code ≡ pos 200
unfolding options_response with_headers set_header
options_response-status = refl
