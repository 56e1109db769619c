-- ===== src/Server/Serve/Wire.antt =====
-- server/server.go: the loop of a connection ends, and on the wire it is the handlers in order.
use rtsp_go.Base.{
  ℕ, zero, suc, ◌<◌, ◌≡◌, ap, ◌∙◌, true, false, List, [], ◌∷◌, ◌++◌, ok, returns, ◌>>=◌, All,
  length, arith, subst, if◌then◌else◌,
}
use rtsp_go.Base.Text.{Bytes}
use rtsp_go.Base.Sync.{free}
use rtsp_go.Protocol.Message.{Message, print_message}
use rtsp_go.Reader.Ends.{MessageEnds, read_with-MessageEnds}
use rtsp_go.Reader.Once.{read_once, read_once-BodyEnds, IsBare, read_once_bare}
use rtsp_go.Reader.RoundTrip.{print_messages, read_with-nil}
use rtsp_go.Server.{Server, Client, handle_message}
use rtsp_go.Server.Total.{is_answer}
use rtsp_go.Server.Serve.{
  Round, read_message, add_response, respond, answer, handle_client, handle_all,
}

-- Whatever the other connections do, the ports' mutex is free behind it.
abbrev pub LeavesFree : (ℕ → Round) → Type 0
LeavesFree rounds =
    (k : ℕ) (s : Server) → s.ports_mutex ≡ free → ((rounds k).others s).ports_mutex ≡ free

-- All responses have one of the handlers' codes, and the ports' mutex is free.
abbrev pub IsServed : List Message × Server × Client → Type 0
IsServed (ms, s, c) =
    All (λ (m : Message). is_answer m.status_code ≡ true) ms × (s.ports_mutex ≡ free)

read_message-MessageEnds :
    (heap found : ℕ) (s : Bytes) → MessageEnds (length s) (read_message heap found s)
unfolding read_message
read_message-MessageEnds heap found s =
    read_with-MessageEnds (read_once heap found) s (read_once-BodyEnds heap found)

-- With more fuel than bytes, the loop of a connection on the text of requests without bodies, each of them one that its text
-- carries, is the handlers one after the other: it writes the responses of these requests in their
-- order, up to the first that cannot be written, and leaves the server and the connection as they do.
pub handle_client-print_messages :
    (heap : ℕ) (rounds : ℕ → Round) (fuel k : ℕ) (ms : List Message) (s : Server) (c : Client)
    → All (IsBare heap) ms
    → length (print_messages ms) < fuel
    → handle_client heap rounds fuel k (print_messages ms) s c ≡ handle_all rounds k ms s c
unfolding handle_client handle_all answer
handle_client-print_messages heap rounds zero k ms s c h enough = absurd (omega arith)
handle_client-print_messages heap rounds (suc fuel) k [] s c h enough =
    let go_on = handle_client heap rounds fuel (suc k) in
    ap (λ o. o >>= answer (rounds k) go_on s c)
      (unfold read_message in read_with-nil (read_once heap (rounds k).found))
handle_client-print_messages heap rounds (suc fuel) k (m ∷ ms) s c (bare, h) enough =
    let x = rounds k in
    let rest = print_messages ms in
    let read : read_message heap x.found (print_message m ++ rest) ≡ returns (ok (m, rest)) =
      unfold read_message in read_once_bare heap x.found m rest bare in
    let fewer : length rest < length (print_message m ++ rest) =
      subst (MessageEnds (length (print_message m ++ rest))) read
        (read_message-MessageEnds heap x.found (print_message m ++ rest)) in
    let go_on = handle_client heap rounds fuel (suc k) in
    let enough_left : length rest < fuel = omega arith in
    ap (λ o. o >>= answer x go_on s c) read ∙ (λ i.
      handle_message m x.context (x.others s) c
      >>= respond x.write_fails
          (λ s' c'. handle_client-print_messages heap rounds fuel (suc k) ms s' c' h enough_left i))

-- One request whose response is written.
pub handle_all_one :
    (rounds : ℕ → Round) (k : ℕ) (m r : Message) (s s' : Server) (c c' : Client)
    → (rounds k).write_fails ≡ false
    → handle_message m (rounds k).context ((rounds k).others s) c ≡ returns (r, s', c')
    → handle_all rounds k (m ∷ []) s c ≡ returns (r ∷ [], s', c')
unfolding handle_all respond add_response
handle_all_one rounds k m r s s' c c' written handled =
    ap (λ o. o >>= respond (rounds k).write_fails (handle_all rounds (suc k) [])) handled
    ∙ ap (λ b. if b then returns ([], s', c') else returns (r ∷ [], s', c')) written
