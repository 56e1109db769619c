-- ===== src/Proxy/Relay/Session/Requests.antt =====
-- proxy/proxy.go, proxy/rtsp_io.go: the requests of a client that sends well-formed messages.
use rtsp_go.Base.{
  ℕ, zero, suc, ◌<◌, ◌≡◌, refl, ap, ◌∙◌, List, [], ◌∷◌, ◌++◌, ok, returns, arith, All, length,
  subst,
}
use rtsp_go.Base.Text.{Bytes}
use rtsp_go.Protocol.Message.{Message, print_message}
use rtsp_go.Reader.{read_message}
use rtsp_go.Reader.Ends.{MessageEnds, read_message-MessageEnds}
use rtsp_go.Reader.RoundTrip.{
  print_messages, IsCarried, read_message-print_message, read_message-nil,
}
use rtsp_go.Proxy.Relay.Session.Answers.{requests}

requests-gave :
    (heap fuel : ℕ) (s rest : Bytes) (m : Message)
    → read_message heap s ≡ returns (ok (m, rest))
    → requests heap (suc fuel) s ≡ m ∷ requests heap fuel rest
unfolding requests
requests-gave heap fuel s rest m read = rw (read, requests) refl

-- The loop of a session takes from the text of any list of messages exactly these messages, in their
-- order, if each of them is one that ReadMessage gives back.
pub requests-print_messages :
    (heap fuel : ℕ) (ms : List Message)
    → All (IsCarried heap) ms
    → length (print_messages ms) < fuel
    → requests heap fuel (print_messages ms) ≡ ms
unfolding requests
requests-print_messages heap zero ms h enough = absurd (omega arith)
requests-print_messages heap (suc fuel) [] h enough = rw (read_message-nil heap, requests) refl
requests-print_messages heap (suc fuel) (m ∷ ms) ((printable, framed), h) enough =
    let rest = print_messages ms in
    let read = read_message-print_message heap m rest printable framed in
    let fewer : length rest < length (print_message m ++ rest) =
      subst (MessageEnds (length (print_message m ++ rest))) read
        (read_message-MessageEnds heap (print_message m ++ rest)) in
    requests-gave heap fuel (print_message m ++ rest) rest m read
    ∙ ap (◌∷◌ m) (requests-print_messages heap fuel ms h (omega arith))
