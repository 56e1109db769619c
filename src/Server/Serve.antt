-- ===== src/Server/Serve.antt =====
-- server/server.go: handleClient, the loop of a connection over the handlers. The goroutine that PLAY
-- starts for a client on TCP, which would read beside the loop, is left out: no header that is parsed
-- makes a client use TCP.
pub mod Wire
use rtsp_go.Base.{
  ℕ, zero, suc, ◌≡◌, List, [], ◌∷◌, Result, ok, err, Outcome, returns, blocks, ◌>>=◌, if◌then◌else◌,
  Bool, length,
}
use rtsp_go.Base.Text.{Bytes}
use rtsp_go.Protocol.Message.{Message}
use rtsp_go.Reader.{ReadError, read_with}
use rtsp_go.Reader.Once.{read_once}
use rtsp_go.Server.{Server, Client, Context, Handled, handle_message}

-- readMessage, whose one Read of a body finds so many bytes.
pub read_message : ℕ → ℕ → Bytes → Outcome (Result ReadError (Message × Bytes))
read_message heap found = read_with (read_once heap found)

-- One round of the loop: what the other connections do to the server before it, how many bytes of a
-- body are found, what the handler learns from outside, and whether the response cannot be written.
pub record Round : Type 0 where
  pub others : Server → Server
  pub found : ℕ
  pub context : Context
  pub write_fails : Bool

-- The responses that were written, and what the connection leaves.
abbrev pub Served : Type 0
Served = Outcome (List Message × Server × Client)

pub add_response : Message → List Message × Server × Client → List Message × Server × Client
add_response m (ms, s, c) = (m ∷ ms, s, c)

-- The loop goes on behind a response that is written.
pub respond : Bool → (Server → Client → Served) → Message × Server × Client → Served
unfolding add_response
respond write_fails go_on (m, s, c) =
    let rest = go_on s c >>= λ r. returns (add_response m r) in
    if write_fails then returns ([], s, c) else rest

-- An error of the read ends the loop.
pub answer :
    Round
    → (Bytes → Server → Client → Served)
    → Server
    → Client
    → Result ReadError (Message × Bytes)
    → Served
unfolding respond
answer x go_on s c (err e) = returns ([], s, c)
answer x go_on s c (ok (m, rest)) =
    handle_message m x.context (x.others s) c >>= respond x.write_fails (go_on rest)

-- handleClient on what the connection delivers up to its end, the rounds being numbered from `k` on.
-- Each message takes a byte or more.
pub handle_client : ℕ → (ℕ → Round) → ℕ → ℕ → Bytes → Server → Client → Served
unfolding read_message answer
handle_client heap rounds zero k input s c = blocks
handle_client heap rounds (suc fuel) k input s c =
    let go_on = handle_client heap rounds fuel (suc k) in
    read_message heap (rounds k).found input >>= answer (rounds k) go_on s c

-- The same over messages: the handlers in the order of the requests.
pub handle_all : (ℕ → Round) → ℕ → List Message → Server → Client → Served
unfolding respond
handle_all rounds k [] s c = returns ([], s, c)
handle_all rounds k (m ∷ ms) s c =
    handle_message m (rounds k).context ((rounds k).others s) c
    >>= respond (rounds k).write_fails (handle_all rounds (suc k) ms)
