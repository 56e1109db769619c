-- ===== src/Client/Calls/Wire.antt =====
-- client/client.go and server/server.go: a client's request, over the wire, to the handlers.
use rtsp_go.Base.{ℕ, suc, false, [], returns, blocks, panics, length}
use rtsp_go.Base.Text.{Bytes}
use rtsp_go.Protocol.Message.{Message}
use rtsp_go.Reader.RoundTrip.{print_messages}
use rtsp_go.Server.{Server}
use rtsp_go.Server.Serve.{Round, Served, handle_client}
use rtsp_go.Client.{Meeting}

-- The text of the responses that were written.
pub printed : Served → Bytes
printed (returns (ms, s, c)) = print_messages ms
printed blocks = []
printed panics = []

-- A meeting at which nothing fails, with a server that reads the text of the request to its end.
abbrev pub with_server : ℕ → (ℕ → Round) → Server → rtsp_go.Server.Client → ℕ → ℕ → Meeting
with_server heap rounds s conn found now = record {
  write_fails = false;
  flush_fails = false;
  delivers = λ text. printed (handle_client heap rounds (suc (length text)) 0 text s conn);
  found = found;
  now = now;
}
