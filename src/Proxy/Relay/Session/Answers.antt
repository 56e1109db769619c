-- ===== src/Proxy/Relay/Session/Answers.antt =====
-- proxy/proxy.go: a whole session comes to an end; its answers, its upstream and its counters.
use rtsp_go.Base.{
  ℕ, zero, suc, ◌+◌, ◌≡◌, Bool, true, false, List, [], ◌∷◌, ok, err, returns, blocks, panics,
  length,
}
use rtsp_go.Base.Word.{u64}
use rtsp_go.Base.Text.{Bytes}
use rtsp_go.Protocol.Message.{Message}
use rtsp_go.Reader.{read_message}
use rtsp_go.Proxy.Relay.{ProxyConfig, Urls, Exchange}
use rtsp_go.Proxy.Relay.Session.{Relay}
use rtsp_go.Proxy.Relay.Upstream.{Sound}

abbrev pub SoundRelay : Relay → Type 0
SoundRelay st = Sound st.session st.forwarded

-- A response has been written and counted, unless writing it failed.
abbrev pub Grown : Bool → Relay → Relay → Type 0
Grown true st after = Unit
Grown false st after =
    (length after.output ≡ length st.output + 1)
    × (after.stats.messages_forwarded ≡ u64 (st.stats.messages_forwarded + 1))

-- The requests that the client's bytes hold, up to what is not a message.
unfoldable pub requests : ℕ → ℕ → Bytes → List Message
requests heap zero s = []
requests heap (suc fuel) s = elim (read_message heap s) [
  | blocks ↦ []
  | panics ↦ []
  | returns r ↦ elim r [ err e ↦ [] | ok m ↦ m.0 ∷ requests heap fuel m.1 ]
]

module _ (urls : Urls) (config : ProxyConfig) (heap : ℕ) where
  abbrev Round : Exchange → Relay → Relay → Type 0
  Round exchange st after = SoundRelay after × Grown exchange.reply_fails st after

  -- One response for each request, if the client takes them all.
  abbrev pub Answered : ℕ → (ℕ → Exchange) → Relay → Relay → Type 0
  Answered count exchanges st after =
      SoundRelay after
      × (((n : ℕ) → (exchanges n).reply_fails ≡ false)
          → (length after.output ≡ length st.output + count)
            × (after.stats.messages_forwarded ≡ u64 (st.stats.messages_forwarded + count)))
