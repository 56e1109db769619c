-- ===== src/Protocol/Transport/Channel.antt =====
-- rtspProtocon/tcp_transport.go: GetTCPChannel on the `a-b` that the server prints.
use rtsp_go.Base.{ℕ, ◌%◌, ◌^◌, ◌<◌, ◌≡◌, refl, true, false, [], ◌∷◌, ◌++◌, arith, All}
use rtsp_go.Base.Text.{Bytes, split, is_empty}
use rtsp_go.Base.Text.Laws.{Lacks, split-append, split-Lacks_self}
use rtsp_go.Base.Text.Decimal.{itoa, atoi-itoa, itoa-IsDigit, IsDigit}
use rtsp_go.Protocol.Transport.{Transport, tcp_channel}

digits-Lacks : (v : Bytes) → All IsDigit v → Lacks b'-' v
digits-Lacks [] h = tt
digits-Lacks (c ∷ v) (hc, h) = (omega arith, digits-Lacks v h)

-- `a-b` as the server prints it with %d-%d.
abbrev pub print_pair : ℕ → ℕ → Bytes
print_pair a b = itoa a ++ b'-' ∷ itoa b

split-print_pair : (a b : ℕ) → split (print_pair a b) b'-' ≡ itoa a ∷ itoa b ∷ []
split-print_pair a b = rw (
  split-append (itoa a) (itoa b) b'-' (digits-Lacks (itoa a) (itoa-IsDigit a)),
  split-Lacks_self (itoa b) b'-' (digits-Lacks (itoa b) (itoa-IsDigit b)),
)

pair-not_empty : (p q : Bytes) → is_empty (p ++ b'-' ∷ q) ≡ false
unfolding is_empty
pair-not_empty [] q = refl
pair-not_empty (c ∷ p) q = refl

-- The interleaved channels a-b, both below 2^63, are read as the bytes a and b modulo 256;
-- without the field they are 0 and 1.
pub tcp_channel-print_pair :
    (t : Transport) (a b : ℕ)
    → a < 2 ^ 63
    → b < 2 ^ 63
    → (tcp_channel (record t { interleaved = print_pair a b }) true ≡ a % 256)
      × (tcp_channel (record t { interleaved = print_pair a b }) false ≡ b % 256)
      × (tcp_channel (record t { interleaved = [] }) true ≡ 0)
      × (tcp_channel (record t { interleaved = [] }) false ≡ 1)
unfolding tcp_channel is_empty
tcp_channel-print_pair t a b ha hb = (at_rtp, at_rtcp, refl, refl)
  where
    at_rtp : tcp_channel (record t { interleaved = print_pair a b }) true ≡ a % 256
    at_rtp =
        rw (pair-not_empty (itoa a) (itoa b), tcp_channel)
          (rw (split-print_pair a b, tcp_channel) (rw (atoi-itoa a ha)))

    at_rtcp : tcp_channel (record t { interleaved = print_pair a b }) false ≡ b % 256
    at_rtcp =
        rw (pair-not_empty (itoa a) (itoa b), tcp_channel)
          (rw (split-print_pair a b, tcp_channel) (rw (atoi-itoa b hb)))
