-- ===== src/Protocol/Transport/Fields.antt =====
-- rtspProtocon/protocol.go: what ParseTransport makes of one printed field.
use rtsp_go.Base.{ℕ, ◌≤◌, ◌≡◌, ◌≢◌, refl, false, [], ◌∷◌, ◌++◌, returns, arith, All}
use rtsp_go.Base.Text.{Bytes, codes, contains, has_prefix, is_space}
use rtsp_go.Base.Text.Laws.{Lacks, split-append, split-Lacks_self}
use rtsp_go.Base.Text.Search.{contains-Lacks, NoSpace}
use rtsp_go.Base.Text.Decimal.{atoi, IsDigit}
use rtsp_go.Protocol.Transport.{Transport, second, value_of, set_ttl, read_part}

-- Digits, upper case letters, `-` and `.`: what ports, channels, addresses and modes are written with.
abbrev pub IsPlain : ℕ → Type 0
IsPlain c = (45 ≤ c) × (c ≤ 90) × (c ≢ b'/') × (c ≢ b';') × (c ≢ b'=')

pub plain-Lacks : (d : ℕ) (v : Bytes) → ((c : ℕ) → IsPlain c → c ≢ d) → All IsPlain v → Lacks d v
plain-Lacks d [] f h = tt
plain-Lacks d (c ∷ v) f (hc, h) = (f c hc, plain-Lacks d v f h)

pub plain-NoSpace : (v : Bytes) → All IsPlain v → All NoSpace v
unfolding is_space
plain-NoSpace [] h = tt
plain-NoSpace (c ∷ v) (hc, h) = (ground arith, plain-NoSpace v h)

pub digits-IsPlain : (v : Bytes) → All IsDigit v → All IsPlain v
digits-IsPlain [] h = tt
digits-IsPlain (c ∷ v) (hc, h) = (omega arith, digits-IsPlain v h)

value_of_field :
    (name v : Bytes) → Lacks b'=' name → Lacks b'=' v → value_of (name ++ b'=' ∷ v) ≡ returns v
unfolding value_of second
value_of_field name v hn hv = rw (split-append name v b'=' hn, split-Lacks_self v b'=' hv)

-- A plain value sets off no test of ParseTransport, so the field's name decides.
module _ (t : Transport) (v : Bytes) (plain : All IsPlain v) where
  no_slash : Lacks b'/' v
  no_slash = plain-Lacks b'/' v (λ c h. h.2) plain

  no_equals : Lacks b'=' v
  no_equals = plain-Lacks b'=' v (λ c h. h.4) plain

  no_letter : Lacks b'u' v
  no_letter = plain-Lacks b'u' v (λ c h. omega arith) plain

  not_avp : contains v (codes "RTP/AVP") ≡ false
  not_avp = contains-Lacks b'/' v (codes "RTP/AVP") no_slash refl

  not_avpf : contains v (codes "RTP/AVPF") ≡ false
  not_avpf = contains-Lacks b'/' v (codes "RTP/AVPF") no_slash refl

  not_tcp : contains v (codes "RTP/AVP/TCP") ≡ false
  not_tcp = contains-Lacks b'/' v (codes "RTP/AVP/TCP") no_slash refl

  not_client : contains v (codes "client_port=") ≡ false
  not_client = contains-Lacks b'=' v (codes "client_port=") no_equals refl

  not_server : contains v (codes "server_port=") ≡ false
  not_server = contains-Lacks b'=' v (codes "server_port=") no_equals refl

  not_ssrc : contains v (codes "ssrc=") ≡ false
  not_ssrc = contains-Lacks b'=' v (codes "ssrc=") no_equals refl

  not_mode : contains v (codes "mode=") ≡ false
  not_mode = contains-Lacks b'=' v (codes "mode=") no_equals refl

  not_unicast : contains v (codes "unicast") ≡ false
  not_unicast = contains-Lacks b'u' v (codes "unicast") no_letter refl

  not_multicast : contains v (codes "multicast") ≡ false
  not_multicast = contains-Lacks b'u' v (codes "multicast") no_letter refl

  not_ttl : contains v (codes "ttl=") ≡ false
  not_ttl = contains-Lacks b'=' v (codes "ttl=") no_equals refl

  not_destination : contains v (codes "destination=") ≡ false
  not_destination = contains-Lacks b'=' v (codes "destination=") no_equals refl

  pub read_client_port :
      read_part t (codes "client_port=" ++ v) ≡ returns (record t { client_ports = v })
  unfolding read_part contains has_prefix
  read_client_port =
      rw (not_avp, not_avpf, not_tcp)
        (rw (value_of_field (codes "client_port") v (omega arith) no_equals))

  pub read_server_port :
      read_part t (codes "server_port=" ++ v) ≡ returns (record t { server_ports = v })
  unfolding read_part contains has_prefix
  read_server_port =
      rw (not_avp, not_avpf, not_tcp, not_client)
        (rw (value_of_field (codes "server_port") v (omega arith) no_equals))

  pub read_ssrc : read_part t (codes "ssrc=" ++ v) ≡ returns (record t { ssrc = v })
  unfolding read_part contains has_prefix
  read_ssrc =
      rw (not_avp, not_avpf, not_tcp, not_client, not_server)
        (rw (value_of_field (codes "ssrc") v (omega arith) no_equals))

  pub read_mode : read_part t (codes "mode=" ++ v) ≡ returns (record t { mode = v })
  unfolding read_part contains has_prefix
  read_mode =
      rw (not_avp, not_avpf, not_tcp, not_client, not_server, not_ssrc)
        (rw (value_of_field (codes "mode") v (omega arith) no_equals))

  pub read_ttl : read_part t (codes "ttl=" ++ v) ≡ returns (set_ttl t (atoi v))
  unfolding read_part contains has_prefix
  read_ttl =
      rw
        (
          not_avp, not_avpf, not_tcp, not_client, not_server, not_ssrc, not_mode, not_unicast,
          not_multicast,
        )
        (rw (value_of_field (codes "ttl") v (omega arith) no_equals))

  pub read_destination :
      read_part t (codes "destination=" ++ v) ≡ returns (record t { destination = v })
  unfolding read_part contains has_prefix
  read_destination =
      rw
        (
          not_avp, not_avpf, not_tcp, not_client, not_server, not_ssrc, not_mode, not_unicast,
          not_multicast, not_ttl,
        )
        (rw (value_of_field (codes "destination") v (omega arith) no_equals))

  pub read_interleaved :
      read_part t (codes "interleaved=" ++ v) ≡ returns (record t { interleaved = v })
  unfolding read_part contains has_prefix
  read_interleaved =
      rw
        (
          not_avp, not_avpf, not_tcp, not_client, not_server, not_ssrc, not_mode, not_unicast,
          not_multicast, not_ttl, not_destination,
        )
        (rw (value_of_field (codes "interleaved") v (omega arith) no_equals))
