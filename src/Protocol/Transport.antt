-- ===== src/Protocol/Transport.antt =====
-- rtspProtocon/protocol.go: the Transport header, ParseTransport and its printer; and the questions
-- that rtspProtocon/tcp_transport.go asks of it.
pub mod Channel
pub mod Never
pub mod Fields
pub mod RoundTrip
pub mod Examples
use rtsp_go.Base.{
  ℕ, zero, suc, ◌%◌, Bool, true, false, List, [], ◌∷◌, ◌++◌, Option, none, some, Outcome, returns,
  panics, ◌>>=◌, if◌then◌else◌, not, ◌||◌,
}
use rtsp_go.Base.Int.{ℤ, pos, negsuc, wrap_byte}
use rtsp_go.Base.Text.{Bytes, codes, contains, split, trim_space, is_empty}
use rtsp_go.Base.Text.Decimal.{itoa, atoi}

pub data TransportType : Type 0 where
  rtp udp tcp interleaved_tcp : TransportType

pub record Transport : Type 0 where
  pub kind : TransportType
  pub client_ports : Bytes
  pub server_ports : Bytes
  pub ssrc : Bytes
  pub mode : Bytes
  pub unicast : Bool
  pub multicast : Bool
  pub ttl : ℤ
  pub destination : Bytes
  pub interleaved : Bytes

abbrev pub empty_transport : Transport
empty_transport = record {
  kind = rtp;
  client_ports = [];
  server_ports = [];
  ssrc = [];
  mode = [];
  unicast = true;
  multicast = false;
  ttl = pos 0;
  destination = [];
  interleaved = [];
}

-- parts[1], which panics where there is no second part.
pub second : List Bytes → Outcome Bytes
second [] = panics
second (p ∷ []) = panics
second (p ∷ q ∷ ps) = returns q

-- strings.Split(part, "=")[1]
pub value_of : Bytes → Outcome Bytes
value_of part = second (split part b'=')

pub set_ttl : Transport → Option ℤ → Transport
set_ttl t none = t
set_ttl t (some n) = record t { ttl = n }

-- The body of ParseTransport's loop, for a part that is trimmed.
pub read_part : Transport → Bytes → Outcome Transport
unfolding set_ttl
read_part t part =
    if contains part (codes "RTP/AVP")
    then returns (record t { kind = rtp })
    else if contains part (codes "RTP/AVPF")
    then returns (record t { kind = rtp })
    else if contains part (codes "RTP/AVP/TCP")
    then returns (record t { kind = interleaved_tcp })
    else if contains part (codes "client_port=")
    then (value_of part >>= λ v. returns (record t { client_ports = v }))
    else if contains part (codes "server_port=")
    then (value_of part >>= λ v. returns (record t { server_ports = v }))
    else if contains part (codes "ssrc=")
    then (value_of part >>= λ v. returns (record t { ssrc = v }))
    else if contains part (codes "mode=")
    then (value_of part >>= λ v. returns (record t { mode = v }))
    else if contains part (codes "unicast")
    then returns (record t { unicast = true; multicast = false })
    else if contains part (codes "multicast")
    then returns (record t { unicast = false; multicast = true })
    else if contains part (codes "ttl=")
    then (value_of part >>= λ v. returns (set_ttl t (atoi v)))
    else if contains part (codes "destination=")
    then (value_of part >>= λ v. returns (record t { destination = v }))
    else if contains part (codes "interleaved=")
    then (value_of part >>= λ v. returns (record t { interleaved = v }))
    else returns t

pub read_parts : Transport → List Bytes → Outcome Transport
read_parts t [] = returns t
read_parts t (p ∷ ps) = read_part t (trim_space p) >>= λ t'. read_parts t' ps

-- ParseTransport: it never gives an error.
unfoldable pub parse_transport : Bytes → Outcome Transport
parse_transport header = read_parts empty_transport (split header b';')

print_kind : TransportType → Bytes
print_kind rtp = codes "RTP/AVP"
print_kind udp = codes "UDP"
print_kind tcp = codes "TCP"
print_kind interleaved_tcp = codes "RTP/AVP/TCP"

print_cast : Bool → Bool → Bytes
print_cast true m = codes ";unicast"
print_cast false true = codes ";multicast"
print_cast false false = []

-- `;name=value`, unless the value is empty.
print_field : Bytes → Bytes → Bytes
print_field name [] = []
print_field name (c ∷ v) = b';' ∷ (name ++ c ∷ v)

-- Only a positive TTL is printed.
print_ttl : ℤ → Bytes
print_ttl (pos zero) = []
print_ttl (pos (suc n)) = b';' ∷ (codes "ttl=" ++ itoa (suc n))
print_ttl (negsuc n) = []

-- Transport.String
unfoldable pub print_transport : Transport → Bytes
unfolding print_kind print_cast print_field print_ttl
print_transport t =
    print_kind t.kind
    ++ (print_cast t.unicast t.multicast
        ++ (print_field (codes "client_port=") t.client_ports
            ++ (print_field (codes "server_port=") t.server_ports
                ++ (print_field (codes "ssrc=") t.ssrc
                    ++ (print_field (codes "mode=") t.mode
                        ++ (print_ttl t.ttl
                            ++ (print_field (codes "destination=") t.destination
                                ++ print_field (codes "interleaved=") t.interleaved)))))))

tcp_kind : TransportType → Bool
tcp_kind interleaved_tcp = true
tcp_kind tcp = true
tcp_kind _ = false

-- IsTCPTransport
unfoldable pub is_tcp_transport : Transport → Bool
unfolding tcp_kind
is_tcp_transport t = tcp_kind t.kind

-- The channel that the two parts of `a-b` name, if it is a number.
named_channel : List Bytes → Bool → Option ℕ
named_channel (p ∷ q ∷ ps) is_rtp = elim (atoi (if is_rtp then p else q)) [
  | none ↦ none
  | some n ↦ some (wrap_byte n)
]
named_channel _ is_rtp = none

default_channel : Bool → ℕ
default_channel is_rtp = if is_rtp then 0 else 1

-- GetTCPChannel
pub tcp_channel : Transport → Bool → ℕ
unfolding named_channel default_channel
tcp_channel t is_rtp =
    if is_empty t.interleaved
    then default_channel is_rtp
    else elim (named_channel (split t.interleaved b'-') is_rtp) [
      | some c ↦ c
      | none ↦ default_channel is_rtp
    ]
