-- ===== src/Protocol/Transport/Never.antt =====
-- rtspProtocon/protocol.go: what ParseTransport can never give.
use rtsp_go.Base.{
  ◌≡◌, refl, Bool, true, false, not, List, [], ◌∷◌, ◌++◌, Outcome, returns, ◌>>=◌, Gives, gives,
  Gives-map, if◌then◌else◌, Option, none, some,
}
use rtsp_go.Base.Text.{Bytes, codes, contains, split, trim_space}
use rtsp_go.Base.Text.Laws.{contains-append}
use rtsp_go.Base.Text.Search.{has_two, has_byte-contains, has_two-split}
use rtsp_go.Base.Text.Decimal.{atoi}
use rtsp_go.Protocol.Transport.{
  Transport, rtp, empty_transport, second, value_of, set_ttl, read_part, read_parts,
  parse_transport, is_tcp_transport,
}

-- The transport is plain RTP, and unicast or multicast.
pub record IsRtp (t : Transport) : Type 0 where
  pub is_rtp : t.kind ≡ rtp
  pub one_cast : t.multicast ≡ not t.unicast

second-Gives :
    (ps : List Bytes) (f : Bytes → Transport)
    → has_two ps ≡ true
    → ((v : Bytes) → IsRtp (f v))
    → Gives IsRtp (second ps >>= λ v. returns (f v))
unfolding second
second-Gives [] f h keep = cc
second-Gives (p ∷ []) f h keep = cc
second-Gives (p ∷ q ∷ ps) f h keep = gives (keep q)

-- A part that contains `name=` has a value.
valued :
    (part name : Bytes) (f : Bytes → Transport)
    → ((v : Bytes) → IsRtp (f v))
    → contains part (name ++ b'=' ∷ []) ≡ true
    → Gives IsRtp (value_of part >>= λ v. returns (f v))
unfolding value_of
valued part name f keep h =
    second-Gives (split part b'=') f (has_two-split part b'=' (has_byte-contains b'=' part name h))
      keep

set_ttl-IsRtp : (t : Transport) (o : Option _) → IsRtp t → IsRtp (set_ttl t o)
unfolding set_ttl
set_ttl-IsRtp t none w = w
set_ttl-IsRtp t (some n) w = record { is_rtp = w.is_rtp; one_cast = w.one_cast }

never_tcp :
    (part : Bytes)
    → contains part (codes "RTP/AVP") ≡ false
    → contains part (codes "RTP/AVP/TCP") ≡ true
    → ⊥
never_tcp part no_avp tcp = cc (no_avp, contains-append part (codes "RTP/AVP") (codes "/TCP") tcp)

choose :
    (b : Bool) {x y : Outcome Transport}
    → (b ≡ true → Gives IsRtp x)
    → (b ≡ false → Gives IsRtp y)
    → Gives IsRtp (if b then x else y)
choose true f g = f refl
choose false f g = g refl

read_part-IsRtp : (t : Transport) (part : Bytes) → IsRtp t → Gives IsRtp (read_part t part)
unfolding read_part
read_part-IsRtp t part w =
    choose (contains part (codes "RTP/AVP"))
      (λ _. gives (record { is_rtp = refl; one_cast = w.one_cast }))
      λ no_avp.
        choose (contains part (codes "RTP/AVPF"))
          (λ _. gives (record { is_rtp = refl; one_cast = w.one_cast }))
          λ _.
            choose (contains part (codes "RTP/AVP/TCP")) (λ tcp. absurd (never_tcp part no_avp tcp))
              λ _.
                choose (contains part (codes "client_port="))
                  (valued part (codes "client_port") _
                    (λ v. record { is_rtp = w.is_rtp; one_cast = w.one_cast }))
                  λ _.
                    choose (contains part (codes "server_port="))
                      (valued part (codes "server_port") _
                        (λ v. record { is_rtp = w.is_rtp; one_cast = w.one_cast }))
                      λ _.
                        choose (contains part (codes "ssrc="))
                          (valued part (codes "ssrc") _
                            (λ v. record { is_rtp = w.is_rtp; one_cast = w.one_cast }))
                          λ _.
                            choose (contains part (codes "mode="))
                              (valued part (codes "mode") _
                                (λ v. record { is_rtp = w.is_rtp; one_cast = w.one_cast }))
                              λ _.
                                choose (contains part (codes "unicast"))
                                  (λ _. gives (record { is_rtp = w.is_rtp; one_cast = refl }))
                                  λ _.
                                    choose (contains part (codes "multicast"))
                                      (λ _. gives (record { is_rtp = w.is_rtp; one_cast = refl }))
                                      λ _.
                                        choose (contains part (codes "ttl="))
                                          (valued part (codes "ttl") _
                                            (λ v. set_ttl-IsRtp t (atoi v) w))
                                          λ _.
                                            choose (contains part (codes "destination="))
                                              (valued part (codes "destination") _ (λ v. record {
                                                is_rtp = w.is_rtp;
                                                one_cast = w.one_cast;
                                              }))
                                              λ _.
                                                choose (contains part (codes "interleaved="))
                                                  (valued part (codes "interleaved") _ (λ v.
                                                    record {
                                                      is_rtp = w.is_rtp;
                                                      one_cast = w.one_cast;
                                                    }))
                                                  λ _. gives w

then_parts :
    {o : Outcome Transport} (ps : List Bytes)
    → ((t : Transport) → IsRtp t → Gives IsRtp (read_parts t ps))
    → Gives IsRtp o
    → Gives IsRtp (o >>= λ t. read_parts t ps)
then_parts ps k (gives {a} w) = k a w

read_parts-IsRtp : (t : Transport) (ps : List Bytes) → IsRtp t → Gives IsRtp (read_parts t ps)
unfolding read_parts
read_parts-IsRtp t [] w = gives w
read_parts-IsRtp t (p ∷ ps) w =
    then_parts ps (λ t' w'. read_parts-IsRtp t' ps w') (read_part-IsRtp t (trim_space p) w)

-- ParseTransport returns for every header, without a panic, and its transport is plain RTP, either
-- unicast or multicast.
pub parse_transport-IsRtp : (header : Bytes) → Gives IsRtp (parse_transport header)
unfolding parse_transport
parse_transport-IsRtp header =
    read_parts-IsRtp empty_transport (split header b';') (record { is_rtp = refl; one_cast = refl })

pub tcp_kind-rtp : (t : Transport) → IsRtp t → is_tcp_transport t ≡ false
unfolding is_tcp_transport
tcp_kind-rtp t w = rw (w.is_rtp)

-- No header, `RTP/AVP/TCP` included, is taken for a TCP transport.
pub is_tcp_transport-parse_transport :
    (header : Bytes) → Gives (λ t. is_tcp_transport t ≡ false) (parse_transport header)
is_tcp_transport-parse_transport header = Gives-map tcp_kind-rtp (parse_transport-IsRtp header)
