-- ===== src/Protocol/Transport/RoundTrip.antt =====
-- rtspProtocon/protocol.go: a Transport header that was printed is read back.
use rtsp_go.Base.{
  ℕ, zero, suc, ◌<◌, ◌^◌, ◌≡◌, refl, sym, ap, ◌∙◌, Bool, true, false, not, List, [], ◌∷◌, ◌++◌,
  append-nil, Outcome, returns, ◌>>=◌, arith, All, All-append,
}
use rtsp_go.Base.Int.{pos}
use rtsp_go.Base.Text.{Bytes, codes, contains, has_prefix, split, is_space}
use rtsp_go.Base.Text.Laws.{Lacks, split-append, split-Lacks_self}
use rtsp_go.Base.Text.Search.{trim_space-NoSpace, NoSpace, NoSpace-of_test}
use rtsp_go.Base.Text.Decimal.{itoa, atoi-itoa, itoa-IsDigit}
use rtsp_go.Protocol.Transport.{
  Transport, rtp, empty_transport, set_ttl, read_part, read_parts, parse_transport, print_transport,
  print_field, print_ttl, print_cast, print_kind,
}
use rtsp_go.Protocol.Transport.Fields.{
  IsPlain, plain-Lacks, plain-NoSpace, digits-IsPlain, read_client_port, read_server_port,
  read_ssrc, read_mode, read_ttl, read_destination, read_interleaved,
}

-- What follows a part: nothing, or a semicolon and more.
abbrev IsTail : Bytes → Type 0
IsTail [] = Unit {0}
IsTail (c ∷ s) = c ≡ b';'

-- Reading goes on behind a part.
abbrev read_tail : Transport → Bytes → Outcome Transport
read_tail t [] = returns t
read_tail t (c ∷ s) = read_parts t (split s b';')

read_parts_step :
    (t t' : Transport) (part : Bytes) (ps : List Bytes)
    → All NoSpace part
    → read_part t part ≡ returns t'
    → read_parts t (part ∷ ps) ≡ read_parts t' ps
unfolding read_parts
read_parts_step t t' part ps bare e =
    ap (λ p. read_part t p >>= λ u. read_parts u ps) (trim_space-NoSpace part bare)
    ∙ ap (λ o. o >>= λ u. read_parts u ps) e

read_parts_end : (t : Transport) → read_parts t [] ≡ returns t
unfolding read_parts
read_parts_end t = refl

read_first :
    (t t' : Transport) (part tail : Bytes)
    → Lacks b';' part
    → All NoSpace part
    → IsTail tail
    → read_part t part ≡ returns t'
    → read_parts t (split (part ++ tail) b';') ≡ read_tail t' tail
read_first t t' part [] lacks bare h e =
    rw (append-nil part, split-Lacks_self part b';' lacks)
      (read_parts_step t t' part [] bare e ∙ read_parts_end t')
read_first t t' part (c ∷ s) lacks bare h e =
    rw (h, split-append part s b';' lacks) (read_parts_step t t' part (split s b';') bare e)

-- One optional field: it sets its value, or is empty and not printed.
field_read :
    (name : Bytes) (f : Bytes → Transport) (v tail : Bytes)
    → Lacks b';' name
    → All NoSpace name
    → All IsPlain v
    → IsTail tail
    → ((v : Bytes) → All IsPlain v → read_part (f []) (name ++ v) ≡ returns (f v))
    → read_tail (f []) (print_field name v ++ tail) ≡ read_tail (f v) tail
unfolding print_field
field_read name f [] tail lacks bare plain h e = refl
field_read name f (c ∷ v) tail lacks bare plain h e =
    read_first (f []) (f (c ∷ v)) (name ++ c ∷ v) tail
      (All-append _ name (c ∷ v) lacks (plain-Lacks b';' (c ∷ v) (λ c h. h.3) plain))
      (All-append _ name (c ∷ v) bare (plain-NoSpace (c ∷ v) plain)) h (e (c ∷ v) plain)

field-IsTail : (name v tail : Bytes) → IsTail tail → IsTail (print_field name v ++ tail)
unfolding print_field
field-IsTail name [] tail h = h
field-IsTail name (c ∷ v) tail h = refl

ttl-IsTail : (n : ℕ) (tail : Bytes) → IsTail tail → IsTail (print_ttl (pos n) ++ tail)
unfolding print_ttl
ttl-IsTail zero tail h = h
ttl-IsTail (suc n) tail h = refl

ttl_read :
    (t : Transport) (n : ℕ) (tail : Bytes)
    → t.ttl ≡ pos 0
    → n < 2 ^ 63
    → IsTail tail
    → read_tail t (print_ttl (pos n) ++ tail) ≡ read_tail (record t { ttl = pos n }) tail
unfolding print_ttl set_ttl is_space
ttl_read t zero tail zero_ttl fits h = λ i. read_tail (record t { ttl = zero_ttl i }) tail
ttl_read t (suc n) tail zero_ttl fits h =
    let plain = digits-IsPlain (itoa (suc n)) (itoa-IsDigit (suc n)) in
    read_first t (record t { ttl = pos (suc n) }) (codes "ttl=" ++ itoa (suc n)) tail
      (
        omega arith,
        (
          omega arith,
          (omega arith, (omega arith, plain-Lacks b';' (itoa (suc n)) (λ c h. h.3) plain)),
        ),
      )
      (refl, (refl, (refl, (refl, plain-NoSpace (itoa (suc n)) plain)))) h
      (read_ttl t (itoa (suc n)) plain ∙ ap (λ o. returns (set_ttl t o)) (atoi-itoa (suc n) fits))

cast_read :
    (u : Bool) (tail : Bytes)
    → IsTail tail
    → read_tail empty_transport (print_cast u (not u) ++ tail)
      ≡ read_tail (record empty_transport { unicast = u; multicast = not u }) tail
unfolding print_cast read_part contains has_prefix is_space
cast_read true tail h =
    read_first empty_transport (record empty_transport { unicast = true; multicast = false })
      (codes "unicast") tail (omega arith) (NoSpace-of_test (codes "unicast") refl) h refl
cast_read false tail h =
    read_first empty_transport (record empty_transport { unicast = false; multicast = true })
      (codes "multicast") tail (omega arith) (NoSpace-of_test (codes "multicast") refl) h refl

cast-IsTail : (u : Bool) (tail : Bytes) → IsTail (print_cast u (not u) ++ tail)
unfolding print_cast
cast-IsTail true tail = refl
cast-IsTail false tail = refl

kind_read :
    (tail : Bytes)
    → IsTail tail
    → read_parts empty_transport (split (codes "RTP/AVP" ++ tail) b';')
      ≡ read_tail empty_transport tail
unfolding read_part contains has_prefix is_space
kind_read tail h =
    read_first empty_transport empty_transport (codes "RTP/AVP") tail (omega arith)
      (NoSpace-of_test (codes "RTP/AVP") refl) h refl

-- A transport as the server and the client write it: plain RTP, unicast or multicast.
abbrev pub plain_transport : Bool → ℕ → Bytes → Bytes → Bytes → Bytes → Bytes → Bytes → Transport
plain_transport u n client server ssrc mode destination interleaved = record {
  kind = rtp;
  client_ports = client;
  server_ports = server;
  ssrc = ssrc;
  mode = mode;
  unicast = u;
  multicast = not u;
  ttl = pos n;
  destination = destination;
  interleaved = interleaved;
}

-- Printing a plain RTP transport, unicast or multicast, and parsing it gives it back, if its
-- texts have only digits, upper case letters, `-` and `.` (and what stands between these in
-- ASCII, without `/`, `;` and `=`), and its TTL is a natural number below 2^63.
pub parse_transport-print_transport :
    (u : Bool) (n : ℕ) (client server ssrc mode destination interleaved : Bytes)
    → n < 2 ^ 63
    → All IsPlain client
    → All IsPlain server
    → All IsPlain ssrc
    → All IsPlain mode
    → All IsPlain destination
    → All IsPlain interleaved
    → parse_transport
        (print_transport (plain_transport u n client server ssrc mode destination interleaved))
      ≡ returns (plain_transport u n client server ssrc mode destination interleaved)
unfolding parse_transport print_transport is_space print_kind
parse_transport-print_transport u n cl sv ss mo de il fits hcl hsv hss hmo hde hil =
    let t6 : Bytes = print_field (codes "interleaved=") il ++ [] in
    let t5 : Bytes = print_field (codes "destination=") de ++ t6 in
    let t4 : Bytes = print_ttl (pos n) ++ t5 in
    let t3 : Bytes = print_field (codes "mode=") mo ++ t4 in
    let t2 : Bytes = print_field (codes "ssrc=") ss ++ t3 in
    let t1 : Bytes = print_field (codes "server_port=") sv ++ t2 in
    let t0 : Bytes = print_field (codes "client_port=") cl ++ t1 in
    let i6 : IsTail t6 = field-IsTail (codes "interleaved=") il [] tt in
    let i5 : IsTail t5 = field-IsTail (codes "destination=") de t6 i6 in
    let i4 : IsTail t4 = ttl-IsTail n t5 i5 in
    let i3 : IsTail t3 = field-IsTail (codes "mode=") mo t4 i4 in
    let i2 : IsTail t2 = field-IsTail (codes "ssrc=") ss t3 i3 in
    let i1 : IsTail t1 = field-IsTail (codes "server_port=") sv t2 i2 in
    let i0 : IsTail t0 = field-IsTail (codes "client_port=") cl t1 i1 in
    rw (sym (append-nil (print_field (codes "interleaved=") il))) (
      kind_read (print_cast u (not u) ++ t0) (cast-IsTail u t0)
      ∙ cast_read u t0 i0
      ∙ field_read (codes "client_port=") (λ v. plain_transport u 0 v [] [] [] [] []) cl t1
          (omega arith) (NoSpace-of_test (codes "client_port=") refl) hcl i1 (read_client_port _)
      ∙ field_read (codes "server_port=") (λ v. plain_transport u 0 cl v [] [] [] []) sv t2
          (omega arith) (NoSpace-of_test (codes "server_port=") refl) hsv i2 (read_server_port _)
      ∙ field_read (codes "ssrc=") (λ v. plain_transport u 0 cl sv v [] [] []) ss t3 (omega arith)
          (NoSpace-of_test (codes "ssrc=") refl) hss i3 (read_ssrc _)
      ∙ field_read (codes "mode=") (λ v. plain_transport u 0 cl sv ss v [] []) mo t4 (omega arith)
          (NoSpace-of_test (codes "mode=") refl) hmo i4 (read_mode _)
      ∙ ttl_read (plain_transport u 0 cl sv ss mo [] []) n t5 refl fits i5
      ∙ field_read (codes "destination=") (λ v. plain_transport u n cl sv ss mo v []) de t6
          (omega arith) (NoSpace-of_test (codes "destination=") refl) hde i6 (read_destination _)
      ∙ field_read (codes "interleaved=") (λ v. plain_transport u n cl sv ss mo de v) il []
          (omega arith) (NoSpace-of_test (codes "interleaved=") refl) hil tt (read_interleaved _))
