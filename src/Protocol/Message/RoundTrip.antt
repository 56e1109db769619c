-- ===== src/Protocol/Message/RoundTrip.antt =====
-- rtspProtocon/protocol.go: ParseMessage reads back what String prints.
use rtsp_go.Base.{
  ℕ, ◌≤◌, ◌<◌, ◌^◌, ◌≡◌, refl, sym, ap, ap₂, ◌∙◌, true, false, List, [], ◌∷◌, ◌++◌, append_assoc,
  some, Result, ok, length, length-append, arith, All,
}
use rtsp_go.Base.Int.{ℤ, pos}
use rtsp_go.Base.Text.{Bytes, codes, split, join, has_prefix}
use rtsp_go.Base.Text.Laws.{Lacks, split-append, split-Lacks_self}
use rtsp_go.Base.Text.Search.{join-split, is_cons, is_cons-split}
use rtsp_go.Base.Text.Decimal.{print_int, itoa, atoi, atoi-itoa, itoa-IsDigit, IsDigit}
use rtsp_go.Base.Dict.{Dict, bytes_eq, lookup}
use rtsp_go.Base.Dict.Keys.{Distinct}
use rtsp_go.Protocol.Message.{
  Message, MessageType, request, response, MessageError, new_message, crlf, first_line,
  print_headers, print_message, read_line, start_message, finish_message, body_of, parse_message,
}
use rtsp_go.Protocol.Message.Lines.{read_line-crlf}
use rtsp_go.Protocol.Message.Headers.{IsHeader, Fresh, read_headers-print_headers}

-- A first line whose parts but the last have no space; a request's method does not look like a
-- version, and a response's version does. The fields of the other kind are unset.
abbrev pub IsStart : Message → Type 0
IsStart m = elim m.kind [
  | request ↦
      Lacks b' ' m.method
      × Lacks b' ' m.url
      × Lacks b' ' m.version
      × (has_prefix m.method (codes "RTSP/") ≡ false)
      × (m.status_code ≡ pos 0)
      × (m.status_text ≡ [])
  | response ↦
      Lacks b' ' m.version
      × (has_prefix m.version (codes "RTSP/") ≡ true)
      × (m.method ≡ [])
      × (m.url ≡ [])
      × ((code : ℕ) × (code < 2 ^ 63) × (m.status_code ≡ pos code))
]

-- A message that its text can carry.
abbrev pub IsPrintable : Message → Type 0
IsPrintable m = IsStart m × Lacks 10 (first_line m) × All IsHeader m.headers × Distinct m.headers

-- Three parts, of which the last may hold spaces.
split_three :
    (a b c : Bytes)
    → Lacks b' ' a
    → Lacks b' ' b
    → split (a ++ b' ' ∷ b ++ b' ' ∷ c) b' ' ≡ a ∷ b ∷ split c b' '
split_three a b c ha hb =
    ap (λ s. split s b' ') (append_assoc a (b' ' ∷ b) (b' ' ∷ c))
    ∙ split-append a (b ++ b' ' ∷ c) b' ' ha
    ∙ ap (◌∷◌ a) (split-append b c b' ' hb)

start_request :
    (method url version : Bytes)
    → Lacks b' ' method
    → Lacks b' ' url
    → Lacks b' ' version
    → has_prefix method (codes "RTSP/") ≡ false
    → start_message (split (method ++ b' ' ∷ url ++ b' ' ∷ version) b' ')
      ≡ ok (record (new_message request) { method = method; url = url; version = version })
unfolding start_message
start_request method url version hm hu hv plain =
    rw (split_three method url version hm hu, split-Lacks_self version b' ' hv) (rw plain refl)

digits-Lacks : (s : Bytes) → All IsDigit s → Lacks b' ' s
digits-Lacks [] h = tt
digits-Lacks (c ∷ s) (hc, h) = ((λ e. omega arith), digits-Lacks s h)

start_parts :
    (version digits : Bytes) (parts : List Bytes) (code : ℤ)
    → is_cons parts ≡ true
    → has_prefix version (codes "RTSP/") ≡ true
    → atoi digits ≡ some code
    → start_message (version ∷ digits ∷ parts)
      ≡ ok (record (new_message response) {
        version = version;
        status_code = code;
        status_text = join parts b' ';
      })
unfolding start_message
start_parts version digits [] code h rtsp read = cc
start_parts version digits (p ∷ ps) code h rtsp read = rw rtsp (rw read refl)

start_response :
    (version text : Bytes) (code : ℕ)
    → Lacks b' ' version
    → has_prefix version (codes "RTSP/") ≡ true
    → code < 2 ^ 63
    → start_message (split (version ++ b' ' ∷ itoa code ++ b' ' ∷ text) b' ')
      ≡ ok (record (new_message response) {
        version = version;
        status_code = pos code;
        status_text = text;
      })
unfolding start_message
start_response version text code hv rtsp small =
    ap start_message
      (split_three version (itoa code) text hv (digits-Lacks (itoa code) (itoa-IsDigit code)))
    ∙ (start_parts version (itoa code) (split text b' ') (pos code) (is_cons-split text b' ') rtsp
          (atoi-itoa code small)
        ∙ ap
            (λ t. ok (record (new_message response) {
              version = version;
              status_code = pos code;
              status_text = t;
            }))
            (join-split text b' '))

print_headers-length :
    (headers : Dict Bytes Bytes) → length headers ≤ length (print_headers headers)
unfolding print_headers
print_headers-length [] = omega arith
print_headers-length ((key, value) ∷ headers) = omega (
  arith,
  print_headers-length headers,
  length-append (key ++ b':' ∷ b' ' ∷ value ++ crlf) (print_headers headers),
  length-append (key ++ b':' ∷ b' ' ∷ value) crlf,
)

Fresh-nil : (headers : Dict Bytes Bytes) → Fresh [] headers
unfolding lookup
Fresh-nil [] = tt
Fresh-nil (h ∷ headers) = (refl, Fresh-nil headers)

finish_printed :
    (headers : Dict Bytes Bytes) (body : Bytes) (m : Message)
    → All IsHeader headers
    → Distinct headers
    → finish_message (print_headers headers ++ crlf ++ body) m
      ≡ record m { headers = headers; body = body_of (read_line body) }
unfolding finish_message
finish_printed headers body m h d =
    let s = print_headers headers ++ crlf ++ body in
    let room : length headers < length s = omega (
      arith,
      print_headers-length headers,
      length-append (print_headers headers ++ crlf) body,
      length-append (print_headers headers) crlf,
    ) in
    rw (read_headers-print_headers (length s) [] headers body room h d (Fresh-nil headers)) refl

the_message : MessageType → Bytes → Bytes → Bytes → ℤ → Bytes → Result MessageError Message
the_message kind method url version code text = ok (record {
  kind = kind;
  method = method;
  url = url;
  version = version;
  status_code = code;
  status_text = text;
  headers = [];
  body = [];
})

-- The first line gives back all of a message but its headers and its body.
started :
    (m : Message)
    → IsStart m
    → start_message (split (first_line m) b' ') ≡ ok (record m { headers = []; body = [] })
unfolding first_line print_int the_message
started m h = by_kind m.kind m.method m.url m.version m.status_code m.status_text m.headers m.body h
  where
    response_fields :
        {method url version text : Bytes} {code : ℤ} (n : ℕ)
        → code ≡ pos n
        → method ≡ []
        → url ≡ []
        → ok (record (new_message response) {
          version = version;
          status_code = pos n;
          status_text = text;
        })
          ≡ the_message response method url version code text
    response_fields {version = version} {text = text} n is_n no_method no_url =
        sym (λ i. the_message response (no_method i) (no_url i) version (is_n i) text)

    by_kind :
        (kind : MessageType) (method url version : Bytes) (code : ℤ) (text : Bytes)
        (headers : Dict Bytes Bytes) (body : Bytes)
        → let m : Message = record {
          kind = kind;
          method = method;
          url = url;
          version = version;
          status_code = code;
          status_text = text;
          headers = headers;
          body = body;
        } in
          IsStart m
          → start_message (split (first_line m) b' ') ≡ ok (record m { headers = []; body = [] })
    by_kind request method url version code text headers body h =
        let (hm, hu, hv, plain, no_code, no_text) = h in
        start_request method url version hm hu hv plain
        ∙ ap₂
            (λ c t. ok (record (new_message request) {
              method = method;
              url = url;
              version = version;
              status_code = c;
              status_text = t;
            }))
            (sym no_code) (sym no_text)
    by_kind response method url version code text headers body h =
        let (hv, rtsp, no_method, no_url, (n, small, is_n)) = h in
        ap (λ c. start_message (split (version ++ b' ' ∷ print_int c ++ b' ' ∷ text) b' ')) is_n
        ∙ start_response version text n hv rtsp small
        ∙ response_fields n is_n no_method no_url

-- ParseMessage, given the text that String makes of a printable message, succeeds and gives the same
-- message, with the first line of its body as its body: the rest of the body is lost. A message is
-- printable if its first line is one line whose parts but the last have no space; a request's method
-- does not begin with `RTSP/`, a response's version does, and its code is a natural number below
-- 2^63; the fields of the other kind are unset; and the headers have one line each, no space round
-- their parts, no colon in their keys, and no key twice.
pub parse_message-print_message :
    (m : Message)
    → IsPrintable m
    → parse_message (print_message m) ≡ ok (record m { body = body_of (read_line m.body) })
unfolding parse_message print_message
parse_message-print_message m (start, line, h, d) =
    let rest = print_headers m.headers ++ crlf ++ m.body in
    let s = first_line m ++ crlf ++ print_headers m.headers ++ crlf ++ m.body in
    let here : s ≡ first_line m ++ crlf ++ rest = simp append_assoc in
    let read = ap read_line here ∙ read_line-crlf (first_line m) rest line in
    rw (read, parse_message)
      (rw (started m start)
        (ap ok (finish_printed m.headers m.body (record m { headers = []; body = [] }) h d)))
