-- ===== src/Protocol/Message.antt =====
-- rtspProtocon/protocol.go: RTSP messages, their printer and ParseMessage, and the sessions.
-- The headers are printed in the order of the association list, Go's order being any.
pub mod Lines
pub mod Headers
pub mod RoundTrip
pub mod Examples
use rtsp_go.Base.{
  ℕ, zero, suc, Bool, true, false, List, [], ◌∷◌, ◌++◌, Option, none, some, Result, ok, err,
  if◌then◌else◌, length, ◌==◌,
}
use rtsp_go.Base.Int.{ℤ, pos, negsuc}
use rtsp_go.Base.Text.{Bytes, codes, is_empty, has_prefix, split, join, trim_space}
use rtsp_go.Base.Text.Decimal.{itoa, atoi, print_int}
use rtsp_go.Base.Dict.{Dict, lookup, insert, number_eq, bytes_eq}

pub data MessageType : Type 0 where
  request response : MessageType

pub record Message : Type 0 where
  pub kind : MessageType
  pub method : Bytes
  pub url : Bytes
  pub version : Bytes
  pub status_code : ℤ
  pub status_text : Bytes
  pub headers : Dict Bytes Bytes
  pub body : Bytes

pub data MessageError : Type 0 where
  no_first_line invalid_first_line invalid_status_code : MessageError

abbrev pub rtsp_version : Bytes
rtsp_version = codes "RTSP/1.0"

-- NewMessage
abbrev pub new_message : MessageType → Message
new_message kind = record {
  kind = kind;
  method = [];
  url = [];
  version = rtsp_version;
  status_code = pos 0;
  status_text = [];
  headers = [];
  body = [];
}

-- NewRequest
abbrev pub new_request : Bytes → Bytes → Message
new_request method url = record (new_message request) { method = method; url = url }

-- NewResponse
abbrev pub new_response : ℤ → Bytes → Message
new_response status_code status_text = record (new_message response) {
  status_code = status_code;
  status_text = status_text;
}

-- SetHeader
unfoldable pub set_header : Bytes → Bytes → Message → Message
set_header key value m = record m { headers = insert key value m.headers }

value_or_empty : Option Bytes → Bytes
value_or_empty none = []
value_or_empty (some v) = v

-- GetHeader; a header that is not there reads as empty.
unfoldable pub get_header : Bytes → Message → Bytes
unfolding value_or_empty
get_header key m = value_or_empty (lookup key m.headers)

abbrev pub crlf : Bytes
crlf = 13 ∷ 10 ∷ []

unfoldable pub first_line : Message → Bytes
first_line m = elim m.kind [
  | request ↦ m.method ++ b' ' ∷ m.url ++ b' ' ∷ m.version
  | response ↦ m.version ++ b' ' ∷ print_int m.status_code ++ b' ' ∷ m.status_text
]

unfoldable pub print_headers : Dict Bytes Bytes → Bytes
print_headers [] = []
print_headers ((key, value) ∷ headers) = key ++ b':' ∷ b' ' ∷ value ++ crlf ++ print_headers headers

-- String
unfoldable pub print_message : Message → Bytes
unfolding first_line print_headers
print_message m = first_line m ++ crlf ++ print_headers m.headers ++ crlf ++ m.body

-- The text before the first line feed, and the text behind it, if there is one.
pub until_lf : Bytes → Bytes × Option Bytes
until_lf [] = ([], none)
until_lf (c ∷ s) = let r = until_lf s in if c == 10 then ([], some s) else (c ∷ r.0, r.1)

-- The text without a carriage return at its end.
pub strip_cr : Bytes → Bytes
strip_cr [] = []
strip_cr (c ∷ []) = if c == 13 then [] else c ∷ []
strip_cr (c ∷ d ∷ s) = c ∷ strip_cr (d ∷ s)

ended : Bytes × Option Bytes → Bytes × Bytes
ended (line, none) = (line, [])
ended (line, some rest) = (strip_cr line, rest)

-- ReadLine of net/textproto: none at the end of the input, else a line and the input behind it. Only
-- a line that ends in a line feed loses a carriage return.
unfoldable pub read_line : Bytes → Option (Bytes × Bytes)
unfolding until_lf strip_cr ended
read_line [] = none
read_line (c ∷ s) = some (ended (until_lf (c ∷ s)))

-- The texts before and behind the first `sep`.
pub cut_at : Bytes → ℕ → Option (Bytes × Bytes)
cut_at [] sep = none
cut_at (c ∷ s) sep =
    let rest = cut_at s sep in
    if c == sep then some ([], s) else elim rest [ none ↦ none | some r ↦ some (c ∷ r.0, r.1) ]

-- A line without a colon is passed over.
pub add_header : Dict Bytes Bytes → Bytes → Dict Bytes Bytes
unfolding cut_at
add_header headers line = elim (cut_at line b':') [
  | none ↦ headers
  | some r ↦ insert (trim_space r.0) (trim_space r.1) headers
]

-- The loop over the header lines, up to an empty line or the end, and the input behind them. Every
-- line takes a byte or more, so the input's length is fuel enough.
pub read_headers : ℕ → Dict Bytes Bytes → Bytes → Dict Bytes Bytes × Bytes
unfolding read_line
read_headers zero headers s = (headers, s)
read_headers (suc fuel) headers s = elim (read_line s) [
  | none ↦ (headers, s)
  | some r ↦ elim (is_empty r.0) [
    | true ↦ (headers, r.1)
    | false ↦ read_headers fuel (add_header headers r.0) r.1
  ]
]

-- The message that a first line announces.
pub start_message : List Bytes → Result MessageError Message
start_message [] = err invalid_first_line
start_message (a ∷ []) = err invalid_first_line
start_message (a ∷ b ∷ []) = err invalid_first_line
start_message (a ∷ b ∷ c ∷ rest) =
    if has_prefix a (codes "RTSP/")
    then elim (atoi b) [
      | none ↦ err invalid_status_code
      | some code ↦ ok (record (new_message response) {
        version = a;
        status_code = code;
        status_text = join (c ∷ rest) b' ';
      })
    ]
    else ok (record (new_message request) { method = a; url = b; version = c })

-- The body is the one line behind the headers.
unfoldable pub body_of : Option (Bytes × Bytes) → Bytes
body_of none = []
body_of (some (line, rest)) = line

-- The headers and the body, from the input behind the first line.
pub finish_message : Bytes → Message → Message
unfolding read_headers body_of
finish_message s m =
    let r = read_headers (length s) [] s in
    record m { headers = r.0; body = body_of (read_line r.1) }

-- ParseMessage
pub parse_message : Bytes → Result MessageError Message
unfolding start_message finish_message
parse_message s = elim (read_line s) [
  | none ↦ err no_first_line
  | some r ↦ elim (start_message (split r.0 b' ')) [
    | err e ↦ err e
    | ok m ↦ ok (finish_message r.1 m)
  ]
]
