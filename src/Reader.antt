-- ===== src/Reader.antt =====
-- proxy/rtsp_io.go: the reader of RTSP messages, which client/client.go and server/server.go repeat.
-- A connection is the bytes that it delivers up to its end. `make` panics beyond the bytes that the
-- runtime can give, which is the number `heap`. A loop that does not end would be `blocks`.
pub mod Lines
pub mod Ends
pub mod RoundTrip
pub mod Once
pub mod Examples
use rtsp_go.Base.{
  ℕ, zero, suc, ◌+◌, ◌-◌, Bool, true, false, ◌&&◌, ◌||◌, List, [], ◌∷◌, ◌++◌, map, Option, none,
  some, Result, ok, err, Outcome, returns, blocks, panics, if◌then◌else◌, length, take, drop, ltb,
  leb, ◌==◌, ◌>>=◌,
}
use rtsp_go.Base.Int.{ℤ, pos, negsuc}
use rtsp_go.Base.Text.{Bytes, codes, is_empty, has_prefix, trim_space}
use rtsp_go.Base.Text.Decimal.{atoi}
use rtsp_go.Protocol.Message.{Message, MessageError, crlf, parse_message}

pub data ReadError : Type 0 where
  line_read body_read : ReadError
  bad_message : MessageError → ReadError

-- ReadString('\n'): the bytes up to the line feed, and those behind it; none at the end.
pub read_string : Bytes → Option (Bytes × Bytes)
read_string [] = none
read_string (c ∷ s) =
    let rest = read_string s in
    if c == 10 then some (c ∷ [], s) else elim rest [ none ↦ none | some r ↦ some (c ∷ r.0, r.1) ]

-- TrimRight(line, "\r\n")
unfoldable pub trim_line_end : Bytes → Bytes
trim_line_end [] = []
trim_line_end (c ∷ s) =
    let rest = trim_line_end s in if is_empty rest && (c == 13 || c == 10) then [] else c ∷ rest

-- A line in front of those that the loop is still to read.
pub add_line : Bytes → Option (List Bytes × Bytes) → Option (List Bytes × Bytes)
add_line line none = none
add_line line (some (lines, rest)) = some (line ∷ lines, rest)

-- The loop over the head's lines: they and the input behind them, or none if a line has no end.
pub read_lines : ℕ → Bytes → Outcome (Option (List Bytes × Bytes))
unfolding read_string trim_line_end add_line
read_lines zero s = blocks
read_lines (suc fuel) s = elim (read_string s) [
  | none ↦ returns none
  | some r ↦ elim (is_empty (trim_line_end r.0)) [
    | true ↦ returns (some ([], r.1))
    | false ↦ read_lines fuel r.1 >>= λ more. returns (add_line (trim_line_end r.0) more)
  ]
]

lower : ℕ → ℕ
lower c = if leb b'A' c && leb c b'Z' then c + 32 else c

-- strings.ToLower of a text in ASCII.
pub to_lower : Bytes → Bytes
unfolding lower
to_lower = map lower

-- getHeaderValue: of the first line that begins with the name, in any case, and a colon.
pub header_value : List Bytes → Bytes → Bytes
unfolding to_lower
header_value [] name = []
header_value (line ∷ lines) name =
    if has_prefix (to_lower line) (to_lower name ++ b':' ∷ [])
    then trim_space (drop (suc (length name)) line)
    else header_value lines name

-- What is no number, or none above 0, announces no body.
pub positive_or_zero : Option ℤ → ℕ
positive_or_zero none = 0
positive_or_zero (some (pos n)) = n
positive_or_zero (some (negsuc n)) = 0

unfoldable pub body_length : List Bytes → ℕ
unfolding header_value positive_or_zero
body_length lines = positive_or_zero (atoi (header_value lines (codes "Content-Length")))

-- Join(lines, "\r\n")
pub join_lines : List Bytes → Bytes
join_lines [] = []
join_lines (l ∷ []) = l
join_lines (l ∷ m ∷ ls) = l ++ crlf ++ join_lines (m ∷ ls)

-- What reads a body of some length off the input behind the head.
abbrev pub BodyReader : Type 0
BodyReader = ℕ → Bytes → Outcome (Result ReadError (Bytes × Bytes))

-- io.ReadFull of `count` bytes.
pub read_full : ℕ → BodyReader
read_full heap count s =
    if count == 0
    then returns (ok ([], s))
    else if ltb heap count
    then panics
    else if ltb (length s) count
    then returns (err body_read)
    else returns (ok (take count s, drop count s))

pub parsed : Bytes → Result MessageError Message → Result ReadError (Message × Bytes)
parsed rest (err e) = err (bad_message e)
parsed rest (ok m) = ok (m, rest)

-- The message of the head's lines and the body.
pub build : List Bytes → Result ReadError (Bytes × Bytes) → Result ReadError (Message × Bytes)
unfolding join_lines parsed
build lines (err e) = err e
build lines (ok (body, rest)) =
    parsed rest (parse_message (join_lines lines ++ crlf ++ crlf ++ body))

pub behind_head :
    BodyReader → Option (List Bytes × Bytes) → Outcome (Result ReadError (Message × Bytes))
unfolding body_length build
behind_head reader none = returns (err line_read)
behind_head reader (some (lines, rest)) =
    reader (body_length lines) rest >>= λ body. returns (build lines body)

-- A message, and the input behind it. Each line takes a byte or more.
pub read_with : BodyReader → Bytes → Outcome (Result ReadError (Message × Bytes))
unfolding read_lines behind_head
read_with reader s = read_lines (suc (length s)) s >>= behind_head reader

-- ReadMessage
pub read_message : ℕ → Bytes → Outcome (Result ReadError (Message × Bytes))
unfolding read_with read_full
read_message heap = read_with (read_full heap)
