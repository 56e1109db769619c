-- ===== src/Reader/RoundTrip.antt =====
-- proxy/rtsp_io.go: ReadMessage on the text that WriteMessage sends.
use mathlib.Core.Path.{◌≡⟨◌⟩◌, ◌∎}
use rtsp_go.Base.{
  ℕ, zero, suc, ◌≤◌, ◌<◌, ◌≡◌, refl, sym, ap, ◌∙◌, [], ◌∷◌, ◌++◌, append_assoc, map, some, ok, err,
  returns, panics, List, length, length-append, take-append, drop-append, arith, false, ◌>>=◌, ◌↔◌,
  All,
}
use rtsp_go.Base.Text.{Bytes, is_empty}
use rtsp_go.Base.Text.Laws.{Lacks}
use rtsp_go.Base.Dict.{Dict}
use rtsp_go.Protocol.Message.{
  Message, crlf, first_line, print_headers, print_message, body_of, read_line, parse_message,
}
use rtsp_go.Protocol.Message.RoundTrip.{IsPrintable, parse_message-print_message}
use rtsp_go.Reader.{
  line_read, read_string, trim_line_end, read_lines, BodyReader, read_full, parsed, build,
  body_length, behind_head, read_with, read_message, join_lines,
}
use rtsp_go.Reader.Lines.{read_string-crlf, trim_line_end-crlf, read_lines-step, read_lines-stop}

-- The lines of a head, each with its end, and the empty line.
abbrev pub head_text : List Bytes → Bytes
head_text [] = crlf
head_text (l ∷ ls) = l ++ crlf ++ head_text ls

-- A line of a head: it has text, no line feed, and no carriage return at its end.
abbrev pub IsLine : Bytes → Type 0
IsLine l = Lacks 10 l × (trim_line_end l ≡ l) × (is_empty l ≡ false)

head_text-append :
    (l : Bytes) (ls : List Bytes) (rest : Bytes)
    → head_text (l ∷ ls) ++ rest ≡ l ++ crlf ++ (head_text ls ++ rest)
head_text-append l ls rest = simp append_assoc

-- A head is read line by line.
read_lines-head_text :
    (fuel : ℕ) (lines : List Bytes) (rest : Bytes)
    → length lines < fuel
    → All IsLine lines
    → read_lines fuel (head_text lines ++ rest) ≡ returns (some (lines, rest))
unfolding trim_line_end is_empty
read_lines-head_text zero lines rest enough h = absurd (omega arith)
read_lines-head_text (suc fuel) [] rest enough h =
    read_lines-stop fuel (crlf ++ rest) crlf rest (read_string-crlf [] rest tt) refl
read_lines-head_text (suc fuel) (l ∷ ls) rest enough ((plain, trimmed, text), h) =
    let behind = head_text ls ++ rest in
    let same = trim_line_end-crlf l ∙ trimmed in
    ap (read_lines (suc fuel)) (head_text-append l ls rest)
    ∙ read_lines-step fuel (l ++ crlf ++ behind) (l ++ crlf) behind ls rest
        (read_string-crlf l behind plain) (ap is_empty same ∙ text)
        (read_lines-head_text fuel ls rest (omega arith) h)
    ∙ ap (λ line. returns (some (line ∷ ls, rest))) same

length-head_text : (lines : List Bytes) → length lines < length (head_text lines)
length-head_text [] = omega arith
length-head_text (l ∷ ls) =
    omega
      (arith, length-head_text ls, length-append (l ++ crlf) (head_text ls), length-append l crlf)

-- Behind a head that is read, all that counts is the body.
read_with-head_text :
    (reader : BodyReader) (lines : List Bytes) (rest : Bytes)
    → All IsLine lines
    → read_with reader (head_text lines ++ rest)
      ≡ (reader (body_length lines) rest >>= λ body. returns (build lines body))
unfolding read_with behind_head
read_with-head_text reader lines rest h =
    let s = head_text lines ++ rest in
    let enough : length lines < suc (length s) =
      omega (arith, length-head_text lines, length-append (head_text lines) rest) in
    ap (λ o. o >>= behind_head reader) (read_lines-head_text (suc (length s)) lines rest enough h)

read_message-head_text :
    (heap : ℕ) (lines : List Bytes) (rest : Bytes)
    → All IsLine lines
    → read_message heap (head_text lines ++ rest)
      ≡ (read_full heap (body_length lines) rest >>= λ body. returns (build lines body))
unfolding read_message
read_message-head_text heap = read_with-head_text (read_full heap)

-- What becomes of the body does not turn a panic into anything else, nor anything else into one.
panics-build :
    (lines : List Bytes) (heap count : ℕ) (rest : Bytes)
    → ((read_full heap count rest >>= λ body. returns (build lines body)) ≡ panics) ↔ (heap < count)
unfolding read_full
panics-build lines heap count rest = ground arith

-- ReadMessage, given lines that have text, no line feed and no carriage return at their end, an empty
-- line and any input behind it, panics exactly when the lines announce a body of more bytes than
-- the runtime can give, whether or not the input has them.
pub read_message-panics_iff :
    (heap : ℕ) (lines : List Bytes) (rest : Bytes)
    → All IsLine lines
    → (read_message heap (head_text lines ++ rest) ≡ panics) ↔ (heap < body_length lines)
read_message-panics_iff heap lines rest h =
    rw (read_message-head_text heap lines rest h) (panics-build lines heap (body_length lines) rest)

abbrev header_line : Bytes × Bytes → Bytes
header_line (key, value) = key ++ b':' ∷ b' ' ∷ value

-- The lines that String prints in front of the empty line.
abbrev pub message_lines : Message → List Bytes
message_lines m = first_line m ∷ map header_line m.headers

head_text-print_headers :
    (headers : Dict Bytes Bytes)
    → print_headers headers ++ crlf ≡ head_text (map header_line headers)
unfolding print_headers
head_text-print_headers [] = refl
head_text-print_headers ((key, value) ∷ headers) =
    key ++ b':' ∷ b' ' ∷ value ++ crlf ++ print_headers headers ++ crlf
    ≡⟨ append_assoc (key ++ b':' ∷ b' ' ∷ value ++ crlf) (print_headers headers) crlf ⟩
      key ++ b':' ∷ b' ' ∷ value ++ crlf ++ (print_headers headers ++ crlf)
    ≡⟨ ap (λ t. key ++ b':' ∷ b' ' ∷ value ++ crlf ++ t) (head_text-print_headers headers) ⟩
      head_text (map header_line ((key, value) ∷ headers)) ∎

print_message-head_text : (m : Message) → print_message m ≡ head_text (message_lines m) ++ m.body
unfolding print_message
print_message-head_text m =
    ap (λ t. t ++ m.body)
      (append_assoc (first_line m ++ crlf) (print_headers m.headers) crlf
        ∙ ap (λ t. first_line m ++ crlf ++ t) (head_text-print_headers m.headers))

join_lines-head_text :
    (l : Bytes) (ls : List Bytes) → join_lines (l ∷ ls) ++ crlf ++ crlf ≡ head_text (l ∷ ls)
unfolding join_lines
join_lines-head_text l [] = refl
join_lines-head_text l (m ∷ ls) =
    let text = join_lines (m ∷ ls) in
    ap (λ t. t ++ crlf) (append_assoc (l ++ crlf) text crlf)
    ∙ append_assoc (l ++ crlf) (text ++ crlf) crlf
    ∙ ap (λ t. l ++ crlf ++ t) (join_lines-head_text m ls)

read_full_all :
    (heap : ℕ) (body rest : Bytes)
    → length body ≤ heap
    → read_full heap (length body) (body ++ rest) ≡ returns (ok (body, rest))
unfolding read_full
read_full_all heap [] rest h = refl
read_full_all heap (c ∷ body) rest h =
    rw (take-append (c ∷ body) rest, drop-append (c ∷ body) rest)
      (ground (arith, length-append (c ∷ body) rest))

-- A message whose lines can be read one by one and announce the length of its body.
abbrev pub IsFramed : ℕ → Message → Type 0
IsFramed heap m =
    All IsLine (message_lines m)
    × (body_length (message_lines m) ≡ length m.body)
    × (length m.body ≤ heap)
    × (body_of (read_line m.body) ≡ m.body)

-- The text that ReadMessage builds of such a message is the one that String prints.
parsed_text :
    (m : Message)
    → IsPrintable m
    → body_of (read_line m.body) ≡ m.body
    → parse_message (join_lines (message_lines m) ++ crlf ++ crlf ++ m.body) ≡ ok m
parsed_text m printable one_line =
    ap parse_message (
      ap (λ t. t ++ m.body) (join_lines-head_text (first_line m) (map header_line m.headers))
      ∙ sym (print_message-head_text m))
    ∙ parse_message-print_message m printable
    ∙ ap (λ b. ok (record m { body = b })) one_line

-- The same for any reader that reads the body whole.
pub read_with-print_message :
    (reader : BodyReader) (heap : ℕ) (m : Message) (rest : Bytes)
    → IsPrintable m
    → IsFramed heap m
    → reader (length m.body) (m.body ++ rest) ≡ returns (ok (m.body, rest))
    → read_with reader (print_message m ++ rest) ≡ returns (ok (m, rest))
unfolding build parsed
read_with-print_message reader heap m rest printable (lines, framed, fits, one_line) whole =
    let here =
      ap (λ t. t ++ rest) (print_message-head_text m)
      ∙ append_assoc (head_text (message_lines m)) m.body rest in
    ap (read_with reader) here
    ∙ read_with-head_text reader (message_lines m) (m.body ++ rest) lines
    ∙ ap (λ n. reader n (m.body ++ rest) >>= λ b. returns (build (message_lines m) b)) framed
    ∙ ap (λ o. o >>= λ b. returns (build (message_lines m) b)) whole
    ∙ ap (λ r. returns (parsed rest r)) (parsed_text m printable one_line)

-- ReadMessage, given the text that WriteMessage sends of a message and any input behind it, gives
-- back that message, its body included, and leaves the input behind it. The message is printable in
-- the sense of ParseMessage; each of its lines has text, no line feed and no carriage return at its
-- end; its first header that says Content-Length, in any case, gives the length of its body, which
-- the runtime can give, or there is no such header and the body is empty; and the body is one line.
pub read_message-print_message :
    (heap : ℕ) (m : Message) (rest : Bytes)
    → IsPrintable m
    → IsFramed heap m
    → read_message heap (print_message m ++ rest) ≡ returns (ok (m, rest))
unfolding read_message
read_message-print_message heap m rest printable framed =
    read_with-print_message (read_full heap) heap m rest printable framed
      (read_full_all heap m.body rest framed.2)

-- At the end of the input there is no message.
pub read_with-nil : (reader : BodyReader) → read_with reader [] ≡ returns (err line_read)
unfolding read_with read_lines read_string behind_head
read_with-nil reader = refl

pub read_message-nil : (heap : ℕ) → read_message heap [] ≡ returns (err line_read)
unfolding read_message
read_message-nil heap = read_with-nil (read_full heap)

-- What WriteMessage sends of the messages, one after the other.
abbrev pub print_messages : List Message → Bytes
print_messages [] = []
print_messages (m ∷ ms) = print_message m ++ print_messages ms

abbrev pub IsCarried : ℕ → Message → Type 0
IsCarried heap m = IsPrintable m × IsFramed heap m
