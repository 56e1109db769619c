-- ===== src/Protocol/Message/Headers.antt =====
-- rtspProtocon/protocol.go: the headers that ParseMessage reads from the printed ones.
use rtsp_go.Base.{
  ℕ, zero, suc, ◌<◌, ◌≡◌, refl, sym, ap, ap₂, ◌∙◌, false, [], ◌∷◌, ◌++◌, append-nil, append_assoc,
  none, some, length, arith, All,
}
use rtsp_go.Base.Text.{Bytes, is_empty, trim_space, trim_left, is_space}
use rtsp_go.Base.Text.Laws.{Lacks}
use rtsp_go.Base.Dict.{Dict, lookup, insert, bytes_eq, lookup-insert}
use rtsp_go.Base.Dict.Keys.{Distinct, insert_new}
use rtsp_go.Protocol.Message.{crlf, print_headers, add_header, read_line, read_headers}
use rtsp_go.Protocol.Message.Lines.{read_line-crlf, cut_at-append}

-- A header that a line can carry: one line, with no space round its parts, and no colon in its key.
abbrev pub IsHeader : Bytes × Bytes → Type 0
IsHeader (key, value) =
    Lacks b':' key
    × Lacks 10 key
    × Lacks 10 value
    × (trim_space key ≡ key)
    × (trim_space value ≡ value)

abbrev pub Fresh : Dict Bytes Bytes → Dict Bytes Bytes → Type 0
Fresh seen = All λ kv. lookup kv.0 seen ≡ none

Fresh-insert :
    (key value : Bytes) (seen headers : Dict Bytes Bytes)
    → lookup key headers ≡ none
    → Fresh seen headers
    → Fresh (insert key value seen) headers
unfolding lookup
Fresh-insert key value seen [] absent h = tt
Fresh-insert key value seen ((k, v) ∷ headers) absent (hk, h) = (
  ground (arith, lookup-insert key k value seen, bytes_eq.beq_iff key k, bytes_eq.beq_iff k key),
  Fresh-insert key value seen headers (ground arith) h,
)

add_header_printed :
    (headers : Dict Bytes Bytes) (key value : Bytes)
    → IsHeader (key, value)
    → add_header headers (key ++ b':' ∷ b' ' ∷ value) ≡ insert key value headers
unfolding add_header trim_space trim_left is_space
add_header_printed headers key value (colon, _, _, hk, hv) =
    rw (cut_at-append key (b' ' ∷ value) b':' colon, add_header)
      (ap₂ (λ k v. insert k v headers) hk hv)

Lacks-append : (b : ℕ) (s t : Bytes) → Lacks b s → Lacks b t → Lacks b (s ++ t)
Lacks-append b [] t hs ht = ht
Lacks-append b (c ∷ s) t (hc, hs) ht = (hc, Lacks-append b s t hs ht)

Lacks-line :
    (key value : Bytes) → Lacks 10 key → Lacks 10 value → Lacks 10 (key ++ b':' ∷ b' ' ∷ value)
Lacks-line key value hk hv =
    Lacks-append 10 key (b':' ∷ b' ' ∷ value) hk ((λ e. omega arith), ((λ e. omega arith), hv))

is_empty_line : (key s : Bytes) → is_empty (key ++ b':' ∷ s) ≡ false
unfolding is_empty
is_empty_line [] s = refl
is_empty_line (c ∷ key) s = refl

header_step :
    (fuel : ℕ) (seen : Dict Bytes Bytes) (s line rest : Bytes)
    → read_line s ≡ some (line, rest)
    → is_empty line ≡ false
    → read_headers (suc fuel) seen s ≡ read_headers fuel (add_header seen line) rest
unfolding read_headers
header_step fuel seen s line rest read some_text = rw (read, read_headers) (rw some_text refl)

header_stop :
    (fuel : ℕ) (seen : Dict Bytes Bytes) (s rest : Bytes)
    → read_line s ≡ some ([], rest)
    → read_headers (suc fuel) seen s ≡ (seen, rest)
unfolding read_headers is_empty
header_stop fuel seen s rest read = rw (read, read_headers) refl

header_text :
    (key value : Bytes) (headers : Dict Bytes Bytes) (body : Bytes)
    → print_headers ((key, value) ∷ headers) ++ crlf ++ body
      ≡ (key ++ b':' ∷ b' ' ∷ value) ++ crlf ++ (print_headers headers ++ crlf ++ body)
unfolding print_headers
header_text key value headers body = simp append_assoc

-- The printed headers, up to the empty line, are read back in their order.
pub read_headers-print_headers :
    (fuel : ℕ) (seen headers : Dict Bytes Bytes) (body : Bytes)
    → length headers < fuel
    → All IsHeader headers
    → Distinct headers
    → Fresh seen headers
    → read_headers fuel seen (print_headers headers ++ crlf ++ body) ≡ (seen ++ headers, body)
unfolding print_headers
read_headers-print_headers zero seen headers body enough h d f = absurd (omega arith)
read_headers-print_headers (suc fuel) seen [] body enough h d f =
    header_stop fuel seen (crlf ++ body) body (read_line-crlf [] body tt)
    ∙ ap (λ hs. (hs, body)) (sym (append-nil seen))
read_headers-print_headers (suc fuel) seen ((key, value) ∷ headers) body enough (h, hs) (absent, d)
      (new, f) =
    let line = key ++ b':' ∷ b' ' ∷ value in
    let rest = print_headers headers ++ crlf ++ body in
    let read = read_line-crlf line rest (Lacks-line key value h.1 h.2) in
    ap (read_headers (suc fuel) seen) (header_text key value headers body)
    ∙ header_step fuel seen (line ++ crlf ++ rest) line rest read (is_empty_line key (b' ' ∷ value))
    ∙ ap (λ hs. read_headers fuel hs rest) (add_header_printed seen key value h)
    ∙ read_headers-print_headers fuel (insert key value seen) headers body (omega arith) hs d
        (Fresh-insert key value seen headers absent f)
    ∙ ap (λ hs. (hs, body))
        (ap (λ s. s ++ headers) (insert_new key value seen new)
          ∙ append_assoc seen ((key, value) ∷ []) headers)
