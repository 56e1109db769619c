-- ===== src/Rtp/Encode.antt =====
-- rtspProtocon/rtp.go: Marshal gives back the bytes that were parsed.
use rtsp_go.Base.{
  ℕ, zero, suc, ◌+◌, ◌*◌, ◌%◌, ◌≤◌, ◌<◌, ◌≡◌, ap, ap₂, ◌∙◌, [], ◌∷◌, ◌++◌, append_assoc, ok, arith,
  leb, if◌then◌else◌, le→leb, le→ltb-false, length, get_or, drop, take, take-append-drop, All,
}
use rtsp_go.Base.Text.{Bytes}
use rtsp_go.Base.Word.{IsByte, be32, u16_at, u32_at, be16_of, be32_of, be32-u32_at}
use rtsp_go.Rtp.{
  RtpPacket, fixed_part, put_csrc, marshal_header, decode_header, read_csrc, parse_header,
  marshal_packet, parse_packet, header_size, cc_bits,
}
use rtsp_go.Rtp.Bits.{first_byte_again, second_byte_again, cc_bits-lt}

fixed_part-decode_header :
    (bytes : Bytes)
    → 12 ≤ length bytes
    → All IsByte bytes
    → fixed_part (decode_header bytes) ≡ take 12 bytes
unfolding fixed_part decode_header u16_at u32_at
fixed_part-decode_header (a ∷ b ∷ c ∷ d ∷ e ∷ f ∷ g ∷ h ∷ i ∷ j ∷ k ∷ l ∷ rest) long
      (wa, (wb, (wc, (wd, (we, (wf, (wg, (wh, (wi, (wj, (wk, (wl, _)))))))))))) =
    rw (
      first_byte_again a wa,
      second_byte_again b wb,
      be16_of c d wc wd,
      be32_of e f g h we wf wg wh,
      be32_of i j k l wi wj wk wl,
    )
fixed_part-decode_header _ long w = absurd (omega arith)

word_in_view :
    (bytes : Bytes) (i : ℕ)
    → i < 16
    → 12 + i * 4 + 4 ≤ length bytes
    → (if leb ((12 + i * 4 + 4) % 256) (length bytes) then u32_at bytes ((12 + i * 4) % 256) else 0)
      ≡ u32_at bytes (12 + i * 4)
word_in_view bytes i hi long =
    let here : (12 + i * 4) % 256 ≡ 12 + i * 4 = omega arith in
    rw (le→leb ((12 + i * 4 + 4) % 256) (length bytes) (omega arith)) (ap (u32_at bytes) here)

-- The CSRC words that were read, written again in front of what follows them.
put_csrc-read_csrc :
    (bytes : Bytes) (i n : ℕ)
    → i + n < 16
    → 12 + (i + n) * 4 ≤ length bytes
    → All IsByte bytes
    → put_csrc n (read_csrc bytes i n) ++ drop (12 + (i + n) * 4) bytes ≡ drop (12 + i * 4) bytes
unfolding put_csrc read_csrc
put_csrc-read_csrc bytes i zero hi long w = ap (λ k. drop k bytes) (omega arith)
put_csrc-read_csrc bytes i (suc n) hi long w =
    let next : 12 + (i + suc n) * 4 ≡ 12 + (suc i + n) * 4 = omega arith in
    let four : 12 + suc i * 4 ≡ suc (suc (suc (suc (12 + i * 4)))) = omega arith in
    let words = put_csrc n (read_csrc bytes (suc i) n) in
    append_assoc (be32 _) words (drop (12 + (i + suc n) * 4) bytes)
    ∙ ap₂ ◌++◌ (ap be32 (word_in_view bytes i (omega arith) (omega arith))) (
        ap (λ k. words ++ drop k bytes) next
        ∙ put_csrc-read_csrc bytes (suc i) n (omega arith) (omega arith) w
        ∙ ap (λ k. drop k bytes) four)
    ∙ be32-u32_at (12 + i * 4) bytes (omega arith) w

-- A packet can be parsed when its bytes hold the header and the CSRC words that its first byte
-- announces.
abbrev pub HoldsHeader : Bytes → Type 0
HoldsHeader bytes = (12 ≤ length bytes) × (12 + cc_bits (get_or bytes 0 0) * 4 ≤ length bytes)

first-IsByte : (bytes : Bytes) → All IsByte bytes → get_or bytes 0 0 < 256
first-IsByte [] w = omega arith
first-IsByte (b ∷ bytes) (w, _) = w

marshal_header-decode_header :
    (bytes : Bytes)
    → HoldsHeader bytes
    → All IsByte bytes
    → marshal_header (decode_header bytes) ++ drop (header_size (decode_header bytes)) bytes ≡ bytes
unfolding marshal_header header_size decode_header
marshal_header-decode_header bytes (long, all) w =
    let n = cc_bits (get_or bytes 0 0) in
    let words = put_csrc n (read_csrc bytes 0 n) in
    let same_end : 12 + n * 4 ≡ 12 + (0 + n) * 4 = omega arith in
    append_assoc (fixed_part (decode_header bytes)) words (drop (12 + n * 4) bytes)
    ∙ ap₂ ◌++◌ (fixed_part-decode_header bytes long w) (
        ap (λ k. words ++ drop k bytes) same_end
        ∙ put_csrc-read_csrc bytes 0 n
            (omega (arith, cc_bits-lt (get_or bytes 0 0) (first-IsByte bytes w))) (omega arith) w)
    ∙ take-append-drop 12 bytes

accepts :
    (bytes : Bytes)
    → HoldsHeader bytes
    → parse_packet bytes
      ≡ ok (record {
        header = decode_header bytes;
        payload = drop (header_size (decode_header bytes)) bytes;
      })
unfolding parse_packet parse_header header_size decode_header
accepts bytes (long, all) =
    rw (le→ltb-false (length bytes) 12 long, parse_packet)
      (rw (le→ltb-false (length bytes) (12 + cc_bits (get_or bytes 0 0) * 4) all))

-- Every byte string that holds its header is parsed, and Marshal of the packet gives exactly these
-- bytes back.
pub marshal_packet-parse_packet :
    (bytes : Bytes)
    → HoldsHeader bytes
    → All IsByte bytes
    → (p : RtpPacket) × (parse_packet bytes ≡ ok p) × (marshal_packet p ≡ bytes)
unfolding marshal_packet
marshal_packet-parse_packet bytes holds w = (
  record { header = decode_header bytes; payload = drop (header_size (decode_header bytes)) bytes },
  accepts bytes holds,
  marshal_header-decode_header bytes holds w,
)
