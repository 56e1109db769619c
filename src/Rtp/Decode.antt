-- ===== src/Rtp/Decode.antt =====
-- rtspProtocon/rtp.go: parsing gives back what Marshal wrote.
use rtsp_go.Base.{
  ℕ, zero, suc, ◌+◌, ◌*◌, ◌%◌, ◌≤◌, ◌<◌, ◌≡◌, false, refl, sym, ap, ap₂, ◌∙◌, List, [], ◌∷◌, ◌++◌,
  append_assoc, ok, arith, ltb, leb, if◌then◌else◌, le→leb, le→ltb-false, length, length-append,
  drop, drop-append, All,
}
use rtsp_go.Base.Text.{Bytes}
use rtsp_go.Base.Word.{IsU16, IsU32, be16, be32, u16_at, u32_at, length-be32, u32_at-be32}
use rtsp_go.Rtp.{
  RtpHeader, RtpPacket, fixed_part, put_csrc, marshal_header, decode_header, read_csrc,
  parse_header, marshal_packet, parse_packet, header_size, first_byte, cc_bits,
}
use rtsp_go.Rtp.Bits.{
  version-first_byte, padding-first_byte, extension-first_byte, cc-first_byte, marker-second_byte,
  payload_type-second_byte,
}

-- The fields fit their places, and CC counts the CSRC list.
pub record IsHeader (h : RtpHeader) : Type 0 where
  pub version_fits : h.version < 4
  pub cc_fits : h.cc < 16
  pub payload_type_fits : h.payload_type < 128
  pub sequence_fits : IsU16 h.sequence_num
  pub timestamp_fits : IsU32 h.timestamp
  pub ssrc_fits : IsU32 h.ssrc
  pub csrc_fits : All IsU32 h.csrc
  pub csrc_counted : length h.csrc ≡ h.cc

length-put_csrc : (n : ℕ) (cs : List ℕ) → length (put_csrc n cs) ≡ n * 4
unfolding put_csrc be32
length-put_csrc zero cs = refl
length-put_csrc (suc n) [] = omega (arith, length-put_csrc n [])
length-put_csrc (suc n) (c ∷ cs) = omega (arith, length-put_csrc n cs)

length-fixed_part : (h : RtpHeader) → length (fixed_part h) ≡ 12
unfolding fixed_part be16 be32
length-fixed_part h = refl

-- Marshal writes 12 bytes and four for each CSRC place.
pub length-marshal_header : (h : RtpHeader) → length (marshal_header h) ≡ header_size h
unfolding marshal_header header_size
length-marshal_header h = omega (
  arith,
  length-append (fixed_part h) (put_csrc h.cc h.csrc),
  length-fixed_part h,
  length-put_csrc h.cc h.csrc,
)

-- The word behind a prefix of 12 + 4 i bytes is in view, and is read back.
word_back :
    (pre tail : Bytes) (i c : ℕ)
    → length pre ≡ 12 + i * 4
    → i < 16
    → IsU32 c
    → (if leb ((12 + i * 4 + 4) % 256) (length (pre ++ be32 c ++ tail))
        then u32_at (pre ++ be32 c ++ tail) ((12 + i * 4) % 256)
        else 0)
      ≡ c
word_back pre tail i c hp hi hc =
    let long : (12 + i * 4 + 4) % 256 ≤ length (pre ++ be32 c ++ tail) =
      omega
        (arith, length-append (pre ++ be32 c) tail, length-append pre (be32 c), length-be32 c) in
    let here : (12 + i * 4) % 256 ≡ length pre = omega arith in
    rw (le→leb _ _ long) (ap (u32_at (pre ++ be32 c ++ tail)) here ∙ u32_at-be32 pre tail c hc)

regroup : (a b c d : Bytes) → a ++ (b ++ c ++ d) ≡ a ++ b ++ (c ++ d)
regroup a b c d = simp append_assoc

read_csrc-put_csrc :
    (pre rest : Bytes) (i n : ℕ) (cs : List ℕ)
    → length pre ≡ 12 + i * 4
    → i + n < 17
    → length cs ≡ n
    → All IsU32 cs
    → read_csrc (pre ++ (put_csrc n cs ++ rest)) i n ≡ cs
unfolding read_csrc put_csrc
read_csrc-put_csrc pre rest i zero [] hp hi hl hc = refl
read_csrc-put_csrc pre rest i zero (c ∷ cs) hp hi hl hc = absurd (omega arith)
read_csrc-put_csrc pre rest i (suc n) [] hp hi hl hc = absurd (omega arith)
read_csrc-put_csrc pre rest i (suc n) (c ∷ cs) hp hi hl (hc, hcs) =
    ap (λ s. read_csrc s i (suc n)) (regroup pre (be32 c) (put_csrc n cs) rest)
    ∙ ap₂ ◌∷◌ (word_back pre (put_csrc n cs ++ rest) i c hp (omega arith) hc) (
        read_csrc-put_csrc (pre ++ be32 c) rest (suc i) n cs
          (omega (arith, length-append pre (be32 c), length-be32 c)) (omega arith) (omega arith)
          hcs)

module _ (h : RtpHeader) (w : IsHeader h) (rest : Bytes) where
  abbrev bytes : Bytes
  bytes = marshal_header h ++ rest

  sequence-back : u16_at bytes 2 ≡ h.sequence_num
  unfolding marshal_header be16 be32 u16_at
  sequence-back = omega arith

  timestamp-back : u32_at bytes 4 ≡ h.timestamp
  unfolding marshal_header be16 be32 u32_at
  timestamp-back = omega arith

  ssrc-back : u32_at bytes 8 ≡ h.ssrc
  unfolding marshal_header be16 be32 u32_at
  ssrc-back = omega arith

  csrc-back : read_csrc bytes 0 h.cc ≡ h.csrc
  unfolding marshal_header
  csrc-back =
      ap (λ s. read_csrc s 0 h.cc) (append_assoc (fixed_part h) (put_csrc h.cc h.csrc) rest)
      ∙ read_csrc-put_csrc (fixed_part h) rest 0 h.cc h.csrc (length-fixed_part h) (omega arith)
          w.csrc_counted w.csrc_fits

  decode_header-marshal_header : decode_header bytes ≡ h
  unfolding decode_header marshal_header be16 be32
  decode_header-marshal_header = λ i. record {
    version = version-first_byte v p e c w.version_fits w.cc_fits i;
    padding = padding-first_byte v p e c w.version_fits w.cc_fits i;
    extension = extension-first_byte v p e c w.version_fits w.cc_fits i;
    cc = count i;
    marker = marker-second_byte h.marker h.payload_type w.payload_type_fits i;
    payload_type = payload_type-second_byte h.marker h.payload_type w.payload_type_fits i;
    sequence_num = sequence-back i;
    timestamp = timestamp-back i;
    ssrc = ssrc-back i;
    csrc = (ap (read_csrc bytes 0) count ∙ csrc-back) i;
  }
    where
      open h use {version as v, padding as p, extension as e, cc as c}

      count : cc_bits (first_byte v p e c) ≡ c
      count = cc-first_byte v p e c w.version_fits w.cc_fits

  -- Parsing a header that Marshal wrote gives the header back, whatever follows it.
  pub parse_header-marshal_header : parse_header bytes ≡ ok h
  unfolding parse_header header_size
  parse_header-marshal_header =
      let long : 12 ≤ length bytes =
        omega (arith, length-append (marshal_header h) rest, length-marshal_header h) in
      rw (le→ltb-false (length bytes) 12 long) (ap ok decode_header-marshal_header)

  long_enough : ltb (length bytes) (header_size h) ≡ false
  long_enough =
      le→ltb-false _ _
        (omega (arith, length-append (marshal_header h) rest, length-marshal_header h))

  payload-back : drop (header_size h) bytes ≡ rest
  payload-back =
      ap (λ n. drop n bytes) (sym (length-marshal_header h)) ∙ drop-append (marshal_header h) rest

-- The bytes of a packet whose header is well formed (its fields fit their bits, and CC is the
-- number of CSRC words) are parsed to that packet.
pub parse_packet-marshal_packet :
    (p : RtpPacket) → IsHeader p.header → parse_packet (marshal_packet p) ≡ ok p
unfolding parse_packet marshal_packet
parse_packet-marshal_packet p w =
    rw (parse_header-marshal_header p.header w p.payload, parse_packet)
      (rw (long_enough p.header w p.payload, payload-back p.header w p.payload))
