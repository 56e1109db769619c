-- ===== src/Tcp/Frames.antt =====
-- rtspProtocon/tcp_transport.go: frames written and read back, and where the parser of a whole
-- buffer panics.
use rtsp_go.Base.{
  ℕ, zero, suc, ◌+◌, ◌-◌, ◌*◌, ◌%◌, ◌^◌, ◌≤◌, ◌<◌, ◌≡◌, ◌↔◌, refl, sym, append-nil, append_assoc,
  ap, ap₂, ◌∙◌, List, [], ◌∷◌, ◌++◌, ok, err, returns, panics, arith, le→ltb-false, length,
  length-append, length-drop, Result, take, drop, take-append_le, drop-append_le, take-append,
  take_all, drop_all, map, All,
}
use rtsp_go.Base.Text.{Bytes}
use rtsp_go.Base.Word.{IsByte, be16, u16_at}
use rtsp_go.Rtp.{RtpPacket, marshal_packet}
use rtsp_go.Rtp.Decode.{IsHeader, parse_packet-marshal_packet}
use rtsp_go.Tcp.{
  Frame, FrameError, header_not_read, dollar, new_frame, marshal_frame, parse_frame, read_frame,
  read_payload, rtp_frame, rtp_of_frame,
}

-- What the receiver makes of a frame written for `payload`: its first len mod 2 ^ 16 bytes.
abbrev pub received_frame : ℕ → Bytes → Frame
received_frame channel payload = record {
  header = record { magic = dollar; channel = channel; frame_length = length payload % 2 ^ 16 };
  payload = take (length payload % 2 ^ 16) payload;
}

-- The two length bytes stand for the length.
size_back : (a b n : ℕ) (s : Bytes) → n < 2 ^ 16 → u16_at (a ∷ b ∷ (be16 n ++ s)) 2 ≡ n
unfolding u16_at be16
size_back a b n s h = omega arith

read_payload_lem :
    (a b n : ℕ) (s : Bytes)
    → n < 2 ^ 16
    → n ≤ length s
    → read_payload (a ∷ b ∷ be16 n) s ≡ (
      ok (record {
        header = record { magic = a; channel = b; frame_length = n };
        payload = take n s;
      }),
      drop n s,
    )
unfolding read_payload
read_payload_lem a b n s fits enough =
    let size : u16_at (a ∷ b ∷ be16 n) 2 ≡ n =
      ap (λ t. u16_at (a ∷ b ∷ t) 2) (sym (append-nil (be16 n))) ∙ size_back a b n [] fits in
    rw size (rw (le→ltb-false (length s) n enough))

length-be16 : (n : ℕ) → length (be16 n) ≡ 2
unfolding be16
length-be16 n = refl

-- A frame written to a stream, whatever follows it, is read as its first len mod 2 ^ 16 payload
-- bytes, and the payload bytes behind those stay in the stream.
pub read_frame-marshal_frame :
    (channel : ℕ) (payload rest : Bytes)
    → read_frame (marshal_frame (new_frame channel payload) ++ rest)
      ≡ (ok (received_frame channel payload), drop (length payload % 2 ^ 16) payload ++ rest)
unfolding read_frame marshal_frame new_frame be16
read_frame-marshal_frame channel payload rest =
    let n = length payload % 2 ^ 16 in
    let fits : n ≤ length payload = omega arith in
    rw (le→ltb-false (suc (suc (suc (suc (length (payload ++ rest)))))) 4 (omega arith)) (
      read_payload_lem dollar channel n (payload ++ rest) (omega arith)
        (omega (arith, length-append payload rest))
      ∙ rw (take-append_le n payload rest fits, drop-append_le n payload rest fits))

fitting_frame :
    (channel : ℕ) (payload : Bytes)
    → length payload < 2 ^ 16
    → received_frame channel payload ≡ new_frame channel payload
unfolding new_frame
fitting_frame channel payload h =
    let whole : length payload % 2 ^ 16 ≡ length payload = omega arith in
    rw whole (rw (take_all payload))

-- A frame whose payload is shorter than 2 ^ 16 bytes is read back as it was, and the stream goes on
-- behind it.
pub read_frame_back :
    (channel : ℕ) (payload rest : Bytes)
    → length payload < 2 ^ 16
    → read_frame (marshal_frame (new_frame channel payload) ++ rest)
      ≡ (ok (new_frame channel payload), rest)
read_frame_back channel payload rest h =
    let whole : length payload % 2 ^ 16 ≡ length payload = omega arith in
    read_frame-marshal_frame channel payload rest
    ∙ ap₂ (λ f s. (ok f, s ++ rest)) (fitting_frame channel payload h)
        (ap (λ n. drop n payload) whole ∙ drop_all payload)

-- At the end of the stream there is no frame.
pub read_frame_end : read_frame [] ≡ (err header_not_read, [])
unfolding read_frame
read_frame_end = refl

-- The read gave a frame, and left fewer bytes than there were, or it failed.
abbrev pub IsTaken : ℕ → Result FrameError Frame × Bytes → Type 0
IsTaken size (ok f, rest) = length rest < size
IsTaken size (err e, rest) = Unit

read_payload-IsTaken :
    (size : ℕ) (head s : Bytes) → length s < size → IsTaken size (read_payload head s)
unfolding read_payload
read_payload-IsTaken size head s h = ground (arith, length-drop {A = ℕ} (u16_at head 2) s)

pub read_frame-IsTaken : (s : Bytes) → IsTaken (length s) (read_frame s)
unfolding read_frame
read_frame-IsTaken s =
    ground (arith, length-drop {A = ℕ} 4 s, read_payload-IsTaken (length s) (take 4 s) (drop 4 s))

-- The frames that a receiver reads one after the other, while no read fails.
pub read_frames : ℕ → Bytes → List Frame × Bytes
read_frames zero s = ([], s)
read_frames (suc n) s =
    let r = read_frame s in
    let more = read_frames n r.1 in elim r.0 [ ok f ↦ (f ∷ more.0, more.1) | err e ↦ ([], r.1) ]

read_frames_step :
    (n : ℕ) (s s' : Bytes) (f : Frame)
    → read_frame s ≡ (ok f, s')
    → read_frames (suc n) s ≡ (f ∷ (read_frames n s').0, (read_frames n s').1)
unfolding read_frames
read_frames_step n s s' f e = λ i. elim (e i).0 [
  | ok g ↦ (g ∷ (read_frames n (e i).1).0, (read_frames n (e i).1).1)
  | err x ↦ ([], (e i).1)
]

-- The bytes of frames sent one after the other.
unfoldable pub write_frames : List (ℕ × Bytes) → Bytes
write_frames [] = []
write_frames ((c, p) ∷ ps) = marshal_frame (new_frame c p) ++ write_frames ps

-- Frames with fewer than 2^16 payload bytes are delivered in the order in which they were
-- written, none lost or split, whatever follows them.
pub read_frames-write_frames :
    (ps : List (ℕ × Bytes)) (rest : Bytes)
    → All (λ cp. length cp.1 < 2 ^ 16) ps
    → read_frames (length ps) (write_frames ps ++ rest) ≡ (map (λ cp. new_frame cp.0 cp.1) ps, rest)
unfolding read_frames write_frames
read_frames-write_frames [] rest h = refl
read_frames-write_frames ((c, p) ∷ ps) rest (hp, h) =
    rw (append_assoc (marshal_frame (new_frame c p)) (write_frames ps) rest) (
      read_frames_step (length ps) _ _ _ (read_frame_back c p (write_frames ps ++ rest) hp)
      ∙ rw (read_frames-write_frames ps rest h))

parse_lem :
    (channel n : ℕ) (s : Bytes)
    → n < 2 ^ 16 - 4
    → n ≤ length s
    → parse_frame (dollar ∷ channel ∷ (be16 n ++ s))
      ≡ returns (
          ok (record {
            header = record { magic = dollar; channel = channel; frame_length = n };
            payload = take n s;
          }))
unfolding parse_frame be16
parse_lem channel n s fits enough =
    let size = size_back dollar channel n s (omega arith) in
    let all = suc (suc (suc (suc (length s)))) in
    let end : (4 + n) % 2 ^ 16 ≡ 4 + n = omega arith in
    let payload_size : 4 + n - 4 ≡ n = omega arith in
    rw (size, le→ltb-false all 4 (omega arith), end)
      (rw (
        le→ltb-false all (4 + n) (omega arith),
        le→ltb-false (4 + n) 4 (omega arith),
        payload_size,
      ))

-- The parser of a whole buffer gives a frame with fewer than 65532 payload bytes back, whatever
-- follows it.
pub parse_frame-marshal_frame :
    (channel : ℕ) (payload rest : Bytes)
    → length payload < 2 ^ 16 - 4
    → parse_frame (marshal_frame (new_frame channel payload) ++ rest)
      ≡ returns (ok (new_frame channel payload))
unfolding marshal_frame new_frame
parse_frame-marshal_frame channel payload rest h =
    let whole : length payload % 2 ^ 16 ≡ length payload = omega arith in
    rw (whole, append_assoc (be16 (length payload)) payload rest)
      (parse_lem channel (length payload) (payload ++ rest) h
          (omega (arith, length-append payload rest))
        ∙ rw (take-append payload rest))

-- On a buffer of four bytes or more the parser panics exactly if it begins with the magic byte and announces 65532 bytes
-- or more, however few or many follow.
pub parse_frame-panics_iff :
    (a b c d : ℕ) (rest : Bytes)
    → IsByte c
    → IsByte d
    → (parse_frame (a ∷ b ∷ c ∷ d ∷ rest) ≡ panics) ↔ ((a ≡ dollar) × (2 ^ 16 - 4 ≤ c * 256 + d))
unfolding parse_frame u16_at
parse_frame-panics_iff a b c d rest hc hd = ground arith

-- An RTP packet with a well-formed header and fewer than 2^16 bytes, sent on an even channel,
-- arrives: the frame is read back from the stream, and the packet is parsed from it.
pub rtp_of_frame-rtp_frame :
    (channel : ℕ) (p : RtpPacket) (rest : Bytes)
    → channel % 2 ≡ 0
    → IsHeader p.header
    → length (marshal_packet p) < 2 ^ 16
    → (read_frame (marshal_frame (rtp_frame channel p) ++ rest) ≡ (ok (rtp_frame channel p), rest))
      × (rtp_of_frame (rtp_frame channel p) ≡ ok p)
unfolding rtp_frame rtp_of_frame
rtp_of_frame-rtp_frame channel p rest even w fits =
    (read_frame_back channel (marshal_packet p) rest fits, parsed)
  where
    parsed : rtp_of_frame (rtp_frame channel p) ≡ ok p
    parsed = unfold new_frame in ground (arith, parse_packet-marshal_packet p w)
