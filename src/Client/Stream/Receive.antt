-- ===== src/Client/Stream/Receive.antt =====
-- client/client.go: the receiver of ReceiveTCPMediaStream, on frames that were written whole.
use rtsp_go.Base.{
  ℕ, zero, suc, ◌<◌, ◌^◌, ◌≡◌, refl, ap, ◌∙◌, true, List, [], ◌∷◌, map, Option, none, some, Result,
  ok, err, returns, Comes, Comes-if, if◌then◌else◌, All, length, arith, Bool-cases, inl, inr, ◌==◌,
}
use rtsp_go.Base.Text.{Bytes}
use rtsp_go.Rtp.{RtpPacket}
use rtsp_go.Tcp.{
  Frame, FrameError, ChannelError, TcpChannel, header_not_read, new_frame, read_frame, rtp_of_frame,
  update_received,
}
use rtsp_go.Tcp.Frames.{read_frame_back, read_frame_end, IsTaken, read_frame-IsTaken, write_frames}
use rtsp_go.Tcp.Stats.{received, apply, run}
use rtsp_go.Client.{RtspClient}
use rtsp_go.Client.Stream.{live, count_packet, take_frame, Receiving, on_frame, receive_frames}

-- The same loop condition, and the frame counted.
record Took (frame : Frame) (now : ℕ) (c a : RtspClient) : Type 0 where
  still_live : live a ≡ live c
  counted : a.tcp_stats ≡ update_received c.tcp_stats frame now

count_packet-Took :
    (frame : Frame) (now : ℕ) (c b : RtspClient) (r : Result ChannelError RtpPacket)
    → Took frame now c b
    → Took frame now c (count_packet b r)
unfolding count_packet live
count_packet-Took frame now c b (err e) h = h
count_packet-Took frame now c b (ok p) h = record { still_live = h.still_live; counted = h.counted }

take_frame-Took :
    (now : ℕ) (ch : TcpChannel) (c : RtspClient) (frame : Frame)
    → Took frame now c (take_frame now ch c frame)
unfolding take_frame live
take_frame-Took now ch c frame =
    let c' : RtspClient = record c { tcp_stats = update_received c.tcp_stats frame now } in
    let h : Took frame now c c' = record { still_live = refl; counted = refl } in
    elim (Bool-cases (frame.header.channel == ch.rtp_channel)) [
      | inl media ↦ rw media (count_packet-Took frame now c c' (rtp_of_frame frame) h)
      | inr other ↦ rw other h
    ]

-- The receiver read the frames of the payloads, counted them all, and ended at the stream's end.
abbrev pub HasReceived : List (ℕ × Bytes) → ℕ → RtspClient → Receiving → Type 0
HasReceived ps now c o =
    (a : RtspClient) × (o ≡ returns (some header_not_read, a, []))
    × (a.tcp_stats ≡ run c.tcp_stats (map (λ cp. received (new_frame cp.0 cp.1) now) ps))

receive_next :
    (fuel now : ℕ) (ch : TcpChannel) (c : RtspClient) (s : Bytes)
    (r : Result FrameError Frame × Bytes)
    → live c ≡ true
    → read_frame s ≡ r
    → receive_frames (suc fuel) now ch c s ≡ on_frame (receive_frames fuel now ch) now ch c r
unfolding receive_frames
receive_next fuel now ch c s r on e =
    ap
      (λ b.
        if b
        then on_frame (receive_frames fuel now ch) now ch c (read_frame s)
        else returns (none, c, s))
      on
    ∙ ap (on_frame (receive_frames fuel now ch) now ch c) e

-- While the client is connected and its session playing, the receiver reads frames that were written
-- with payloads below 2 ^ 16 bytes one by one, and counts every one of them; it ends with the error
-- of the read that finds the stream at its end.
pub receive_frames-write_frames :
    (ps : List (ℕ × Bytes)) (fuel now : ℕ) (ch : TcpChannel) (c : RtspClient)
    → All (λ cp. length cp.1 < 2 ^ 16) ps
    → length ps < fuel
    → live c ≡ true
    → HasReceived ps now c (receive_frames fuel now ch c (write_frames ps))
unfolding write_frames run apply on_frame
receive_frames-write_frames ps zero now ch c h enough on = absurd (omega arith)
receive_frames-write_frames [] (suc fuel) now ch c h enough on =
    (c, receive_next fuel now ch c [] (err header_not_read, []) on read_frame_end, refl)
receive_frames-write_frames ((channel, p) ∷ ps) (suc fuel) now ch c (hp, hs) enough on =
    let frame = new_frame channel p in
    let took = take_frame-Took now ch c frame in
    let (a, ends, counts) =
      receive_frames-write_frames ps fuel now ch (take_frame now ch c frame) hs (omega arith)
        (took.still_live ∙ on) in
    (
      a,
      receive_next fuel now ch c (write_frames ((channel, p) ∷ ps)) (ok frame, write_frames ps) on
            (read_frame_back channel p (write_frames ps) hp)
          ∙ ends,
      counts ∙ ap (λ st. run st (map (λ cp. received (new_frame cp.0 cp.1) now) ps)) took.counted,
    )

abbrev Any : Option FrameError × RtspClient × Bytes → Type 0
Any r = Unit

on_frame-Comes :
    (go_on : RtspClient → Bytes → Receiving) (now : ℕ) (ch : TcpChannel) (c : RtspClient) (size : ℕ)
    (r : Result FrameError Frame × Bytes)
    → ((a : RtspClient) (rest : Bytes) → length rest < size → Comes Any (go_on a rest))
    → IsTaken size r
    → Comes Any (on_frame go_on now ch c r)
unfolding on_frame
on_frame-Comes go_on now ch c size (err e, rest) g h = tt
on_frame-Comes go_on now ch c size (ok frame, rest) g h = g (take_frame now ch c frame) rest h

-- On any input the receiver comes to an end, if it has more fuel than there are bytes.
pub receive_frames-Comes :
    (fuel now : ℕ) (ch : TcpChannel) (c : RtspClient) (s : Bytes)
    → length s < fuel
    → Comes Any (receive_frames fuel now ch c s)
unfolding receive_frames
receive_frames-Comes zero now ch c s enough = absurd (omega arith)
receive_frames-Comes (suc fuel) now ch c s enough =
    Comes-if Any (live c) _ _
      (λ on.
        on_frame-Comes (receive_frames fuel now ch) now ch c (length s) (read_frame s)
          (λ a rest less. receive_frames-Comes fuel now ch a rest (omega arith))
          (read_frame-IsTaken s))
      (λ off. tt)
