-- ===== src/Server/Streaming/Frames.antt =====
-- server/server.go: the frames that the sender writes, and those that the receiver counts.
use rtsp_go.Base.{
  ℕ, zero, suc, ◌+◌, ◌<◌, ◌%◌, ◌^◌, ◌≡◌, refl, ap, ◌∙◌, false, Bool, List, [], ◌∷◌, ◌++◌, map, none,
  some, returns, panics, All, length, arith, if◌then◌else◌,
}
use rtsp_go.Base.Text.{Bytes}
use rtsp_go.Tcp.{
  TcpChannel, TcpStats, header_not_read, new_frame, marshal_frame, update_sent, update_received,
}
use rtsp_go.Tcp.Frames.{read_frame_back, read_frame_end, write_frames}
use rtsp_go.Tcp.Stats.{Update, sent, received, apply, run}
use rtsp_go.Server.Streaming.{Tick, sent_payload, send_frames, on_interleaved, receive_interleaved}

-- The payloads of rounds that all write.
pub payloads : ℕ → ℕ → ℕ → List Tick → List (ℕ × Bytes)
payloads channel n t [] = []
payloads channel n t (x ∷ xs) =
    (channel, sent_payload n t x.ssrc)
    ∷ payloads channel ((n + 1) % 2 ^ 16) ((t + 3600) % 2 ^ 32) xs

-- Rounds that are as many as the payloads, as updates of the counters.
pub updates : List Tick → List (ℕ × Bytes) → List Update
updates [] ps = []
updates (x ∷ xs) [] = []
updates (x ∷ xs) ((c, p) ∷ ps) = sent (new_frame c p) x.now ∷ updates xs ps

written : (b : Bool) (x y : Bytes × TcpStats) → b ≡ false → (if b then x else y) ≡ y
written b x y e = ap (λ b'. if b' then x else y) e

-- While no write fails, the sender writes the frames of its packets one after the other, the numbers
-- growing by 1 and the timestamps by 3600 with their wrap, and counts each of them as sent.
pub send_frames-write_frames :
    (channel n t : ℕ) (xs : List Tick) (st : TcpStats)
    → All (λ (x : Tick). x.write_fails ≡ false) xs
    → send_frames channel n t xs st
      ≡ (write_frames (payloads channel n t xs), run st (updates xs (payloads channel n t xs)))
unfolding send_frames payloads updates write_frames run apply
send_frames-write_frames channel n t [] st h = refl
send_frames-write_frames channel n t (x ∷ xs) st (hx, h) =
    let frame = new_frame channel (sent_payload n t x.ssrc) in
    written x.write_fails _ _ hx
    ∙ ap (λ (r : Bytes × TcpStats). (marshal_frame frame ++ r.0, r.1))
        (send_frames-write_frames channel ((n + 1) % 2 ^ 16) ((t + 3600) % 2 ^ 32) xs
          (update_sent st frame x.now) h)

-- With a channel, the receiver reads frames that were written with payloads below 2 ^ 16 bytes one by
-- one, counts every one of them, and ends at the end of the stream.
pub receive_interleaved-write_frames :
    (ps : List (ℕ × Bytes)) (fuel now : ℕ) (ch : TcpChannel) (st : TcpStats)
    → All (λ cp. length cp.1 < 2 ^ 16) ps
    → length ps < fuel
    → receive_interleaved fuel (some ch) now st (write_frames ps)
      ≡ returns (header_not_read, run st (map (λ cp. received (new_frame cp.0 cp.1) now) ps), [])
unfolding receive_interleaved on_interleaved write_frames run apply
receive_interleaved-write_frames ps zero now ch st h enough = absurd (omega arith)
receive_interleaved-write_frames [] (suc fuel) now ch st h enough =
    ap (on_interleaved (some ch) (receive_interleaved fuel (some ch) now) now st) read_frame_end
receive_interleaved-write_frames ((c, p) ∷ ps) (suc fuel) now ch st (hp, h) enough =
    ap (on_interleaved (some ch) (receive_interleaved fuel (some ch) now) now st)
      (read_frame_back c p (write_frames ps) hp)
    ∙ receive_interleaved-write_frames ps fuel now ch (update_received st (new_frame c p) now) h
        (omega arith)

-- Without a channel, the first frame makes the receiver panic.
pub receive_interleaved-panics :
    (channel : ℕ) (p rest : Bytes) (fuel now : ℕ) (st : TcpStats)
    → length p < 2 ^ 16
    → receive_interleaved (suc fuel) none now st (marshal_frame (new_frame channel p) ++ rest)
      ≡ panics
unfolding receive_interleaved on_interleaved
receive_interleaved-panics channel p rest fuel now st h =
    ap (on_interleaved none (receive_interleaved fuel none now) now st)
      (read_frame_back channel p rest h)
