-- ===== src/Rtp/Stats.antt =====
-- rtspProtocon/rtp.go: the counters of a stream over any sequence of updates.
use rtsp_go.Base.{ℕ, ◌+◌, ◌%◌, ◌^◌, ◌<◌, ◌≡◌, List, [], ◌∷◌, arith}
use rtsp_go.Rtp.{RtpStats, new_rtp_stats, update_sent, update_received, loss_rate}

-- A call of UpdateSent or UpdateReceived: sequence number, timestamp, bytes.
pub data Update : Type 0 where
  sent received : ℕ → ℕ → ℕ → Update

pub apply : RtpStats → Update → RtpStats
apply s (sent q t b) = update_sent s q t b
apply s (received q t b) = update_received s q t b

pub run : RtpStats → List Update → RtpStats
unfolding apply
run s [] = s
run s (u ∷ us) = run (apply s u) us

-- Updates counted with no bound.
abbrev pub sends : List Update → ℕ
sends [] = 0
sends (sent q t b ∷ us) = sends us + 1
sends (received q t b ∷ us) = sends us

abbrev pub receives : List Update → ℕ
receives [] = 0
receives (sent q t b ∷ us) = receives us
receives (received q t b ∷ us) = receives us + 1

abbrev pub sent_bytes : List Update → ℕ
sent_bytes [] = 0
sent_bytes (sent q t b ∷ us) = b + sent_bytes us
sent_bytes (received q t b ∷ us) = sent_bytes us

abbrev pub received_bytes : List Update → ℕ
received_bytes [] = 0
received_bytes (sent q t b ∷ us) = received_bytes us
received_bytes (received q t b ∷ us) = b + received_bytes us

pub record IsCount (s : RtpStats) (us : List Update) (after : RtpStats) : Type 0 where
  pub packets_out : after.packets_sent ≡ (s.packets_sent + sends us) % 2 ^ 32
  pub packets_in : after.packets_received ≡ (s.packets_received + receives us) % 2 ^ 32
  pub bytes_out : after.bytes_sent ≡ (s.bytes_sent + sent_bytes us) % 2 ^ 32
  pub bytes_in : after.bytes_received ≡ (s.bytes_received + received_bytes us) % 2 ^ 32

pub record IsUint32 (s : RtpStats) : Type 0 where
  pub packets_sent_fits : s.packets_sent < 2 ^ 32
  pub packets_received_fits : s.packets_received < 2 ^ 32
  pub bytes_sent_fits : s.bytes_sent < 2 ^ 32
  pub bytes_received_fits : s.bytes_received < 2 ^ 32

apply-IsUint32 : (s : RtpStats) (u : Update) → IsUint32 s → IsUint32 (apply s u)
unfolding apply update_sent update_received
apply-IsUint32 s (sent q t b) w = omega arith
apply-IsUint32 s (received q t b) w = omega arith

IsCount-step :
    (s : RtpStats) (u : Update) (us : List Update) (after : RtpStats)
    → IsUint32 (apply s u)
    → IsUint32 s
    → IsCount (apply s u) us after
    → IsCount s (u ∷ us) after
unfolding apply update_sent update_received
IsCount-step s (sent q t b) us after v w h = omega arith
IsCount-step s (received q t b) us after v w h = omega arith

-- After any updates each counter is the number of packets or bytes that it should count, modulo
-- 2 ^ 32.
pub run-IsCount : (s : RtpStats) (us : List Update) → IsUint32 s → IsCount s us (run s us)
unfolding run
run-IsCount s [] w = omega arith
run-IsCount s (u ∷ us) w =
    IsCount-step s u us _ (apply-IsUint32 s u w) w
      (run-IsCount (apply s u) us (apply-IsUint32 s u w))

new-IsUint32 : (ssrc : ℕ) → IsUint32 (new_rtp_stats ssrc)
unfolding new_rtp_stats
new-IsUint32 ssrc = omega arith

rate_of_counts :
    (ssrc : ℕ) (s : RtpStats) (us : List Update)
    → 0 < receives us
    → sends us + receives us < 2 ^ 32
    → IsCount (new_rtp_stats ssrc) us s
    → loss_rate s ≡ (sends us, receives us + sends us)
unfolding loss_rate new_rtp_stats
rate_of_counts ssrc s us some_in few c = ground arith

-- GetLossRate of a new stream after some updates, one of them received and fewer than 2 ^ 32 in
-- all, is the share of the packets sent in all packets, whatever their sequence numbers.
pub loss_rate-run :
    (ssrc : ℕ) (us : List Update)
    → 0 < receives us
    → sends us + receives us < 2 ^ 32
    → loss_rate (run (new_rtp_stats ssrc) us) ≡ (sends us, receives us + sends us)
loss_rate-run ssrc us some_in few =
    rate_of_counts ssrc (run (new_rtp_stats ssrc) us) us some_in few
      (run-IsCount (new_rtp_stats ssrc) us (new-IsUint32 ssrc))
