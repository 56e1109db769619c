-- ===== src/Proxy/Media/Forward.antt =====
-- proxy/media_proxy.go: what ForwardData copies, and what it counts.
use rtsp_go.Base.{
  ℕ, ◌+◌, ◌^◌, ◌<◌, ◌≡◌, refl, sym, ap, ◌∙◌, Bool, true, false, List, [], ◌∷◌, ◌++◌, Option, none,
  some, append_assoc, append-nil, length, length-append, take, All, arith, subst,
}
use rtsp_go.Base.Word.{u64}
use rtsp_go.Base.Text.{Bytes, codes, text_eq}
use rtsp_go.Proxy.Media.{MediaStreamProxy, Round, update_proxy_stats, forward_data}
use rtsp_go.Proxy.Media.Threads.{Stream, rtp, rtcp, tcp}

abbrev pub name : Stream → Bytes
name rtp = codes "rtp"
name rtcp = codes "rtcp"
name tcp = codes "tcp"

abbrev pub bytes_of : Stream → MediaStreamProxy → ℕ
bytes_of rtp msp = msp.rtp_proxy.stats.rtp_bytes_forwarded
bytes_of rtcp msp = msp.rtcp_proxy.stats.bytes_forwarded
bytes_of tcp msp = msp.tcp_proxy.stats.bytes_forwarded

abbrev pub packets_of : Stream → MediaStreamProxy → ℕ
packets_of rtp msp = msp.rtp_proxy.stats.rtp_packets_forwarded
packets_of rtcp msp = msp.rtcp_proxy.stats.packets_forwarded
packets_of tcp msp = msp.tcp_proxy.stats.packets_forwarded

-- A round in which Read and Write succeed.
abbrev pub IsWhole : Round → Type 0
IsWhole r = (r.read_fails ≡ false) × (r.write_fails ≡ none)

-- What Read gives in the rounds, one after the other.
abbrev pub contents : List Round → Bytes
contents [] = []
contents (r ∷ rounds) = r.bytes ++ contents rounds

update_proxy_stats-bytes_of :
    (s : Stream) (count now : ℕ) (msp : MediaStreamProxy)
    → (bytes_of s (update_proxy_stats (name s) count now msp) ≡ u64 (bytes_of s msp + count))
      × (packets_of s (update_proxy_stats (name s) count now msp) ≡ packets_of s msp)
unfolding update_proxy_stats text_eq
update_proxy_stats-bytes_of rtp count now msp = (refl, refl)
update_proxy_stats-bytes_of rtcp count now msp = (refl, refl)
update_proxy_stats-bytes_of tcp count now msp = (refl, refl)

-- The bytes that are written in a round that fails: none in its Read, or those of its Write.
abbrev pub Fails : Round → Bytes → Type 0
Fails r written = elim r.read_fails [
  | true ↦ written ≡ []
  | false ↦ elim r.write_fails [ none ↦ ⊥ | some n ↦ written ≡ take n r.bytes ]
]

whole_step :
    (s : Stream) (r : Round) (rounds : List Round) (out : Bytes) (msp : MediaStreamProxy)
    → IsWhole r
    → forward_data (name s) (r ∷ rounds) out msp
      ≡ forward_data
          (name s)
          rounds
          (out ++ r.bytes)
          (update_proxy_stats (name s) (length r.bytes) r.now msp)
unfolding forward_data
whole_step s r rounds out msp (reads, writes) = rw reads (rw writes refl)

last_step :
    (s : Stream) (bytes : Bytes) (read_fails : Bool) (write_fails : Option ℕ) (now : ℕ)
    (after : List Round) (out written : Bytes) (msp : MediaStreamProxy)
    → let r : Round = record {
      bytes = bytes;
      read_fails = read_fails;
      write_fails = write_fails;
      now = now;
    } in
      Fails r written → forward_data (name s) (r ∷ after) out msp ≡ (out ++ written, msp)
unfolding forward_data
last_step s bytes true write_fails now after out written msp h =
    ap (λ t. (t, msp)) (sym (append-nil out) ∙ ap (λ w. out ++ w) (sym h))
last_step s bytes false none now after out written msp h = absurd h
last_step s bytes false (some n) now after out written msp h = ap (λ w. (out ++ w, msp)) (sym h)

-- A run has written `text`, and counted `count` bytes of a stream and no packet.
abbrev pub Copied : Stream → MediaStreamProxy → Bytes → ℕ → Bytes × MediaStreamProxy → Type 0
Copied s msp text count (out, after) =
    (out ≡ text)
    × (bytes_of s after ≡ u64 (bytes_of s msp + count))
    × (packets_of s after ≡ packets_of s msp)

-- ForwardData of one of the three streams, over rounds in which Read and Write succeed, one in which
-- either fails, and any rounds behind it: it writes what Read gave in the former, in order, then
-- what Write takes before it fails, and nothing more; the stream's byte counter grows by the bytes
-- of the former (modulo 2^64), and its packet counter stays as it is.
pub forward_data-Copied :
    (s : Stream) (whole : List Round) (last : Round) (after : List Round) (out written : Bytes)
    (msp : MediaStreamProxy)
    → All IsWhole whole
    → Fails last written
    → bytes_of s msp < 2 ^ 64
    → Copied s msp
        (out ++ (contents whole ++ written))
        (length (contents whole))
        (forward_data (name s) (whole ++ last ∷ after) out msp)
forward_data-Copied s [] last after out written msp good fails small =
    subst (Copied s msp (out ++ written) 0)
      (sym (
        last_step s last.bytes last.read_fails last.write_fails last.now after out written msp
          fails))
      (refl, omega arith, refl)
forward_data-Copied s (r ∷ whole) last after out written msp (good, more) fails small =
    let counted = update_proxy_stats (name s) (length r.bytes) r.now msp in
    let (bytes, packets) = update_proxy_stats-bytes_of s (length r.bytes) r.now msp in
    let (text, count, same) =
      forward_data-Copied s whole last after (out ++ r.bytes) written counted more fails
        (omega (arith, bytes)) in
    subst (Copied s msp (out ++ (contents (r ∷ whole) ++ written)) (length (contents (r ∷ whole))))
      (sym (whole_step s r (whole ++ last ∷ after) out msp good))
      (
        text
            ∙ (append_assoc out r.bytes (contents whole ++ written)
                ∙ ap (λ t. out ++ t) (sym (append_assoc r.bytes (contents whole) written))),
        omega (arith, bytes, count, length-append r.bytes (contents whole)),
        same ∙ packets,
      )
