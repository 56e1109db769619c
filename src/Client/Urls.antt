-- ===== src/Client/Urls.antt =====
-- client/client.go: the URLs that parseURL takes apart.
use rtsp_go.Base.{
  ℕ, ◌+◌, ◌-◌, ◌*◌, ◌==◌, ◌≢◌, Bool-cases, inl, inr, arith, All-append, ◌<◌, ◌^◌, ◌≡◌, refl, ap,
  ◌∙◌, false, [], ◌∷◌, ◌++◌, none, ok, err, All,
}
use rtsp_go.Base.Int.{pos}
use rtsp_go.Base.Text.{Bytes, codes, split, has_prefix}
use rtsp_go.Protocol.Session.{validate_rtsp_url}
use rtsp_go.Base.Text.Laws.{Lacks, split-Lacks_self, split-append}
use rtsp_go.Base.Text.Decimal.{
  itoa, atoi, atoi-itoa, is_digit, scan, magnitude, IsDigit, itoa-IsDigit,
}
use rtsp_go.Client.{invalid_port_number, host_and_port, port_of, parse_url}

-- A byte that is no digit ends the scan.
scan-stops : (s t : Bytes) (c n : ℕ) → is_digit c ≡ false → scan (s ++ c ∷ t) n ≡ none
unfolding scan
scan-stops [] t c n h = rw (h, scan) refl
scan-stops (d ∷ s) t c n h = elim (Bool-cases (is_digit d)) [
  | inl digit ↦ rw (digit, scan) (scan-stops s t c (n * 10 + (d - 48)) h)
  | inr other ↦ rw (other, scan) refl
]

magnitude-stops :
    (s t : Bytes) (c limit : ℕ) → is_digit c ≡ false → magnitude (s ++ c ∷ t) limit ≡ none
unfolding magnitude
magnitude-stops [] t c limit h = rw (scan-stops [] t c 0 h, magnitude) refl
magnitude-stops (d ∷ s) t c limit h = rw (scan-stops (d ∷ s) t c 0 h, magnitude) refl

-- A text with a slash is no number.
atoi-slash : (s t : Bytes) → atoi (s ++ b'/' ∷ t) ≡ none
unfolding atoi is_digit
atoi-slash [] t = refl
atoi-slash (d ∷ s) t = elim (Bool-cases (d == b'-')) [
  | inl minus ↦ rw minus (rw (magnitude-stops s t b'/' (2 ^ 63) refl) refl)
  | inr no_minus ↦ rw no_minus (elim (Bool-cases (d == b'+')) [
    | inl plus ↦ rw plus (rw (magnitude-stops s t b'/' (2 ^ 63 - 1) refl) refl)
    | inr no_sign ↦ rw no_sign (rw (magnitude-stops (d ∷ s) t b'/' (2 ^ 63 - 1) refl) refl)
  ])
]

digits-Lacks : (s : Bytes) → All IsDigit s → Lacks b':' s
digits-Lacks [] h = tt
digits-Lacks (d ∷ s) (h, hs) = (λ e. absurd (omega arith), digits-Lacks s hs)

slashed-Lacks : (s t : Bytes) → Lacks b':' s → Lacks b':' t → Lacks b':' (s ++ b'/' ∷ t)
slashed-Lacks s t hs ht =
    All-append (λ c. c ≢ b':') s (b'/' ∷ t) hs ((λ e. absurd (omega arith)), ht)

parse_url-behind : (s : Bytes) → parse_url (codes "rtsp://" ++ s) ≡ host_and_port (split s b':')
unfolding parse_url validate_rtsp_url has_prefix
parse_url-behind s = refl

-- The URLs of a host: with a port, with a port and a path, and with a path.
abbrev pub with_port : Bytes → ℕ → Bytes
with_port host port = codes "rtsp://" ++ host ++ b':' ∷ itoa port

abbrev pub with_port_and_path : Bytes → ℕ → Bytes → Bytes
with_port_and_path host port path = codes "rtsp://" ++ host ++ b':' ∷ (itoa port ++ b'/' ∷ path)

abbrev pub with_path : Bytes → Bytes → Bytes
with_path host path = codes "rtsp://" ++ host ++ b'/' ∷ path

behind_colon :
    (host port : Bytes)
    → Lacks b':' host
    → Lacks b':' port
    → split (host ++ b':' ∷ port) b':' ≡ host ∷ port ∷ []
behind_colon host port hh hp =
    split-append host port b':' hh ∙ ap (◌∷◌ host) (split-Lacks_self port b':' hp)

-- Take a host and a path without colons, and a port that is an int. parseURL takes `rtsp://host:port`
-- apart. With the path behind the port it finds no number and fails, and with the path behind the
-- host alone it gives host and path together as the host, with the port 554.
pub parse_url-parts :
    (host path : Bytes) (port : ℕ)
    → Lacks b':' host
    → Lacks b':' path
    → port < 2 ^ 63
    → (parse_url (with_port host port) ≡ ok (host, pos port))
      × (parse_url (with_port_and_path host port path) ≡ err invalid_port_number)
      × (parse_url (with_path host path) ≡ ok (host ++ b'/' ∷ path, pos 554))
unfolding host_and_port port_of
parse_url-parts host path port hh hp fits =
    let digits = digits-Lacks (itoa port) (itoa-IsDigit port) in
    let tail = itoa port ++ b'/' ∷ path in
    (
      parse_url-behind (host ++ b':' ∷ itoa port)
          ∙ ap host_and_port (behind_colon host (itoa port) hh digits)
          ∙ ap (port_of host) (atoi-itoa port fits),
      parse_url-behind (host ++ b':' ∷ tail)
          ∙ ap host_and_port (behind_colon host tail hh (slashed-Lacks (itoa port) path digits hp))
          ∙ ap (port_of host) (atoi-slash (itoa port) path),
      parse_url-behind (host ++ b'/' ∷ path)
          ∙ ap host_and_port
              (split-Lacks_self (host ++ b'/' ∷ path) b':' (slashed-Lacks host path hh hp)),
    )
