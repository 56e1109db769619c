-- ===== src/Proxy/Health/HostPort.antt =====
-- proxy/health_checker.go: the address that extractHostPort finds in a URL.
use rtsp_go.Base.{ℕ, ◌≡◌, refl, ◌∙◌, true, false, [], ◌∷◌, ◌++◌, arith, length, ltb, lt→ltb}
use rtsp_go.Base.Text.{Bytes, codes, has_prefix}
use rtsp_go.Base.Text.Laws.{Lacks}
use rtsp_go.Proxy.Health.{before_slash, extract_host_port}

-- What may stand behind an address: nothing, or a path.
abbrev pub IsPath : Bytes → Type 0
IsPath [] = Unit
IsPath (c ∷ s) = c ≡ b'/'

before_slash-append :
    (host path : Bytes) → Lacks b'/' host → IsPath path → before_slash (host ++ path) ≡ host
unfolding before_slash
before_slash-append [] [] h p = refl
before_slash-append [] (c ∷ path) h p = ground arith
before_slash-append (c ∷ host) path (hc, h) p = ground (arith, before_slash-append host path h p)

plain :
    (url : Bytes)
    → has_prefix url (codes "rtsp://") ≡ false
    → extract_host_port url ≡ before_slash url
unfolding extract_host_port
plain url other = ground arith

-- extractHostPort, given an address without a slash that is not empty, and nothing or a path behind
-- it, gives the address, be it with `rtsp://` in front, or alone where the whole text does not begin
-- so.
pub extract_host_port_lem :
    (c : ℕ) (host path : Bytes)
    → Lacks b'/' (c ∷ host)
    → IsPath path
    → (extract_host_port (codes "rtsp://" ++ ((c ∷ host) ++ path)) ≡ c ∷ host)
      × (has_prefix ((c ∷ host) ++ path) (codes "rtsp://") ≡ false
          → extract_host_port ((c ∷ host) ++ path) ≡ c ∷ host)
unfolding extract_host_port has_prefix
extract_host_port_lem c host path h p =
    let address = before_slash-append (c ∷ host) path h p in
    let long : ltb 7 (length (codes "rtsp://" ++ ((c ∷ host) ++ path))) ≡ true =
      lt→ltb 7 (length (codes "rtsp://" ++ ((c ∷ host) ++ path))) (omega arith) in
    (rw long address, λ other. plain ((c ∷ host) ++ path) other ∙ address)
