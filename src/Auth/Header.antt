-- ===== src/Auth/Header.antt =====
-- proxy/auth_manager.go: the Authorization header and the challenge. The decoder of base64 is a
-- parameter.
use rtsp_go.Base.{
  ◌≡◌, refl, ap, ◌∙◌, [], ◌∷◌, ◌++◌, Option, none, some, Result, ok, err, if◌then◌else◌, drop, ◌==◌,
  arith,
}
use rtsp_go.Base.Text.{Bytes, codes, is_empty, has_prefix}
use rtsp_go.Base.Text.Laws.{Lacks}

pub data HeaderError : Type 0 where
  no_header bad_encoding bad_format digest_not_implemented unsupported : HeaderError

-- SplitN(credentials, ":", 2): the texts before and behind the first colon.
pub split_credentials : Bytes → Result HeaderError (Bytes × Bytes)
split_credentials [] = err bad_format
split_credentials (c ∷ s) =
    let rest = split_credentials s in
    if c == b':' then ok ([], s) else elim rest [ err e ↦ err e | ok r ↦ ok (c ∷ r.0, r.1) ]

pub credentials_of : Option Bytes → Result HeaderError (Bytes × Bytes)
unfolding split_credentials
credentials_of none = err bad_encoding
credentials_of (some text) = split_credentials text

-- ParseAuthHeader
pub parse_auth_header : (Bytes → Option Bytes) → Bytes → Result HeaderError (Bytes × Bytes)
unfolding credentials_of
parse_auth_header decode header =
    if is_empty header
    then err no_header
    else if has_prefix header (codes "Basic ")
    then credentials_of (decode (drop 6 header))
    else if has_prefix header (codes "Digest ")
    then err digest_not_implemented
    else err unsupported

-- GenerateAuthChallenge
pub generate_auth_challenge : Bytes → Bytes
generate_auth_challenge realm = codes "Basic realm=" ++ b'"' ∷ realm ++ b'"' ∷ []

split_credentials-append :
    (username password : Bytes)
    → Lacks b':' username
    → split_credentials (username ++ b':' ∷ password) ≡ ok (username, password)
unfolding split_credentials
split_credentials-append [] password h = refl
split_credentials-append (c ∷ username) password (hc, h) =
    ground (arith, split_credentials-append username password h)

-- If the decoder gives back what was encoded, a Basic header gives back its username and its
-- password, the username being without a colon.
pub parse_auth_header-encode :
    (encode : Bytes → Bytes) (decode : Bytes → Option Bytes) (username password : Bytes)
    → ((s : Bytes) → decode (encode s) ≡ some s)
    → Lacks b':' username
    → parse_auth_header decode (codes "Basic " ++ encode (username ++ b':' ∷ password))
      ≡ ok (username, password)
unfolding parse_auth_header credentials_of is_empty has_prefix
parse_auth_header-encode encode decode username password back h =
    ap credentials_of (back (username ++ b':' ∷ password))
    ∙ split_credentials-append username password h
