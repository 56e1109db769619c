-- ===== src/Protocol/Session.antt =====
-- rtspProtocon/protocol.go: the sessions, the status texts and the URL test.
use rtsp_go.Base.{◌≡◌, refl, ℕ, Bool, [], ◌∷◌, Option, none, some}
use rtsp_go.Base.Text.{Bytes, codes, has_prefix}
use rtsp_go.Base.Text.Decimal.{itoa}
use rtsp_go.Base.Dict.{Dict, lookup, number_eq}

pub data SessionState : Type 0 where
  init ready playing recording : SessionState

pub record Session : Type 0 where
  pub id : Bytes
  pub state : SessionState
  pub url : Bytes
  pub headers : Dict Bytes Bytes
  pub created : ℕ
  pub last_seen : ℕ

-- NewSession at the time `now`.
pub new_session : Bytes → ℕ → Session
new_session id now = record {
  id = id;
  state = init;
  url = [];
  headers = [];
  created = now;
  last_seen = now;
}

-- UpdateState at the time `now`.
unfoldable pub update_state : SessionState → ℕ → Session → Session
update_state state now s = record s { state = state; last_seen = now }

-- GenerateSessionID at the time `now`, in nanoseconds.
pub generate_session_id : ℕ → Bytes
generate_session_id now = itoa now

-- ValidateRTSPURL
unfoldable pub validate_rtsp_url : Bytes → Bool
validate_rtsp_url url = has_prefix url (codes "rtsp://")

abbrev status_texts : Dict ℕ Bytes
status_texts =
    (200, codes "OK")
    ∷ (400, codes "Bad Request")
    ∷ (401, codes "Unauthorized")
    ∷ (404, codes "Not Found")
    ∷ (405, codes "Method Not Allowed")
    ∷ (406, codes "Not Acceptable")
    ∷ (415, codes "Unsupported Media Type")
    ∷ (500, codes "Internal Server Error")
    ∷ (501, codes "Not Implemented")
    ∷ (502, codes "Bad Gateway")
    ∷ (503, codes "Service Unavailable")
    ∷ []

text_or_unknown : Option Bytes → Bytes
text_or_unknown none = codes "Unknown"
text_or_unknown (some text) = text

-- GetStatusText
pub get_status_text : ℕ → Bytes
unfolding text_or_unknown
get_status_text code = text_or_unknown (lookup code status_texts)

pub get_status_text-ok : get_status_text 200 ≡ codes "OK"
unfolding get_status_text lookup
get_status_text-ok = refl
