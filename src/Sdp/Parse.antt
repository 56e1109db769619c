-- ===== src/Sdp/Parse.antt =====
-- rtspProtocon/sdp.go: ParseSDP, one function for each kind of line.
pub mod Media
pub mod Panics
pub mod Video
pub mod Examples
use rtsp_go.Base.{
  ℕ, zero, suc, Bool, true, false, List, [], ◌∷◌, ◌++◌, Option, none, some, Outcome, returns,
  panics, ◌>>=◌, if◌then◌else◌, ◌==◌, ◌&&◌,
}
use rtsp_go.Base.Int.{ℤ, pos}
use rtsp_go.Base.Text.{Bytes, codes, has_prefix, split, join, cons_first}
use rtsp_go.Base.Text.Decimal.{atoi, parse_int_value}
use rtsp_go.Base.Dict.{Dict, insert, bytes_eq, int_eq}
use rtsp_go.Sdp.{
  Origin, Connection, Bandwidth, Timing, RtpMap, MediaDescription, SessionDescription,
  new_session_description, new_media_description,
}

-- strings.Split at "\r\n".
pub split_crlf : Bytes → List Bytes
split_crlf [] = [] ∷ []
split_crlf (c ∷ []) = (c ∷ []) ∷ []
split_crlf (c ∷ d ∷ s) = elim (c == 13 && d == 10) [
  | true ↦ [] ∷ split_crlf s
  | false ↦ cons_first c (split_crlf (d ∷ s))
]

-- On the last media of the list; `none` where there is none.
pub update_last :
    (MediaDescription → MediaDescription) → List MediaDescription → Option (List MediaDescription)
update_last f [] = none
update_last f (m ∷ []) = some (f m ∷ [])
update_last f (m ∷ n ∷ ms) = elim (update_last f (n ∷ ms)) [
  | none ↦ none
  | some ms' ↦ some (m ∷ ms')
]

-- A line about the current media, or about the session, where there is no media yet.
pub on_media :
    (MediaDescription → MediaDescription)
    → (SessionDescription → SessionDescription)
    → SessionDescription
    → SessionDescription
on_media f g s = elim (update_last f s.media) [ none ↦ g s | some ms ↦ record s { media = ms } ]

pub set_version : Option ℤ → SessionDescription → SessionDescription
set_version none s = s
set_version (some v) s = record s { version = v }

pub set_origin : List Bytes → SessionDescription → SessionDescription
set_origin (a ∷ b ∷ c ∷ d ∷ e ∷ f ∷ rest) s = record s {
  origin = some (record {
    username = a;
    sess_id = parse_int_value b;
    sess_version = parse_int_value c;
    origin_net_type = d;
    origin_addr_type = e;
    unicast_address = f;
  });
}
set_origin _ s = s

pub set_connection : List Bytes → SessionDescription → SessionDescription
set_connection (a ∷ b ∷ c ∷ rest) s =
    let conn : Connection = record { net_type = a; addr_type = b; connection_addr = c } in
    on_media (λ m. record m { media_connection = some conn })
      (λ t. record t { connection = some conn }) s
set_connection _ s = s

add_bandwidth : Bytes → Option ℤ → SessionDescription → SessionDescription
add_bandwidth kind none s = s
add_bandwidth kind (some v) s =
    let bw : Bandwidth = record { bandwidth_type = kind; value = v } in
    on_media (λ m. record m { media_bandwidth = m.media_bandwidth ++ bw ∷ [] })
      (λ t. record t { bandwidth = t.bandwidth ++ bw ∷ [] }) s

pub set_bandwidth : List Bytes → SessionDescription → SessionDescription
unfolding add_bandwidth
set_bandwidth (a ∷ b ∷ []) s = add_bandwidth a (atoi b) s
set_bandwidth _ s = s

pub set_timing : List Bytes → SessionDescription → SessionDescription
set_timing (a ∷ b ∷ rest) s = record s {
  timing = some (record { start_time = parse_int_value a; stop_time = parse_int_value b });
}
set_timing _ s = s

-- "/" and what stands behind the second slash of an encoding.
parameters_of : List Bytes → Bytes
parameters_of [] = []
parameters_of (p ∷ ps) = b'/' ∷ join (p ∷ ps) b'/'

-- encodingParts[1] is read without a test.
pub add_rtp_map : Bytes → List Bytes → SessionDescription → Outcome SessionDescription
unfolding parameters_of
add_rtp_map number (e ∷ r ∷ rest) s =
    let k = parse_int_value number in
    let entry : RtpMap = record {
      map_payload_type = k;
      encoding = e;
      clock_rate = parse_int_value r;
      parameters = parameters_of rest;
    } in
    returns (on_media (λ m. record m { rtp_map = insert k entry m.rtp_map }) (λ t. t) s)
add_rtp_map number _ s = panics

-- The value of an rtpmap attribute, split at spaces.
pub read_rtp_map : List Bytes → SessionDescription → Outcome SessionDescription
unfolding add_rtp_map
read_rtp_map (a ∷ b ∷ rest) s = add_rtp_map a (split b b'/') s
read_rtp_map _ s = returns s

set_rtp_map : List MediaDescription → List Bytes → SessionDescription → Outcome SessionDescription
unfolding read_rtp_map
set_rtp_map (m ∷ ms) (v ∷ rest) s = read_rtp_map (split v b' ') s
set_rtp_map _ _ s = returns s

first_or_empty : List Bytes → Bytes
first_or_empty [] = []
first_or_empty (p ∷ ps) = p

-- The attribute's key, and the parts behind it; the value is the first of these.
pub set_attribute : List Bytes → SessionDescription → Outcome SessionDescription
unfolding set_rtp_map first_or_empty
set_attribute [] s = panics
set_attribute (key ∷ parts) s =
    let val = first_or_empty parts in
    if has_prefix key (codes "rtpmap")
    then set_rtp_map s.media parts s
    else returns (
        on_media (λ m. record m { media_attributes = insert key val m.media_attributes })
          (λ t. record t { attributes = insert key val t.attributes }) s)

pub add_media : List Bytes → SessionDescription → SessionDescription
add_media (a ∷ b ∷ c ∷ d ∷ rest) s = record s {
  media = s.media ++ new_media_description a (parse_int_value b) c d ∷ [];
}
add_media _ s = s

-- A line by its letter.
pub read_value : ℕ → Bytes → SessionDescription → Outcome SessionDescription
unfolding set_version set_origin set_connection set_bandwidth set_timing set_attribute add_media
read_value key value s =
    if key == b'v'
    then returns (set_version (atoi value) s)
    else if key == b'o'
    then returns (set_origin (split value b' ') s)
    else if key == b's'
    then returns (record s { session_name = value })
    else if key == b'i'
    then returns
        (on_media (λ m. record m { title = value }) (λ t. record t { session_info = value }) s)
    else if key == b'u'
    then returns (record s { uri = value })
    else if key == b'e'
    then returns (record s { email = value })
    else if key == b'p'
    then returns (record s { phone = value })
    else if key == b'c'
    then returns (set_connection (split value b' ') s)
    else if key == b'b'
    then returns (set_bandwidth (split value b':') s)
    else if key == b't'
    then returns (set_timing (split value b' ') s)
    else if key == b'a'
    then set_attribute (split value b':') s
    else if key == b'm'
    then returns (add_media (split value b' ') s)
    else returns s

-- A line without `=` in its second place is passed over.
pub read_line : Bytes → SessionDescription → Outcome SessionDescription
unfolding read_value
read_line (key ∷ e ∷ value) s = if e == b'=' then read_value key value s else returns s
read_line _ s = returns s

pub read_lines : List Bytes → SessionDescription → Outcome SessionDescription
unfolding read_line
read_lines [] s = returns s
read_lines (l ∷ ls) s = read_line l s >>= λ s'. read_lines ls s'

-- ParseSDP: it never gives an error.
pub parse_sdp : Bytes → Outcome SessionDescription
unfolding split_crlf read_lines
parse_sdp text = read_lines (split_crlf text) new_session_description
