-- ===== src/Sdp.antt =====
-- rtspProtocon/sdp.go: session descriptions, their printer, ParseSDP and CreateVideoSDP.
-- Attributes and RTP maps are printed in the order of the association list, Go's order being any.
-- The media that ParseSDP reads into is the last one of the list.
pub mod Parse
use rtsp_go.Base.{
  ℕ, zero, suc, Bool, true, false, List, [], ◌∷◌, ◌++◌, Option, none, some, Outcome, returns,
  panics, ◌>>=◌, if◌then◌else◌, ◌==◌, ◌&&◌, leb, length,
}
use rtsp_go.Base.Int.{ℤ, pos}
use rtsp_go.Base.Text.{Bytes, codes, is_empty, has_prefix, split, join, cons_first}
use rtsp_go.Base.Text.Decimal.{print_int, atoi, parse_int_value}
use rtsp_go.Base.Dict.{Dict, insert, bytes_eq, int_eq}

pub record Origin : Type 0 where
  pub username : Bytes
  pub sess_id : ℤ
  pub sess_version : ℤ
  pub origin_net_type : Bytes
  pub origin_addr_type : Bytes
  pub unicast_address : Bytes

pub record Connection : Type 0 where
  pub net_type : Bytes
  pub addr_type : Bytes
  pub connection_addr : Bytes

pub record Bandwidth : Type 0 where
  pub bandwidth_type : Bytes
  pub value : ℤ

pub record Timing : Type 0 where
  pub start_time : ℤ
  pub stop_time : ℤ

pub record RtpMap : Type 0 where
  pub map_payload_type : ℤ
  pub encoding : Bytes
  pub clock_rate : ℤ
  pub parameters : Bytes

pub record MediaDescription : Type 0 where
  pub media_type : Bytes
  pub port : ℤ
  pub protocol : Bytes
  pub format : Bytes
  pub title : Bytes
  pub media_connection : Option Connection
  pub media_bandwidth : List Bandwidth
  pub media_attributes : Dict Bytes Bytes
  pub rtp_map : Dict ℤ RtpMap

pub record SessionDescription : Type 0 where
  pub version : ℤ
  pub origin : Option Origin
  pub session_name : Bytes
  pub session_info : Bytes
  pub uri : Bytes
  pub email : Bytes
  pub phone : Bytes
  pub connection : Option Connection
  pub bandwidth : List Bandwidth
  pub timing : Option Timing
  pub attributes : Dict Bytes Bytes
  pub media : List MediaDescription

abbrev pub new_session_description : SessionDescription
new_session_description = record {
  version = pos 0;
  origin = none;
  session_name = [];
  session_info = [];
  uri = [];
  email = [];
  phone = [];
  connection = none;
  bandwidth = [];
  timing = none;
  attributes = [];
  media = [];
}

abbrev pub new_media_description : Bytes → ℤ → Bytes → Bytes → MediaDescription
new_media_description media_type port protocol format = record {
  media_type = media_type;
  port = port;
  protocol = protocol;
  format = format;
  title = [];
  media_connection = none;
  media_bandwidth = [];
  media_attributes = [];
  rtp_map = [];
}

abbrev pub crlf : Bytes
crlf = 13 ∷ 10 ∷ []

-- Words with one space between.
abbrev words : List Bytes → Bytes
words ws = join ws b' '

print_text : ℕ → Bytes → Bytes
print_text key [] = []
print_text key (c ∷ s) = key ∷ b'=' ∷ c ∷ s ++ crlf

print_origin : Option Origin → Bytes
print_origin none = []
print_origin (some o) =
    codes "o="
    ++ words (
        o.username
        ∷ print_int o.sess_id
        ∷ print_int o.sess_version
        ∷ o.origin_net_type
        ∷ o.origin_addr_type
        ∷ o.unicast_address
        ∷ [])
    ++ crlf

print_connection : Option Connection → Bytes
print_connection none = []
print_connection (some c) =
    codes "c=" ++ words (c.net_type ∷ c.addr_type ∷ c.connection_addr ∷ []) ++ crlf

print_bandwidth : List Bandwidth → Bytes
print_bandwidth [] = []
print_bandwidth (b ∷ bs) =
    codes "b=" ++ b.bandwidth_type ++ codes ":" ++ print_int b.value ++ crlf ++ print_bandwidth bs

print_timing : Option Timing → Bytes
print_timing none = []
print_timing (some t) =
    codes "t=" ++ words (print_int t.start_time ∷ print_int t.stop_time ∷ []) ++ crlf

print_attribute : Bytes → Bytes → Bytes
print_attribute key [] = codes "a=" ++ key ++ crlf
print_attribute key (c ∷ s) = codes "a=" ++ key ++ codes ":" ++ (c ∷ s) ++ crlf

print_attributes : Dict Bytes Bytes → Bytes
print_attributes [] = []
print_attributes ((key, value) ∷ as_) = print_attribute key value ++ print_attributes as_

print_rtp_maps : Dict ℤ RtpMap → Bytes
print_rtp_maps [] = []
print_rtp_maps ((k, r) ∷ rs) =
    codes "a=rtpmap:"
    ++ print_int r.map_payload_type
    ++ codes " "
    ++ r.encoding
    ++ codes "/"
    ++ print_int r.clock_rate
    ++ r.parameters
    ++ crlf
    ++ print_rtp_maps rs

-- MediaDescription.String
pub print_media : MediaDescription → Bytes
unfolding print_text print_connection print_bandwidth print_attribute print_attributes
    print_rtp_maps
print_media m =
    codes "m="
    ++ words (m.media_type ∷ print_int m.port ∷ m.protocol ∷ m.format ∷ [])
    ++ crlf
    ++ print_text b'i' m.title
    ++ print_connection m.media_connection
    ++ print_bandwidth m.media_bandwidth
    ++ print_attributes m.media_attributes
    ++ print_rtp_maps m.rtp_map

print_all_media : List MediaDescription → Bytes
print_all_media [] = []
print_all_media (m ∷ ms) = print_media m ++ print_all_media ms

-- SessionDescription.String
pub print_sdp : SessionDescription → Bytes
unfolding print_media print_origin print_timing print_all_media
print_sdp s =
    codes "v="
    ++ print_int s.version
    ++ crlf
    ++ print_origin s.origin
    ++ codes "s="
    ++ s.session_name
    ++ crlf
    ++ print_text b'i' s.session_info
    ++ print_text b'u' s.uri
    ++ print_text b'e' s.email
    ++ print_text b'p' s.phone
    ++ print_connection s.connection
    ++ print_bandwidth s.bandwidth
    ++ print_timing s.timing
    ++ print_attributes s.attributes
    ++ print_all_media s.media

-- CreateVideoSDP at the time `now`, in seconds.
pub create_video_sdp : Bytes → ℤ → ℤ → SessionDescription
create_video_sdp server_ip port now =
    let c : Connection = record {
      net_type = codes "IN";
      addr_type = codes "IP4";
      connection_addr = server_ip;
    } in
    record new_session_description {
      origin = some (record {
        username = codes "-";
        sess_id = now;
        sess_version = now;
        origin_net_type = codes "IN";
        origin_addr_type = codes "IP4";
        unicast_address = server_ip;
      });
      session_name = codes "RTSP Stream";
      connection = some c;
      timing = some (record { start_time = pos 0; stop_time = pos 0 });
      media =
          record (new_media_description (codes "video") port (codes "RTP/AVP") (codes "96")) {
            media_connection = some c;
            media_attributes = (codes "control", codes "track1") ∷ [];
            rtp_map =
                (
                  pos 96,
                  record {
                    map_payload_type = pos 96;
                    encoding = codes "H264";
                    clock_rate = pos 90000;
                    parameters = [];
                  },
                )
                ∷ [];
          }
          ∷ [];
    }
