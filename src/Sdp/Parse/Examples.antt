-- ===== src/Sdp/Parse/Examples.antt =====
-- rtspProtocon/sdp.go on concrete descriptions: tests, and instances of the theorems.
use rtsp_go.Base.{◌≡◌, refl, ◌++◌, false, returns, panics, if◌then◌else◌, arith}
use rtsp_go.Base.Int.{pos}
use rtsp_go.Base.Text.{Bytes, codes, split, has_prefix}
use rtsp_go.Sdp.{crlf, print_sdp, create_video_sdp}
use rtsp_go.Sdp.Parse.{
  parse_sdp, split_crlf, read_line, read_lines, set_attribute, set_rtp_map, read_rtp_map,
  add_rtp_map, add_media,
}
use rtsp_go.Sdp.Parse.Video.{parse_sdp-print_sdp}
use rtsp_go.Sdp.Parse.Panics.{ending, has_bad_map, parse_sdp-ending}

abbrev address : Bytes
address = codes "10.0.0.7"

parse_sdp-print_sdp_example :
    parse_sdp (print_sdp (create_video_sdp address (pos 5004) (pos 1700000000)))
    ≡ returns (create_video_sdp address (pos 5004) (pos 1700000000))
parse_sdp-print_sdp_example =
    parse_sdp-print_sdp address 5004 1700000000 (omega arith) (omega arith) (omega arith)
      (omega arith)

-- The rtpmap has no clock rate.
abbrev broken : Bytes
broken = codes "m=video 0 RTP/AVP 96" ++ crlf ++ codes "a=rtpmap:96 H264"

broken_panics : parse_sdp broken ≡ panics
unfolding parse_sdp read_line read_lines set_attribute set_rtp_map read_rtp_map add_rtp_map
    add_media split has_prefix
broken_panics = refl

parse_sdp-ending_example :
    ending (parse_sdp broken)
    ≡ (if has_bad_map false (split_crlf broken) then panics else returns tt)
parse_sdp-ending_example = parse_sdp-ending broken
