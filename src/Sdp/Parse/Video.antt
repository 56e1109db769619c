-- ===== src/Sdp/Parse/Video.antt =====
-- rtspProtocon/sdp.go: ParseSDP reads what CreateVideoSDP announces.
use rtsp_go.Base.{
  ℕ, ◌<◌, ◌^◌, ◌≡◌, ◌≢◌, refl, sym, ap, ◌∙◌, List, [], ◌∷◌, ◌++◌, append_assoc, returns, arith, All,
  ◌==◌, ◌&&◌, false, false,
}
use rtsp_go.Base.Int.{pos}
use rtsp_go.Base.Text.{Bytes, codes, split, join, has_prefix, cons_first}
use rtsp_go.Base.Text.Laws.{Lacks, split-join}
use rtsp_go.Base.Text.Decimal.{itoa, print_int, atoi, parse_int_value, IsDigit, itoa-IsDigit}
use rtsp_go.Base.Text.Decimal.Value.{parse_int_value-itoa}
use rtsp_go.Base.Dict.{insert, bytes_eq, int_eq}
use rtsp_go.Sdp.{new_session_description, crlf, print_sdp, create_video_sdp}
use rtsp_go.Sdp.Parse.{
  set_version, set_timing, set_attribute, on_media, update_last, set_rtp_map, read_rtp_map,
  add_rtp_map, parameters_of, first_or_empty, split_crlf, read_lines, parse_sdp,
}

-- Each line with its end.
unlines : List Bytes → Bytes
unlines [] = []
unlines (l ∷ ls) = l ++ crlf ++ unlines ls

no_end : (c d : ℕ) → c ≢ 13 → (c == 13 && d == 10) ≡ false
no_end c d h = ground arith

split_crlf-append : (l s : Bytes) → Lacks 13 l → split_crlf (l ++ (13 ∷ 10 ∷ s)) ≡ l ∷ split_crlf s
unfolding split_crlf
split_crlf-append [] s h = refl
split_crlf-append (c ∷ []) s (hc, h) = rw (no_end c 13 hc, split_crlf) refl
split_crlf-append (c ∷ d ∷ l) s (hc, h) =
    rw (no_end c d hc, split_crlf) (ap (cons_first c) (split_crlf-append (d ∷ l) s h))

split_crlf-unlines : (ls : List Bytes) → All (Lacks 13) ls → split_crlf (unlines ls) ≡ ls ++ [] ∷ []
unfolding split_crlf unlines
split_crlf-unlines [] h = refl
split_crlf-unlines (l ∷ ls) (hl, h) =
    ap split_crlf (append_assoc l crlf (unlines ls))
    ∙ split_crlf-append l (unlines ls) hl
    ∙ ap (◌∷◌ l) (split_crlf-unlines ls h)

digits-Lacks : (b : ℕ) (s : Bytes) → b < 48 → All IsDigit s → Lacks b s
digits-Lacks b [] small h = tt
digits-Lacks b (c ∷ s) small (hc, h) = ((λ e. omega arith), digits-Lacks b s small h)

Lacks-append : (b : ℕ) (s t : Bytes) → Lacks b s → Lacks b t → Lacks b (s ++ t)
Lacks-append b [] t hs ht = ht
Lacks-append b (c ∷ s) t (hc, hs) ht = (hc, Lacks-append b s t hs ht)

Lacks-join : (b sep : ℕ) (ws : List Bytes) → b ≢ sep → All (Lacks b) ws → Lacks b (join ws sep)
unfolding join
Lacks-join b sep [] h hs = tt
Lacks-join b sep (w ∷ []) h (hw, _) = hw
Lacks-join b sep (w ∷ v ∷ ws) h (hw, hs) =
    Lacks-append b w _ hw ((λ e. h (sym e)), Lacks-join b sep (v ∷ ws) h hs)

zero_value : parse_int_value (codes "0") ≡ pos 0
unfolding parse_int_value
zero_value = refl

type_value : parse_int_value (codes "96") ≡ pos 96
unfolding parse_int_value
type_value = refl

rate_value : parse_int_value (codes "90000") ≡ pos 90000
unfolding parse_int_value
rate_value = refl

module _ (ip : Bytes) (port now : ℕ) where
  origin_words : List Bytes
  origin_words = codes "-" ∷ itoa now ∷ itoa now ∷ codes "IN" ∷ codes "IP4" ∷ ip ∷ []

  address_words : List Bytes
  address_words = codes "IN" ∷ codes "IP4" ∷ ip ∷ []

  media_words : List Bytes
  media_words = codes "video" ∷ itoa port ∷ codes "RTP/AVP" ∷ codes "96" ∷ []

  video_lines : List Bytes
  unfolding origin_words address_words media_words
  video_lines =
      codes "v=0"
      ∷ (codes "o=" ++ join origin_words b' ')
      ∷ codes "s=RTSP Stream"
      ∷ (codes "c=" ++ join address_words b' ')
      ∷ codes "t=0 0"
      ∷ (codes "m=" ++ join media_words b' ')
      ∷ (codes "c=" ++ join address_words b' ')
      ∷ codes "a=control:track1"
      ∷ codes "a=rtpmap:96 H264/90000"
      ∷ []

  zero_text : itoa 0 ≡ codes "0"
  unfolding itoa
  zero_text = refl

  type_text : itoa 96 ≡ codes "96"
  unfolding itoa
  type_text = refl

  rate_text : itoa 90000 ≡ codes "90000"
  unfolding itoa
  rate_text = refl

  print_video : print_sdp (create_video_sdp ip (pos port) (pos now)) ≡ unlines video_lines
  unfolding print_sdp create_video_sdp unlines video_lines print_int join
  print_video = rw (zero_text, type_text, rate_text) (simp append_assoc)

  module _ (plain : Lacks b' ' ip) (one_line : Lacks 13 ip) (small_port : port < 2 ^ 63)
      (small_now : now < 2 ^ 63) where
    spaceless_digits : (n : ℕ) → Lacks b' ' (itoa n)
    spaceless_digits n = digits-Lacks b' ' (itoa n) (omega arith) (itoa-IsDigit n)

    digits_line : (n : ℕ) → Lacks 13 (itoa n)
    digits_line n = digits-Lacks 13 (itoa n) (omega arith) (itoa-IsDigit n)

    split_origin : split (join origin_words b' ') b' ' ≡ origin_words
    unfolding origin_words
    split_origin = split-join (codes "-") _ b' ' (
      omega arith,
      (spaceless_digits now, (spaceless_digits now, (omega arith, (omega arith, (plain, tt))))),
    )

    split_address : split (join address_words b' ') b' ' ≡ address_words
    unfolding address_words
    split_address = split-join (codes "IN") _ b' ' (omega arith, (omega arith, (plain, tt)))

    split_media : split (join media_words b' ') b' ' ≡ media_words
    unfolding media_words
    split_media =
        split-join (codes "video") _ b' '
          (omega arith, (spaceless_digits port, (omega arith, (omega arith, tt))))

    video_lines-Lacks : All (Lacks 13) video_lines
    unfolding video_lines origin_words address_words media_words
    video_lines-Lacks =
        let address =
          Lacks-join 13 b' ' address_words (omega arith)
            (omega arith, (omega arith, (one_line, tt))) in
        (
          omega arith,
          (
            (
              omega arith,
              (
                omega arith,
                Lacks-join 13 b' ' origin_words (omega arith) (
                  omega arith,
                  (
                    digits_line now,
                    (digits_line now, (omega arith, (omega arith, (one_line, tt)))),
                  ),
                ),
              ),
            ),
            (
              omega arith,
              (
                (omega arith, (omega arith, address)),
                (
                  omega arith,
                  (
                    (
                      omega arith,
                      (
                        omega arith,
                        Lacks-join 13 b' ' media_words (omega arith)
                            (omega arith, (digits_line port, (omega arith, (omega arith, tt)))),
                      ),
                    ),
                    ((omega arith, (omega arith, address)), (omega arith, (omega arith, tt))),
                  ),
                ),
              ),
            ),
          ),
        )

    read_video :
        read_lines (video_lines ++ [] ∷ []) new_session_description
        ≡ returns (create_video_sdp ip (pos port) (pos now))
    unfolding video_lines read_lines split has_prefix atoi create_video_sdp set_version set_timing
        set_attribute on_media update_last set_rtp_map read_rtp_map add_rtp_map parameters_of
        first_or_empty insert
    read_video =
        rw
          (
            split_origin,
            split_address,
            split_media,
            parse_int_value-itoa now small_now,
            parse_int_value-itoa port small_port,
            zero_value,
            type_value,
            rate_value,
          )
          refl

    -- ParseSDP reads back the description that CreateVideoSDP makes, if the server's address is one
    -- line without spaces, and the port and the time are natural numbers below 2^63.
    pub parse_sdp-print_sdp :
        parse_sdp (print_sdp (create_video_sdp ip (pos port) (pos now)))
        ≡ returns (create_video_sdp ip (pos port) (pos now))
    unfolding parse_sdp
    parse_sdp-print_sdp =
        ap (λ t. read_lines (split_crlf t) new_session_description) print_video
        ∙ ap (λ ls. read_lines ls new_session_description)
            (split_crlf-unlines video_lines video_lines-Lacks)
        ∙ read_video
