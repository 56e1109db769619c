-- ===== src/Sdp/Parse/Panics.antt =====
-- rtspProtocon/sdp.go: the texts on which ParseSDP panics.
use rtsp_go.Base.{
  ℕ, ◌≡◌, refl, ap, ◌∙◌, subst, Bool, true, false, not, ◌&&◌, ◌||◌, List, [], ◌∷◌, Outcome, returns,
  blocks, panics, Comes, ◌>>=◌, if◌then◌else◌, ◌==◌, arith, Bool-cases, inl, inr,
}
use rtsp_go.Base.Text.{Bytes, codes, split, has_prefix}
use rtsp_go.Base.Text.Search.{has_byte, has_two, has_two-split_iff, is_cons, is_cons-split}
use rtsp_go.Base.Text.Decimal.{atoi}
use rtsp_go.Base.Dict.{bytes_eq, int_eq}
use rtsp_go.Sdp.{MediaDescription, SessionDescription, new_session_description}
use rtsp_go.Sdp.Parse.Media.{
  some_media, has_four, on_media-some_media, version_keeps, origin_keeps, connection_keeps,
  bandwidth_keeps, timing_keeps, media_adds,
}
use rtsp_go.Sdp.Parse.{
  add_rtp_map, read_rtp_map, set_rtp_map, set_attribute, read_value, read_line, read_lines,
  split_crlf, parse_sdp,
}

-- The attribute is an rtpmap whose second word has no slash.
second_lacks_slash : List Bytes → Bool
second_lacks_slash (a ∷ b ∷ rest) = not (has_byte b'/' b)
second_lacks_slash _ = false

is_bad_attribute : List Bytes → Bool
unfolding second_lacks_slash
is_bad_attribute (key ∷ v ∷ rest) =
    has_prefix key (codes "rtpmap") && second_lacks_slash (split v b' ')
is_bad_attribute _ = false

pub is_bad_line : Bytes → Bool
unfolding is_bad_attribute
is_bad_line (k ∷ e ∷ value) = k == b'a' && e == b'=' && is_bad_attribute (split value b':')
is_bad_line _ = false

-- A media line with its four words.
pub is_media_line : Bytes → Bool
is_media_line (k ∷ e ∷ value) = k == b'm' && e == b'=' && has_four (split value b' ')
is_media_line _ = false

-- A bad line somewhere behind a media line; `after` tells whether a media line came before.
pub has_bad_map : Bool → List Bytes → Bool
has_bad_map after [] = false
has_bad_map after (l ∷ ls) = (after && is_bad_line l) || has_bad_map (after || is_media_line l) ls

-- The outcome, with only whether a media line was read.
abbrev outline : Outcome SessionDescription → Outcome Bool
outline o = o >>= λ s. returns (some_media s.media)

if_not : {A : Type 0} (b : Bool) (x y : A) → (if b then x else y) ≡ (if not b then y else x)
if_not true x y = refl
if_not false x y = refl

parts_outline :
    (number : Bytes) (ps : List Bytes) (s : SessionDescription)
    → outline (add_rtp_map number ps s)
      ≡ (if has_two ps then returns (some_media s.media) else panics)
unfolding add_rtp_map
parts_outline number [] s = refl
parts_outline number (p ∷ []) s = refl
parts_outline number (p ∷ q ∷ ps) s = ap returns (on_media-some_media _ _ s refl)

words_outline :
    (ws : List Bytes) (s : SessionDescription)
    → outline (read_rtp_map ws s)
      ≡ (if second_lacks_slash ws then panics else returns (some_media s.media))
unfolding read_rtp_map second_lacks_slash
words_outline [] s = refl
words_outline (a ∷ []) s = refl
words_outline (a ∷ b ∷ ws) s =
    parts_outline a (split b b'/') s
    ∙ rw (has_two-split_iff b b'/') (if_not (has_byte b'/' b) (returns (some_media s.media)) panics)

map_outline :
    (ms : List MediaDescription) (v : Bytes) (rest : List Bytes) (s : SessionDescription)
    → outline (set_rtp_map ms (v ∷ rest) s) ≡ (
        if some_media ms && second_lacks_slash (split v b' ')
        then panics
        else returns (some_media s.media))
unfolding set_rtp_map
map_outline [] v rest s = refl
map_outline (m ∷ ms) v rest s = words_outline (split v b' ') s

no_value : (ms : List MediaDescription) (s : SessionDescription) → set_rtp_map ms [] s ≡ returns s
unfolding set_rtp_map
no_value [] s = refl
no_value (m ∷ ms) s = refl

never_bad : {A : Type 0} (b : Bool) (x y : A) → y ≡ (if b && false then x else y)
never_bad true x y = refl
never_bad false x y = refl

attribute_outline :
    (key : Bytes) (parts : List Bytes) (s : SessionDescription)
    → outline (set_attribute (key ∷ parts) s) ≡ (
        if some_media s.media && is_bad_attribute (key ∷ parts)
        then panics
        else returns (some_media s.media))
unfolding set_attribute is_bad_attribute
attribute_outline key [] s = elim (Bool-cases (has_prefix key (codes "rtpmap"))) [
  | inl is_map ↦ rw is_map (ap outline (no_value s.media s) ∙ never_bad (some_media s.media) _ _)
  | inr other ↦
      rw other (ap returns (on_media-some_media _ _ s refl) ∙ never_bad (some_media s.media) _ _)
]
attribute_outline key (v ∷ rest) s = elim (Bool-cases (has_prefix key (codes "rtpmap"))) [
  | inl is_map ↦ rw is_map (map_outline s.media v rest s)
  | inr other ↦
      rw other (ap returns (on_media-some_media _ _ s refl) ∙ never_bad (some_media s.media) _ _)
]

attribute_of :
    (ps : List Bytes) (s : SessionDescription)
    → is_cons ps ≡ true
    → outline (set_attribute ps s)
      ≡ (if some_media s.media && is_bad_attribute ps then panics else returns (some_media s.media))
attribute_of [] s h = cc
attribute_of (key ∷ parts) s h = attribute_outline key parts s

value_outline :
    (k : ℕ) (value : Bytes) (s : SessionDescription)
    → outline (read_value k value s) ≡ (
        if some_media s.media && (k == b'a' && is_bad_attribute (split value b':'))
        then panics
        else returns (some_media s.media || (k == b'm' && has_four (split value b' '))))
unfolding read_value
value_outline k value s =
    let attribute = attribute_of (split value b':') s (is_cons-split value b':') in
    ground (
      arith,
      attribute,
      ap some_media (version_keeps (atoi value) s),
      ap some_media (origin_keeps (split value b' ') s),
      on_media-some_media (λ m. record m { title = value }) (λ t. record t { session_info = value })
          s refl,
      connection_keeps (split value b' ') s,
      bandwidth_keeps (split value b':') s,
      ap some_media (timing_keeps (split value b' ') s),
      media_adds (split value b' ') s,
    )

line_outline :
    (l : Bytes) (s : SessionDescription)
    → outline (read_line l s) ≡ (
        if some_media s.media && is_bad_line l
        then panics
        else returns (some_media s.media || is_media_line l))
unfolding read_line is_bad_line is_media_line
line_outline [] s = ground arith
line_outline (k ∷ []) s = ground arith
line_outline (k ∷ e ∷ value) s = ground (arith, value_outline k value s)

-- The outcome, without its value.
abbrev pub ending : Outcome SessionDescription → Outcome (Unit {0})
ending o = o >>= λ s. returns tt

rest_of :
    (bad next : Bool) (ls : List Bytes) (o : Outcome SessionDescription)
    → outline o ≡ (if bad then panics else returns next)
    → ((s : SessionDescription)
        → some_media s.media ≡ next
        → ending (read_lines ls s) ≡ (if has_bad_map next ls then panics else returns tt))
    → ending (o >>= λ s. read_lines ls s)
      ≡ (if bad || has_bad_map next ls then panics else returns tt)
rest_of true next ls (returns s) h rest = ground arith
rest_of true next ls blocks h rest = ground arith
rest_of true next ls panics h rest = refl
rest_of false next ls (returns s) h rest = rest s (ground arith)
rest_of false next ls blocks h rest = ground arith
rest_of false next ls panics h rest = ground arith

lines_ending :
    (ls : List Bytes) (s : SessionDescription) (after : Bool)
    → some_media s.media ≡ after
    → ending (read_lines ls s) ≡ (if has_bad_map after ls then panics else returns tt)
unfolding read_lines has_bad_map
lines_ending [] s after h = refl
lines_ending (l ∷ ls) s after h =
    rest_of (after && is_bad_line l) (after || is_media_line l) ls (read_line l s)
      (subst
        (λ b.
          outline (read_line l s)
          ≡ (if b && is_bad_line l then panics else returns (b || is_media_line l)))
        h (line_outline l s))
      (λ s' h'. lines_ending ls s' (after || is_media_line l) h')

-- ParseSDP panics exactly on the texts in which, behind a media line with four words, an rtpmap
-- attribute has a second word without a slash; on every other text it returns.
pub parse_sdp-ending :
    (text : Bytes)
    → ending (parse_sdp text) ≡ (if has_bad_map false (split_crlf text) then panics else returns tt)
unfolding parse_sdp
parse_sdp-ending text = lines_ending (split_crlf text) new_session_description false refl

ending-Comes :
    (o : Outcome SessionDescription) (b : Bool)
    → ending o ≡ (if b then panics else returns tt)
    → Comes (λ (s : SessionDescription). Unit {0}) o
ending-Comes (returns s) b h = tt
ending-Comes panics b h = tt
ending-Comes blocks b h = elim (Bool-cases b) [ inl e ↦ ground arith | inr e ↦ ground arith ]

pub parse_sdp-Comes : (text : Bytes) → Comes (λ (s : SessionDescription). Unit {0}) (parse_sdp text)
parse_sdp-Comes text =
    ending-Comes (parse_sdp text) (has_bad_map false (split_crlf text)) (parse_sdp-ending text)
