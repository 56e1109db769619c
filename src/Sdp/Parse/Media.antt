-- ===== src/Sdp/Parse/Media.antt =====
-- rtspProtocon/sdp.go: which lines of ParseSDP add a media, and which leave the media there are.
use rtsp_go.Base.{
  ◌≡◌, refl, sym, ap, ◌∙◌, subst, Bool, true, false, ◌||◌, List, [], ◌∷◌, ◌++◌, Option, none, some,
  arith, Option-cases, inl, inr,
}
use rtsp_go.Base.Text.{Bytes}
use rtsp_go.Base.Int.{ℤ}
use rtsp_go.Base.Text.Decimal.{atoi}
use rtsp_go.Base.Dict.{bytes_eq, int_eq}
use rtsp_go.Sdp.{MediaDescription, SessionDescription}
use rtsp_go.Sdp.Parse.{
  update_last, on_media, set_version, set_origin, set_connection, add_bandwidth, set_bandwidth,
  set_timing, add_media,
}

abbrev pub some_media : List MediaDescription → Bool
some_media [] = false
some_media (m ∷ ms) = true

pub has_four : List Bytes → Bool
has_four (a ∷ b ∷ c ∷ d ∷ rest) = true
has_four _ = false

update_last-nonempty :
    (f : MediaDescription → MediaDescription) (ms : List MediaDescription)
    → elim (update_last f ms) [ none ↦ true | some ms' ↦ some_media ms' ] ≡ true
unfolding update_last
update_last-nonempty f [] = refl
update_last-nonempty f (m ∷ []) = refl
update_last-nonempty f (m ∷ n ∷ ms) = elim (Option-cases (update_last f (n ∷ ms))) [
  | inl e ↦ rw (e, update_last) refl
  | inr h ↦ rw (h.1, update_last) refl
]

update_last_nil :
    (f : MediaDescription → MediaDescription) (ms : List MediaDescription)
    → some_media ms ≡ false
    → update_last f ms ≡ none
unfolding update_last
update_last_nil f [] h = refl
update_last_nil f (m ∷ ms) h = cc

pub on_media-some_media :
    (f : MediaDescription → MediaDescription) (g : SessionDescription → SessionDescription)
    (s : SessionDescription)
    → (g s).media ≡ s.media
    → some_media (on_media f g s).media ≡ some_media s.media
unfolding on_media
on_media-some_media f g s keeps = elim (Option-cases (update_last f s.media)) [
  | inl e ↦ subst outcome (sym e) (ap some_media keeps)
  | inr h ↦
      let (ms, e) = h in
      let full : some_media ms ≡ true =
        (let nonempty = update_last-nonempty f s.media in ground arith) in
      subst outcome (sym e) (full ∙ sym (nonempty_of ms e))
]
  where
    outcome : Option (List MediaDescription) → Type 0
    outcome o =
        some_media
          (elim o as (λ x. SessionDescription) [
            | none ↦ g s
            | some ms ↦ record s { media = ms }
          ]).media
        ≡ some_media s.media

    nonempty_of :
        (ms : List MediaDescription) → update_last f s.media ≡ some ms → some_media s.media ≡ true
    nonempty_of ms e = ground (arith, update_last_nil f s.media, e)

pub version_keeps : (v : Option ℤ) (s : SessionDescription) → (set_version v s).media ≡ s.media
unfolding set_version
version_keeps none s = refl
version_keeps (some v) s = refl

pub origin_keeps : (ws : List Bytes) (s : SessionDescription) → (set_origin ws s).media ≡ s.media
unfolding set_origin
origin_keeps [] s = refl
origin_keeps (a ∷ []) s = refl
origin_keeps (a ∷ b ∷ []) s = refl
origin_keeps (a ∷ b ∷ c ∷ []) s = refl
origin_keeps (a ∷ b ∷ c ∷ d ∷ []) s = refl
origin_keeps (a ∷ b ∷ c ∷ d ∷ e ∷ []) s = refl
origin_keeps (a ∷ b ∷ c ∷ d ∷ e ∷ f ∷ ws) s = refl

pub connection_keeps :
    (ws : List Bytes) (s : SessionDescription)
    → some_media (set_connection ws s).media ≡ some_media s.media
unfolding set_connection
connection_keeps [] s = refl
connection_keeps (a ∷ []) s = refl
connection_keeps (a ∷ b ∷ []) s = refl
connection_keeps (a ∷ b ∷ c ∷ ws) s = on_media-some_media _ _ s refl

pub bandwidth_keeps :
    (ws : List Bytes) (s : SessionDescription)
    → some_media (set_bandwidth ws s).media ≡ some_media s.media
unfolding set_bandwidth add_bandwidth
bandwidth_keeps [] s = refl
bandwidth_keeps (a ∷ []) s = refl
bandwidth_keeps (a ∷ b ∷ []) s = elim (Option-cases (atoi b)) [
  | inl e ↦ rw e refl
  | inr h ↦ rw (h.1) (on_media-some_media _ _ s refl)
]
bandwidth_keeps (a ∷ b ∷ c ∷ ws) s = refl

pub timing_keeps : (ws : List Bytes) (s : SessionDescription) → (set_timing ws s).media ≡ s.media
unfolding set_timing
timing_keeps [] s = refl
timing_keeps (a ∷ []) s = refl
timing_keeps (a ∷ b ∷ ws) s = refl

some_media-append :
    (ms : List MediaDescription) (m : MediaDescription) → some_media (ms ++ m ∷ []) ≡ true
some_media-append [] m = refl
some_media-append (n ∷ ms) m = refl

pub media_adds :
    (ws : List Bytes) (s : SessionDescription)
    → some_media (add_media ws s).media ≡ (some_media s.media || has_four ws)
unfolding add_media has_four
media_adds [] s = ground arith
media_adds (a ∷ []) s = ground arith
media_adds (a ∷ b ∷ []) s = ground arith
media_adds (a ∷ b ∷ c ∷ []) s = ground arith
media_adds (a ∷ b ∷ c ∷ d ∷ ws) s = ground (arith, some_media-append s.media _)
