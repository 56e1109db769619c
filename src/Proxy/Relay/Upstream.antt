-- ===== src/Proxy/Relay/Upstream.antt =====
-- proxy/proxy.go: processRequest comes back, with one upstream for a session and no TCP transport.
use rtsp_go.Base.{
  ℕ, ◌≡◌, ◌≢◌, refl, sym, false, List, [], ◌∷◌, Option, some, Result, ok, err, Outcome, returns,
  blocks, panics, Bool-cases, Option-cases, inl, inr, All, All-append, Comes, Comes-bind,
  Comes-Gives, subst, length,
}
use rtsp_go.Base.Text.{Bytes, codes, is_empty, text_eq}
use rtsp_go.Protocol.Message.{Message, get_header}
use rtsp_go.Protocol.Transport.{parse_transport, is_tcp_transport}
use rtsp_go.Protocol.Transport.Never.{is_tcp_transport-parse_transport}
use rtsp_go.Reader.{ReadError, read_message}
use rtsp_go.Reader.Ends.{MessageEnds, read_message-MessageEnds}
use rtsp_go.Proxy.Media.{Conn, absent, opened, closed, set_transport_mode}
use rtsp_go.Proxy.Media.Threads.{System, start_media}
use rtsp_go.Proxy.Relay.{
  ProxySession, ProxyConfig, ProxyError, Urls, Exchange, Processed, begin_media, start_media_proxy,
  reuse, note, connect_to_upstream, connected, modify_response, answered, read_answer, exchanged,
  joined, routed, process_request, resolve_upstream_server,
}

abbrev pub IsUdp : System → Type 0
IsUdp m = m.proxy.use_tcp_transport ≡ false

abbrev MediaUdp : Option ProxyError × System → Type 0
MediaUdp r = IsUdp r.1

begin_media-Comes : (media : System) → IsUdp media → Comes MediaUdp (begin_media media)
unfolding begin_media start_media
begin_media-Comes media udp = elim (Bool-cases media.proxy.running) [
  | inl on ↦ rw on udp
  | inr off ↦ rw off udp
]

start_media_proxy-Comes :
    (response : Message) (media : System)
    → IsUdp media
    → Comes MediaUdp (start_media_proxy response media)
unfolding start_media_proxy set_transport_mode
start_media_proxy-Comes response media udp =
    let header = get_header (codes "Transport") response in
    elim (Bool-cases (is_empty header)) [
      | inl none_given ↦ rw none_given (begin_media-Comes media udp)
      | inr given ↦ rw given (
          Comes-bind MediaUdp (parse_transport header)
            (λ t.
              begin_media
                (record media { proxy = set_transport_mode (is_tcp_transport t) media.proxy }))
            (λ t plain.
              begin_media-Comes
                (record media { proxy = set_transport_mode (is_tcp_transport t) media.proxy })
                plain)
            (Comes-Gives (is_tcp_transport-parse_transport header)))
    ]

-- The requests of a session have gone to its one upstream, and its media are not sent over TCP.
pub record Sound (session : ProxySession) (forwarded : List Bytes) : Type 0 where
  pub udp : IsUdp session.media_proxy
  pub unconnected : session.upstream_conn ≡ absent → forwarded ≡ []
  pub one : All (λ (u : Bytes). u ≡ session.upstream_url) forwarded

abbrev Holds : {E A : Type 0} → (A → Type 0) → Result E A → Type 0
Holds Q (ok a) = Q a
Holds Q (err e) = Unit

abbrev Joined : List Bytes → ProxySession → Type 0
Joined forwarded session = Sound session forwarded × (session.upstream_conn ≢ absent)

abbrev AnsweredBy : ProxySession → List Bytes → Message × ProxySession → Type 0
AnsweredBy session forwarded (m, after) =
    (after.upstream_url ≡ session.upstream_url) × Joined forwarded after

-- What processRequest leaves is sound.
abbrev pub SoundAfter : List Bytes → Processed → Type 0
SoundAfter forwarded (r, session, url) = Sound session (note url forwarded)

note-Sound :
    (session : ProxySession) (forwarded : List Bytes) (url : Bytes)
    → Joined forwarded session
    → url ≡ session.upstream_url
    → Sound session (note (some url) forwarded)
unfolding note
note-Sound session forwarded url (h, there) same = record {
  udp = h.udp;
  unconnected = λ e. absurd (there e);
  one = All-append (λ (u : Bytes). u ≡ session.upstream_url) forwarded (url ∷ []) h.one (same, tt);
}

module _ (urls : Urls) (config : ProxyConfig) where
  connect_to_upstream-Joined :
      (url : Bytes) (exchange : Exchange) (session : ProxySession)
      → IsUdp session.media_proxy
      → Holds (Joined []) (connect_to_upstream urls config url exchange session)
  unfolding connect_to_upstream
  connect_to_upstream-Joined url exchange session udp = elim (Option-cases (urls.host_of url)) [
    | inl no_host ↦ rw (no_host, connect_to_upstream) tt
    | inr (host, parsed) ↦ elim (Bool-cases exchange.dial_fails) [
      | inl fails ↦ rw (parsed, connect_to_upstream) (rw fails tt)
      | inr works ↦
          rw (parsed, connect_to_upstream)
            (rw works (record { udp = udp; unconnected = λ e. refl; one = tt }, λ e. cc))
    ]
  ]

  reuse-Joined :
      (conn : Conn) (made : Result ProxyError ProxySession) (session : ProxySession)
      (forwarded : List Bytes)
      → session.upstream_conn ≡ conn
      → (conn ≡ absent → Holds (Joined forwarded) made)
      → Sound session forwarded
      → Holds (Joined forwarded) (reuse conn made session)
  unfolding reuse
  reuse-Joined absent made session forwarded e m h = m refl
  reuse-Joined opened made session forwarded e m h = (h, λ a. cc)
  reuse-Joined closed made session forwarded e m h = (h, λ a. cc)

  connected-Joined :
      (url : Bytes) (exchange : Exchange) (session : ProxySession) (forwarded : List Bytes)
      → Sound session forwarded
      → Holds (Joined forwarded) (connected urls config url exchange session)
  unfolding connected
  connected-Joined url exchange session forwarded h =
      reuse-Joined session.upstream_conn (connect_to_upstream urls config url exchange session)
        session forwarded refl
        (λ absent_conn.
          subst (λ f. Holds (Joined f) (connect_to_upstream urls config url exchange session))
            (sym (h.unconnected absent_conn))
            (connect_to_upstream-Joined url exchange session h.udp))
        h

  answered-Joined :
      (request : Message) (session : ProxySession) (response : Message) (forwarded : List Bytes)
      → Joined forwarded session
      → Comes (AnsweredBy session forwarded) (answered urls config request session response)
  unfolding answered
  answered-Joined request session response forwarded (h, there) =
      let modified = modify_response urls config response in
      elim (Bool-cases (text_eq request.method (codes "PLAY"))) [
        | inl play ↦ rw play (
            Comes-bind (AnsweredBy session forwarded)
              (start_media_proxy modified session.media_proxy)
              (λ r. returns (modified, record session { media_proxy = r.1 }))
              (λ r udp.
                (refl, (record { udp = udp; unconnected = h.unconnected; one = h.one }, there)))
              (start_media_proxy-Comes modified session.media_proxy h.udp))
        | inr other ↦ rw other (refl, (h, there))
      ]

  read_answer-Sound :
      (request : Message) (session : ProxySession) (size : ℕ) (forwarded : List Bytes)
      (o : Outcome (Result ReadError (Message × Bytes)))
      → MessageEnds size o
      → Joined forwarded session
      → Comes (SoundAfter forwarded) (read_answer urls config request session o)
  unfolding read_answer
  read_answer-Sound request session size forwarded blocks e h = absurd e
  read_answer-Sound request session size forwarded panics e h = tt
  read_answer-Sound request session size forwarded (returns (err e')) e h =
      note-Sound session forwarded session.upstream_url h refl
  read_answer-Sound request session size forwarded (returns (ok (response, rest))) e h =
      Comes-bind (SoundAfter forwarded) (answered urls config request session response)
        (λ r. returns (ok r.0, r.1, some session.upstream_url))
        (λ r (same, joined_after).
          note-Sound r.1 forwarded session.upstream_url joined_after (sym same))
        (answered-Joined request session response forwarded h)

  exchanged-Sound :
      (heap : ℕ) (exchange : Exchange) (request : Message) (session : ProxySession)
      (forwarded : List Bytes)
      → Joined forwarded session
      → Comes (SoundAfter forwarded) (exchanged urls config heap exchange request session)
  unfolding exchanged note
  exchanged-Sound heap exchange request session forwarded h =
      elim (Bool-cases exchange.write_fails) [
        | inl fails ↦ rw fails h.0
        | inr works ↦ rw works (
            read_answer-Sound request session (length exchange.answer) forwarded
              (read_message heap exchange.answer) (read_message-MessageEnds heap exchange.answer) h)
      ]

  joined-Sound :
      (heap : ℕ) (exchange : Exchange) (request : Message) (session : ProxySession)
      (forwarded : List Bytes) (made : Result ProxyError ProxySession)
      → Sound session forwarded
      → Holds (Joined forwarded) made
      → Comes (SoundAfter forwarded) (joined urls config heap exchange request session made)
  unfolding joined note
  joined-Sound heap exchange request session forwarded (err e) h m = h
  joined-Sound heap exchange request session forwarded (ok session') h m =
      exchanged-Sound heap exchange request session' forwarded m

  routed-Sound :
      (heap : ℕ) (exchange : Exchange) (request : Message) (session : ProxySession)
      (forwarded : List Bytes) (server : Result ProxyError Bytes)
      → Sound session forwarded
      → Comes (SoundAfter forwarded) (routed urls config heap exchange request session server)
  unfolding routed note
  routed-Sound heap exchange request session forwarded (err e) h = h
  routed-Sound heap exchange request session forwarded (ok url) h =
      joined-Sound heap exchange request session forwarded
        (connected urls config url exchange session) h
        (connected-Joined url exchange session forwarded h)

  -- processRequest comes back
  pub process_request-Sound :
      (heap : ℕ) (exchange : Exchange) (request : Message) (session : ProxySession)
      (forwarded : List Bytes)
      → Sound session forwarded
      → Comes (SoundAfter forwarded) (process_request urls config heap exchange request session)
  unfolding process_request
  process_request-Sound heap exchange request session forwarded h =
      routed-Sound heap exchange request session forwarded
        (resolve_upstream_server urls config request.url) h
