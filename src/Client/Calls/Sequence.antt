-- ===== src/Client/Calls/Sequence.antt =====
-- client/client.go: any sequence of calls of a client's methods, whatever the server answers.
use rtsp_go.Base.{
  ℕ, ◌<◌, ◌^◌, ◌≡◌, refl, sym, Bool, List, [], ◌∷◌, Result, ok, true, false, Option, none, some,
  Outcome, returns, blocks, panics, err, ◌>>=◌, Comes, Comes-bind, Comes-map, subst, inl, inr, ◌⊎◌,
  arith,
}
use rtsp_go.Base.Int.{ℤ}
use rtsp_go.Base.Text.{Bytes}
use rtsp_go.Protocol.Session.{Session, SessionState, ready, playing}
use rtsp_go.Protocol.Transport.{Transport}
use rtsp_go.Client.{
  PeerPorts, RtspClient, ClientError, not_tcp_transport, Called, Meeting, UrlError, new_rtsp_client,
  set_dynamic_ports, set_tcp_transport, dialled, parse_url, connect, count_up,
}
use rtsp_go.Client.Stream.{
  receive_tcp_media_stream, receive_tcp_media_stream_without, send_tcp_rtcp_packet,
  send_tcp_rtcp_packet_without,
}
use rtsp_go.Client.Calls.{options, describe, setup, play, pause, teardown, disconnect}
use rtsp_go.Client.Calls.Posts.{Post, IsDescribed, options-Post, describe-Post}
use rtsp_go.Client.Calls.Sessions.{
  noted, IsNoted, InState, IsTornDown, IsLeft, setup-Post, play-Post, pause-Post, teardown-Post,
  disconnect-Post,
}

pub data Call : Type 0 where
  dials : Bool → Call
  asks_options describes sets_up plays pauses tears_down leaves : Meeting → Call
  sets_ports sets_tcp : Bool → Call
  sends_rtcp : Bool → ℕ → Bytes → Call

pub perform : ℕ → Call → RtspClient → Called
perform heap (dials fails) c = connect fails c
perform heap (asks_options x) c = options heap x c
perform heap (describes x) c = describe heap x c
perform heap (sets_up x) c = setup heap x c
perform heap (plays x) c = play heap x c
perform heap (pauses x) c = pause heap x c
perform heap (tears_down x) c = teardown heap x c
perform heap (leaves x) c = disconnect heap x c
perform heap (sets_ports enabled) c = returns (none, set_dynamic_ports enabled c)
perform heap (sets_tcp enabled) c = returns (none, set_tcp_transport enabled c)
perform heap (sends_rtcp fails now payload) c =
    let r = send_tcp_rtcp_packet fails now payload c in returns (r.1, r.2)

-- The calls in their order; an error does not stop them.
pub perform_all : ℕ → List Call → RtspClient → Outcome RtspClient
unfolding perform
perform_all heap [] c = returns c
perform_all heap (k ∷ ks) c = perform heap k c >>= λ r. perform_all heap ks r.1

abbrev pub Active : Option Session → Type 0
Active none = Unit
Active (some s) = (s.state ≡ ready) ⊎ (s.state ≡ playing)

-- What the calls keep of the client that they began with.
pub record IsClient (first c : RtspClient) : Type 0 where
  pub same_url : c.server_url ≡ first.server_url
  pub fits : c.sequence_num < 2 ^ 16
  pub active : Active c.session
  pub channel_unset : c.tcp_channel ≡ none
  pub none_receiving : c.receivers ≡ first.receivers
  pub same_tcp_stats : c.tcp_stats ≡ first.tcp_stats
  pub same_rtp_stats : c.rtp_stats ≡ first.rtp_stats

module _ (first : RtspClient) where
  count_up-IsClient : (c : RtspClient) → IsClient first c → IsClient first (count_up c)
  unfolding count_up
  count_up-IsClient c h = record {
    same_url = h.same_url;
    fits = omega arith;
    active = h.active;
    channel_unset = h.channel_unset;
    none_receiving = h.none_receiving;
    same_tcp_stats = h.same_tcp_stats;
    same_rtp_stats = h.same_rtp_stats;
  }

  noted-IsClient :
      (c : RtspClient) (t : Option Transport) (p : Option PeerPorts)
      → IsClient first c
      → IsClient first (noted c t p)
  noted-IsClient c t p h = record {
    same_url = h.same_url;
    fits = h.fits;
    active = h.active;
    channel_unset = h.channel_unset;
    none_receiving = h.none_receiving;
    same_tcp_stats = h.same_tcp_stats;
    same_rtp_stats = h.same_rtp_stats;
  }

  in_session-IsClient :
      (c : RtspClient) (s : Option Session)
      → Active s
      → IsClient first c
      → IsClient first (count_up (record c { session = s }))
  in_session-IsClient c s a h =
      count_up-IsClient (record c { session = s })
        (record {
          same_url = h.same_url;
          fits = h.fits;
          active = a;
          channel_unset = h.channel_unset;
          none_receiving = h.none_receiving;
          same_tcp_stats = h.same_tcp_stats;
          same_rtp_stats = h.same_rtp_stats;
        })

  -- The fields that no clause of IsClient is about.
  plain-IsClient :
      (c a : RtspClient)
      → IsClient first c
      → (b d u : Bool) → (o : Option _)
      → a ≡ record c { connected = b; dynamic_ports = d; use_tcp_transport = u; sdp = o }
      → IsClient first a
  plain-IsClient c a h b d u o e =
      subst (λ a'. IsClient first a') (sym e)
        (record {
          same_url = h.same_url;
          fits = h.fits;
          active = h.active;
          channel_unset = h.channel_unset;
          none_receiving = h.none_receiving;
          same_tcp_stats = h.same_tcp_stats;
          same_rtp_stats = h.same_rtp_stats;
        })

  same-IsClient : (c a : RtspClient) → IsClient first c → a ≡ c → IsClient first a
  same-IsClient c a h e = subst (λ a'. IsClient first a') (sym e) h

  state-IsClient :
      (state : SessionState) (c a : RtspClient)
      → (state ≡ ready) ⊎ (state ≡ playing)
      → IsClient first c
      → InState state c a
      → IsClient first a
  state-IsClient state c a two h (s, e, made) =
      subst (λ a'. IsClient first a') (sym made)
        (in_session-IsClient c (some s) (subst (λ st. (st ≡ ready) ⊎ (st ≡ playing)) (sym e) two) h)

  IsTornDown-IsClient : (c a : RtspClient) → IsClient first c → IsTornDown c a → IsClient first a
  IsTornDown-IsClient c a h (inl e) = same-IsClient c a h e
  IsTornDown-IsClient c a h (inr e) =
      subst (λ a'. IsClient first a') (sym e) (in_session-IsClient c none tt h)

  -- Whatever the errors, the client is kept if both ends are.
  kept :
      {F D : RtspClient → Type 0} (o : Called)
      → ((a : RtspClient) → F a → IsClient first a)
      → ((a : RtspClient) → D a → IsClient first a)
      → Comes (Post F D) o
      → Comes (λ (r : Option ClientError × RtspClient). IsClient first r.1) o
  kept (returns (none, a)) f d h = d a h
  kept (returns (some e, a)) f d h = f a h
  kept panics f d h = tt
  kept blocks f d h = h

  connect-IsClient :
      (fails : Bool) (c : RtspClient) (r : Result UrlError (Bytes × ℤ))
      → IsClient first c
      → IsClient first (dialled fails c r).1
  unfolding dialled
  connect-IsClient fails c (err e) h = h
  connect-IsClient true c (ok address) h = h
  connect-IsClient false c (ok address) h =
      plain-IsClient c (record c { connected = true }) h true c.dynamic_ports c.use_tcp_transport
        c.sdp refl

  IsDescribed-IsClient : (c a : RtspClient) → IsClient first c → IsDescribed c a → IsClient first a
  IsDescribed-IsClient c a h (d, e) =
      subst (λ a'. IsClient first a') (sym e)
        (count_up-IsClient (record c { sdp = some d })
          (plain-IsClient c (record c { sdp = some d }) h c.connected c.dynamic_ports
            c.use_tcp_transport (some d) refl))

  IsNoted-IsClient : (c a : RtspClient) → IsClient first c → IsNoted c a → IsClient first a
  IsNoted-IsClient c a h (t, p, e) =
      subst (λ a'. IsClient first a') (sym e) (noted-IsClient c t p h)

  IsLeft-IsClient : (c a : RtspClient) → IsClient first c → IsLeft c a → IsClient first a
  IsLeft-IsClient c a h (b, t, e) =
      plain-IsClient b a (IsTornDown-IsClient c b h t) false b.dynamic_ports b.use_tcp_transport
        b.sdp e

  perform-IsClient :
      (heap : ℕ) (k : Call) (c : RtspClient)
      → IsClient first c
      → Comes (λ (r : Option ClientError × RtspClient). IsClient first r.1) (perform heap k c)
  unfolding perform connect set_dynamic_ports set_tcp_transport
  perform-IsClient heap (dials fails) c h = connect-IsClient fails c (parse_url c.server_url) h
  perform-IsClient heap (asks_options x) c h =
      kept (options heap x c) (λ a. same-IsClient c a h)
        (λ a e. subst (λ a'. IsClient first a') (sym e) (count_up-IsClient c h))
        (options-Post heap x c)
  perform-IsClient heap (describes x) c h =
      kept (describe heap x c) (λ a. same-IsClient c a h) (λ a. IsDescribed-IsClient c a h)
        (describe-Post heap x c)
  perform-IsClient heap (sets_up x) c h =
      kept (setup heap x c) (λ a. IsNoted-IsClient c a h)
        (λ a (t, p, made).
          state-IsClient ready (noted c t p) a (inl refl) (noted-IsClient c t p h) made)
        (setup-Post heap x c h.channel_unset)
  perform-IsClient heap (plays x) c h =
      kept (play heap x c) (λ a. same-IsClient c a h) (λ a. state-IsClient playing c a (inr refl) h)
        (play-Post heap x c h.channel_unset)
  perform-IsClient heap (pauses x) c h =
      kept (pause heap x c) (λ a. same-IsClient c a h) (λ a. state-IsClient ready c a (inl refl) h)
        (pause-Post heap x c)
  perform-IsClient heap (tears_down x) c h =
      kept (teardown heap x c) (λ a. same-IsClient c a h) (λ a. IsTornDown-IsClient c a h)
        (teardown-Post heap x c)
  perform-IsClient heap (leaves x) c h =
      kept (disconnect heap x c) (λ a n. absurd n) (λ a. IsLeft-IsClient c a h)
        (disconnect-Post heap x c)
  perform-IsClient heap (sets_ports enabled) c h =
      plain-IsClient c _ h c.connected enabled c.use_tcp_transport c.sdp refl
  perform-IsClient heap (sets_tcp enabled) c h =
      plain-IsClient c _ h c.connected c.dynamic_ports enabled c.sdp refl
  perform-IsClient heap (sends_rtcp fails now payload) c h =
      rw (send_tcp_rtcp_packet_without fails now payload c h.channel_unset) h

  perform_all-IsClient_from :
      (heap : ℕ) (ks : List Call) (c : RtspClient)
      → IsClient first c
      → Comes (IsClient first) (perform_all heap ks c)
  unfolding perform_all
  perform_all-IsClient_from heap [] c h = h
  perform_all-IsClient_from heap (k ∷ ks) c h =
      Comes-bind (IsClient first) (perform heap k c) (λ r. perform_all heap ks r.1)
        (λ r h'. perform_all-IsClient_from heap ks r.1 h') (perform-IsClient heap k c h)

-- A client has used no TCP: both methods of the TCP stream fail.
pub record IsUdpOnly (first c : RtspClient) : Type 0 where
  pub is_client : IsClient first c
  pub receives_nothing : receive_tcp_media_stream c ≡ err not_tcp_transport
  pub sends_nothing :
      (fails : Bool) (now : ℕ) (payload : Bytes)
      → send_tcp_rtcp_packet fails now payload c ≡ ([], some not_tcp_transport, c)

udp_only : (first c : RtspClient) → IsClient first c → IsUdpOnly first c
udp_only first c h = record {
  is_client = h;
  receives_nothing = receive_tcp_media_stream_without c h.channel_unset;
  sends_nothing =
      λ fails now payload. send_tcp_rtcp_packet_without fails now payload c h.channel_unset;
}

new-IsClient :
    (url : Bytes) (ssrc now : ℕ)
    → IsClient (new_rtsp_client url ssrc now) (new_rtsp_client url ssrc now)
unfolding new_rtsp_client
new-IsClient url ssrc now = record {
  same_url = refl;
  fits = omega arith;
  active = tt;
  channel_unset = refl;
  none_receiving = refl;
  same_tcp_stats = refl;
  same_rtp_stats = refl;
}

-- Take a new client, and call its methods in any order, SetTCPTransport among them, whatever the
-- server answers. Unless a call panics, all of them return; then the session, if there is one, is
-- ready or playing, the sequence number is a uint16, and the client has no TCP channel: it has
-- started no receiver, its statistics are those it began with, and ReceiveTCPMediaStream and
-- SendTCPRTCPPacket fail, the latter without writing.
pub perform_all-IsUdpOnly :
    (url : Bytes) (ssrc now heap : ℕ) (ks : List Call)
    → let first = new_rtsp_client url ssrc now in
      Comes (IsUdpOnly first) (perform_all heap ks first)
perform_all-IsUdpOnly url ssrc now heap ks =
    let first = new_rtsp_client url ssrc now in
    Comes-map (λ c h. udp_only first c h) (perform_all heap ks first)
      (perform_all-IsClient_from first heap ks first (new-IsClient url ssrc now))
