-- ===== src/Client/Calls/Start.antt =====
-- client/client.go: how far a StartSession of a new client comes.
use rtsp_go.Base.{
  ℕ, ◌≡◌, refl, sym, Bool, true, false, Option, none, some, returns, blocks, panics, ◌>>=◌, Result,
  ok, err, Comes, subst,
}
use rtsp_go.Base.Int.{ℤ}
use rtsp_go.Base.Text.{Bytes}
use rtsp_go.Protocol.Session.{Session, SessionState, ready, playing}
use rtsp_go.Client.{
  RtspClient, ClientError, Called, Meeting, UrlError, new_rtsp_client, dialled, parse_url, connect,
  count_up,
}
use rtsp_go.Client.Calls.{
  options, describe, setup, play, StartError, connect_failed, options_failed, describe_failed,
  setup_failed, play_failed, Started, then_start, start_session,
}
use rtsp_go.Client.Calls.Posts.{Post, IsDescribed, options-Post, describe-Post}
use rtsp_go.Client.Calls.Sessions.{IsNoted, InState, IsSetUp, setup-Post, play-Post}

-- Connected, with the sequence number, no channel, and a session as P says.
pub record At (number : ℕ) (P : Option Session → Type 0) (c : RtspClient) : Type 0 where
  pub is_connected : c.connected ≡ true
  pub numbered : c.sequence_num ≡ number
  pub channel_unset : c.tcp_channel ≡ none
  pub in_session : P c.session

abbrev pub IsNone : Option Session → Type 0
IsNone s = s ≡ none

abbrev pub IsIn : SessionState → Option Session → Type 0
IsIn state s = (s' : Session) × (s ≡ some s') × (s'.state ≡ state)

-- The step that failed tells the sequence number and the session.
abbrev pub IsStarted : RtspClient → Option StartError × RtspClient → Type 0
IsStarted first (none, c) = At 5 (IsIn playing) c
IsStarted first (some (connect_failed e), c) = c ≡ first
IsStarted first (some (options_failed e), c) = At 1 IsNone c
IsStarted first (some (describe_failed e), c) = At 2 IsNone c
IsStarted first (some (setup_failed e), c) = At 3 IsNone c
IsStarted first (some (play_failed e), c) = At 4 (IsIn ready) c

-- A step that leaves F or D, with what the next ones make of D.
then_start-IsStarted :
    {F D : RtspClient → Type 0} (first : RtspClient) (failed : ClientError → StartError)
    (next : RtspClient → Started) (o : Called)
    → ((e : ClientError) (a : RtspClient) → F a → IsStarted first (some (failed e), a))
    → ((a : RtspClient) → D a → Comes (IsStarted first) (next a))
    → Comes (Post F D) o
    → Comes (IsStarted first) (o >>= then_start failed next)
unfolding then_start
then_start-IsStarted first failed next (returns (none, a)) f d h = d a h
then_start-IsStarted first failed next (returns (some e, a)) f d h = f e a h
then_start-IsStarted first failed next blocks f d h = h
then_start-IsStarted first failed next panics f d h = tt

module _ (first : RtspClient) where
  same-At :
      {number : ℕ} {P : Option Session → Type 0} (c a : RtspClient)
      → At number P c
      → a ≡ c
      → At number P a
  same-At {number} {P} c a h e = subst (λ a'. At number P a') (sym e) h

  after_play :
      (c a : RtspClient) → At 4 (IsIn ready) c → InState playing c a → At 5 (IsIn playing) a
  unfolding count_up
  after_play c a h (s, e, made) =
      subst (λ a'. At 5 (IsIn playing) a') (sym made)
        (record {
          is_connected = h.is_connected;
          numbered = rw h.numbered refl;
          channel_unset = h.channel_unset;
          in_session = (s, refl, e);
        })

  after_setup : (c a : RtspClient) → At 3 IsNone c → IsSetUp c a → At 4 (IsIn ready) a
  unfolding count_up
  after_setup c a h (t, p, (s, e, made)) =
      subst (λ a'. At 4 (IsIn ready) a') (sym made)
        (record {
          is_connected = h.is_connected;
          numbered = rw h.numbered refl;
          channel_unset = h.channel_unset;
          in_session = (s, refl, e);
        })

  failed_setup : (c a : RtspClient) → At 3 IsNone c → IsNoted c a → At 3 IsNone a
  failed_setup c a h (t, p, e) =
      subst (λ a'. At 3 IsNone a') (sym e)
        (record {
          is_connected = h.is_connected;
          numbered = h.numbered;
          channel_unset = h.channel_unset;
          in_session = h.in_session;
        })

  after_describe : (c a : RtspClient) → At 2 IsNone c → IsDescribed c a → At 3 IsNone a
  unfolding count_up
  after_describe c a h (d, e) =
      subst (λ a'. At 3 IsNone a') (sym e)
        (record {
          is_connected = h.is_connected;
          numbered = rw h.numbered refl;
          channel_unset = h.channel_unset;
          in_session = h.in_session;
        })

  after_options : (c a : RtspClient) → At 1 IsNone c → a ≡ count_up c → At 2 IsNone a
  unfolding count_up
  after_options c a h e =
      subst (λ a'. At 2 IsNone a') (sym e)
        (record {
          is_connected = h.is_connected;
          numbered = rw h.numbered refl;
          channel_unset = h.channel_unset;
          in_session = h.in_session;
        })

  module _ (heap : ℕ) where
    from_play :
        (p : Meeting) (c : RtspClient)
        → At 4 (IsIn ready) c
        → Comes
            (IsStarted first)
            (play heap p c >>= then_start play_failed (λ c5. returns (none, c5)))
    from_play p c h =
        then_start-IsStarted first play_failed (λ c5. returns (none, c5)) (play heap p c)
          (λ e a. same-At c a h) (λ a. after_play c a h) (play-Post heap p c h.channel_unset)

    from_setup :
        (s p : Meeting) (c : RtspClient)
        → At 3 IsNone c
        → Comes (IsStarted first) (
            setup heap s c
            >>= then_start setup_failed
                (λ c4. play heap p c4 >>= then_start play_failed (λ c5. returns (none, c5))))
    from_setup s p c h =
        then_start-IsStarted first setup_failed _ (setup heap s c) (λ e a. failed_setup c a h)
          (λ a i. from_play p a (after_setup c a h i)) (setup-Post heap s c h.channel_unset)

    from_describe :
        (d s p : Meeting) (c : RtspClient)
        → At 2 IsNone c
        → Comes (IsStarted first) (
            describe heap d c
            >>= then_start describe_failed (λ c3.
              setup heap s c3
              >>= then_start setup_failed
                  (λ c4. play heap p c4 >>= then_start play_failed (λ c5. returns (none, c5)))))
    from_describe d s p c h =
        then_start-IsStarted first describe_failed _ (describe heap d c) (λ e a. same-At c a h)
          (λ a i. from_setup s p a (after_describe c a h i)) (describe-Post heap d c)

    from_options :
        (o d s p : Meeting) (c : RtspClient)
        → At 1 IsNone c
        → Comes (IsStarted first) (
            options heap o c
            >>= then_start options_failed (λ c2.
              describe heap d c2
              >>= then_start describe_failed (λ c3.
                setup heap s c3
                >>= then_start setup_failed
                    (λ c4. play heap p c4 >>= then_start play_failed (λ c5. returns (none, c5))))))
    from_options o d s p c h =
        then_start-IsStarted first options_failed _ (options heap o c) (λ e a. same-At c a h)
          (λ a e. from_describe d s p a (after_options c a h e)) (options-Post heap o c)

new-Post :
    (url : Bytes) (ssrc now : ℕ) (fails : Bool) (r : Result UrlError (Bytes × ℤ))
    → let first = new_rtsp_client url ssrc now in
      Post (λ c. c ≡ first) (At 1 IsNone) (dialled fails first r)
unfolding dialled new_rtsp_client
new-Post url ssrc now fails (err e) = refl
new-Post url ssrc now true (ok address) = refl
new-Post url ssrc now false (ok address) = record {
  is_connected = refl;
  numbered = refl;
  channel_unset = refl;
  in_session = refl;
}

-- StartSession of a new client returns, unless it panics, whatever the server delivers. Without an
-- error the client is connected, four requests were counted and the session is playing. With one,
-- the step that it names was not counted and those before it were: if Connect failed the client is
-- as it was, up to SETUP there is no session, and if PLAY failed there is one that is ready.
pub start_session-IsStarted :
    (url : Bytes) (ssrc now heap : ℕ) (fails : Bool) (o d s p : Meeting)
    → let first = new_rtsp_client url ssrc now in
      Comes (IsStarted first) (start_session heap fails o d s p first)
unfolding start_session connect
start_session-IsStarted url ssrc now heap fails o d s p =
    let first = new_rtsp_client url ssrc now in
    then_start-IsStarted first connect_failed _ (connect fails first) (λ e a same. same)
      (λ a h. from_options first heap o d s p a h)
      (new-Post url ssrc now fails (parse_url first.server_url))
