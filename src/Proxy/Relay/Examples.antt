-- ===== src/Proxy/Relay/Examples.antt =====
-- proxy/proxy.go on concrete sessions: tests, and instances of the theorems.
use rtsp_go.Base.{refl, false, List, [], ◌∷◌, some}
use rtsp_go.Base.Text.{codes, text_eq}
use rtsp_go.Base.Dict.{lookup, insert, bytes_eq}
use rtsp_go.Protocol.Message.{Message}
use rtsp_go.Reader.Examples.{announce}
use rtsp_go.Proxy.Relay.{Urls, Exchange, new_proxy_config}
use rtsp_go.Proxy.Relay.Session.{Relay, new_proxy_session}
use rtsp_go.Proxy.Relay.Clients.{
  Clients, new_rtsp_proxy, advance, accepted, Steps, done, step, accepts, advances,
}
use rtsp_go.Proxy.Relay.Clients.Counts.{IsCounted, initial, Steps-IsCounted}

-- A parser of URLs that takes the whole text for the path.
abbrev plain : Urls
plain = record {
  path_of = λ url. some url;
  host_of = λ url. some url;
  with_host = λ url host. host;
}

abbrev two : List Message
two = announce ∷ announce ∷ []

abbrev fresh : Relay
fresh = record {
  session = new_proxy_session (codes "s") 5;
  stats = (new_rtsp_proxy new_proxy_config 5).stats;
  output = [];
  forwarded = [];
}

abbrev silent : Exchange
silent = record {
  dial_fails = false;
  write_fails = false;
  answer = [];
  reply_fails = false;
  now = 6;
}

abbrev one_client : Clients
one_client = record {
  proxy = (advance (codes "s") 6 accepted (new_rtsp_proxy new_proxy_config 5)).0;
  handlers =
      (codes "s", (advance (codes "s") 6 accepted (new_rtsp_proxy new_proxy_config 5)).1) ∷ [];
}

one_client_run : Steps (initial new_proxy_config 5) one_client
unfolding lookup insert text_eq
one_client_run = step (accepts (codes "s") refl) (step (advances (codes "s") 6 accepted refl) done)

Steps-IsCounted_example : IsCounted one_client
Steps-IsCounted_example = Steps-IsCounted new_proxy_config 5 one_client one_client_run
