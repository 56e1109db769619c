-- ===== src/Proxy/Relay/Table.antt =====
-- proxy/proxy.go: the table of upstream servers and what a request's URL leads to.
use rtsp_go.Base.{
  ◌≡◌, refl, sym, ap, ◌∙◌, Bool, true, false, Option, none, some, Result, ok, if◌then◌else◌,
}
use rtsp_go.Base.Text.{Bytes, text_eq}
use rtsp_go.Base.Dict.{lookup, insert, delete, bytes_eq, lookup-insert, lookup-delete}
use rtsp_go.Proxy.Relay.{
  ProxyConfig, ProxyError, Urls, server_or_default, add_upstream_server, remove_upstream_server,
  resolve_upstream_server,
}

resolved :
    (urls : Urls) (config : ProxyConfig) (url p : Bytes)
    → urls.path_of url ≡ some p
    → resolve_upstream_server urls config url
      ≡ server_or_default config (lookup p config.upstream_servers)
unfolding resolve_upstream_server
resolved urls config url p parsed = rw (parsed, resolve_upstream_server) refl

-- Another table does not change what becomes of its answer.
same_default :
    (config : ProxyConfig) (path server : Bytes) (found : Option Bytes)
    → (server_or_default (add_upstream_server path server config) found
        ≡ server_or_default config found)
      × (server_or_default (remove_upstream_server path config) found
          ≡ server_or_default config found)
unfolding server_or_default add_upstream_server remove_upstream_server
same_default config path server none = (refl, refl)
same_default config path server (some s) = (refl, refl)

by_test :
    (config : ProxyConfig) (test : Bool) (found other : Option Bytes)
    → server_or_default config (if test then found else other)
      ≡ (if test then server_or_default config found else server_or_default config other)
by_test config true found other = refl
by_test config false found other = refl

-- What a path that is not in the table leads to.
abbrev pub default_of : ProxyConfig → Result ProxyError Bytes
default_of config = server_or_default config none

-- For a URL that net/url parses: after AddUpstreamServer, it leads to the server added if its path is
-- the one added, and to where it led before if not; after RemoveUpstreamServer, it leads to the
-- default server, or to an error if there is none, if its path is the one removed, and to where it
-- led before if not.
pub resolve_upstream_server_lem :
    (urls : Urls) (config : ProxyConfig) (path server url p : Bytes)
    → urls.path_of url ≡ some p
    → (resolve_upstream_server urls (add_upstream_server path server config) url
        ≡ (if text_eq path p then ok server else resolve_upstream_server urls config url))
      × (resolve_upstream_server urls (remove_upstream_server path config) url
          ≡ (if text_eq path p then default_of config else resolve_upstream_server urls config url))
unfolding server_or_default add_upstream_server remove_upstream_server
resolve_upstream_server_lem urls config path server url p parsed =
    let before = resolved urls config url p parsed in
    let found = lookup p config.upstream_servers in
    (
      resolved urls (add_upstream_server path server config) url p parsed
          ∙ (same_default config path server
              (lookup p (insert path server config.upstream_servers))).0
          ∙ ap (server_or_default config) (lookup-insert path p server config.upstream_servers)
          ∙ by_test config (text_eq path p) (some server) found
          ∙ ap (λ r. if text_eq path p then ok server else r) (sym before),
      resolved urls (remove_upstream_server path config) url p parsed
          ∙ (same_default config path server (lookup p (delete path config.upstream_servers))).1
          ∙ ap (server_or_default config) (lookup-delete path p config.upstream_servers)
          ∙ by_test config (text_eq path p) none found
          ∙ ap (λ r. if text_eq path p then default_of config else r) (sym before),
    )
