-- ===== src/Auth/Examples.antt =====
-- proxy/auth_manager.go on concrete users: tests, and instances of the theorems.
use rtsp_go.Base.{◌≡◌, List, [], ◌∷◌, returns, arith}
use rtsp_go.Base.Text.{Bytes, codes}
use rtsp_go.Base.Dict.{bytes_eq}
use rtsp_go.Base.Sync.{free}
use rtsp_go.Auth.{AuthManager, new_auth_manager, new_user}
use rtsp_go.Auth.Users.{IsCounted, Call, adds, removes, logs_in, calls, calls-IsCounted}

abbrev ann : Bytes
ann = codes "ann"

abbrev empty : AuthManager
empty = new_auth_manager 0

abbrev with_ann : AuthManager
with_ann = record empty { users = (ann, new_user ann (codes "pw") [] 1) ∷ [] }

abbrev session : List Call
session = adds ann (codes "pw") [] 1 ∷ logs_in ann (codes "pq") 2 ∷ removes ann ∷ []

calls-IsCounted_example :
    (after : AuthManager) × (calls session free empty ≡ returns (tt, free, after)) × IsCounted after
unfolding new_auth_manager
calls-IsCounted_example = calls-IsCounted session empty (tt, omega arith)
