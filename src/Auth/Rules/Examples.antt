-- ===== src/Auth/Rules/Examples.antt =====
-- proxy/auth_manager.go on concrete rules: tests, and instances of the theorems.
use rtsp_go.Base.{◌≡◌, refl, true, false, not, ◌&&◌, [], ◌∷◌, returns, blocks, if◌then◌else◌}
use rtsp_go.Base.Text.{Bytes, codes, text_eq, is_empty, has_prefix, contains}
use rtsp_go.Base.Int.{ltz}
use rtsp_go.Base.Dict.{bytes_eq}
use rtsp_go.Base.Sync.{free}
use rtsp_go.Auth.{AuthManager, new_auth_manager}
use rtsp_go.Auth.Rules.{
  match_ip, match_acl_rule, decide, check_access, count_access, count_total, default_rule,
  group_matches, match_parts,
}
use rtsp_go.Auth.Rules.Sorting.{IsDecision, decide-IsDecision}
use rtsp_go.Auth.Rules.Access.{check_access_lem}

abbrev ann : Bytes
ann = codes "ann"

-- A rule for everyone, below one for the local address.
abbrev guarded : AuthManager
guarded = record (new_auth_manager 0) {
  acl_rules =
      default_rule (codes "Deny All Others") [] (codes "deny") 1
      ∷ default_rule (codes "Allow Local Access") (codes "127.0.0.1") (codes "allow") 100
      ∷ [];
  auth_required = true;
}

local_allowed : decide guarded (codes "127.0.0.1") ann (codes "/a") (codes "PLAY") ≡ true
unfolding decide match_acl_rule group_matches match_ip match_parts new_auth_manager text_eq is_empty
    has_prefix contains ltz
local_allowed = refl

others_denied : decide guarded (codes "10.0.0.1") ann (codes "/a") (codes "PLAY") ≡ false
unfolding decide match_acl_rule group_matches match_ip match_parts new_auth_manager text_eq is_empty
    has_prefix contains ltz
others_denied = refl

decide-IsDecision_example :
    IsDecision
      (λ r. match_acl_rule [] r (codes "127.0.0.1") ann (codes "/a") (codes "PLAY"))
      true
      guarded.acl_rules
      (decide guarded (codes "127.0.0.1") ann (codes "/a") (codes "PLAY"))
unfolding new_auth_manager
decide-IsDecision_example =
    decide-IsDecision guarded (codes "127.0.0.1") ann (codes "/a") (codes "PLAY")

-- With a login required and a name given, the call never returns.
check_access_lem_example :
    check_access (codes "127.0.0.1") ann (codes "/a") (codes "PLAY") free guarded ≡ (
      if not true && true
      then returns (true, free, count_access true (count_total guarded))
      else if true && is_empty ann
      then returns (false, free, count_access false (count_total guarded))
      else blocks)
unfolding new_auth_manager
check_access_lem_example =
    check_access_lem (codes "127.0.0.1") ann (codes "/a") (codes "PLAY") guarded
