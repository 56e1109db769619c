-- ===== src/Auth/Rules/Access.antt =====
-- proxy/auth_manager.go: when CheckAccess answers.
use rtsp_go.Base.{◌≡◌, true, false, not, ◌&&◌, if◌then◌else◌, returns, blocks, arith}
use rtsp_go.Base.Text.{Bytes, is_empty}
use rtsp_go.Base.Sync.{free, lock, unlock, rlock, locked, rlocked}
use rtsp_go.Auth.{AuthManager}
use rtsp_go.Auth.Rules.{answer, count_total, count_access, check_access}

-- CheckAccess, called with the mutex free. Where no login is required and the default is to allow, it
-- allows; where a login is required and no name is given, it denies; either is counted, once as a
-- request and once by its answer. In all other cases it waits for ever: it holds the read lock when
-- it asks for the write lock.
pub check_access_lem :
    (ip username path method : Bytes) (am : AuthManager)
    → check_access ip username path method free am ≡ (
        if not am.auth_required && am.default_allow
        then returns (true, free, count_access true (count_total am))
        else if am.auth_required && is_empty username
        then returns (false, free, count_access false (count_total am))
        else blocks)
unfolding check_access answer locked rlocked lock unlock rlock count_total
check_access_lem ip username path method am = ground arith
