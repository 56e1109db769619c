-- ===== src/Auth.antt =====
-- proxy/auth_manager.go: users, access statistics and the methods on them.
-- The permissions and the rules that the source reaches through pointers are values here: only the
-- manager changes a user, and a rule is not changed after it was added. The time is an argument.
pub mod Rules
pub mod Users
pub mod Header
pub mod Reports
pub mod Examples
use rtsp_go.Base.{
  ℕ, suc, ◌+◌, ◌%◌, ◌^◌, ◌*◌, ◌-◌, Bool, true, false, not, ◌&&◌, List, [], ◌∷◌, Option, none, some,
  Result, ok, err, if◌then◌else◌, length,
}
use rtsp_go.Base.Int.{ℤ}
use rtsp_go.Base.Text.{Bytes, codes, text_eq}
use rtsp_go.Base.Dict.{Dict, lookup, insert, delete, bytes_eq}
use rtsp_go.Base.Sync.{Method, pure, get, put, modify, ◌>>=◌, ◌>>◌, locked, rlocked}

pub record User : Type 0 where
  pub username : Bytes
  pub password : Bytes
  pub permissions : List Bytes
  pub created : ℕ
  pub last_login : Option ℕ
  pub active : Bool

pub record AclRule : Type 0 where
  pub id : Bytes
  pub name : Bytes
  pub path : Bytes
  pub method : Bytes
  pub source_ip : Bytes
  pub user_group : Bytes
  pub action : Bytes
  pub priority : ℤ
  pub enabled : Bool
  pub rule_created : ℕ
  pub last_modified : ℕ

pub record AuthStats : Type 0 where
  pub total_requests : ℕ
  pub allowed_requests : ℕ
  pub denied_requests : ℕ
  pub auth_failures : ℕ
  pub last_auth_time : ℕ
  pub active_users : ℕ

pub record AuthManager : Type 0 where
  pub users : Dict Bytes User
  pub acl_rules : List AclRule
  pub auth_required : Bool
  pub default_allow : Bool
  pub stats : AuthStats

pub data AuthError : Type 0 where
  user_exists user_not_found user_inactive invalid_password rule_not_found : AuthError

-- NewAuthManager at the time `now`.
pub new_auth_manager : ℕ → AuthManager
new_auth_manager now = record {
  users = [];
  acl_rules = [];
  auth_required = false;
  default_allow = true;
  stats = record {
    total_requests = 0;
    allowed_requests = 0;
    denied_requests = 0;
    auth_failures = 0;
    last_auth_time = now;
    active_users = 0;
  };
}

-- The counters are uint64: n++ and n--.
abbrev pub incr : ℕ → ℕ
incr n = (n + 1) % 2 ^ 64

abbrev pub decr : ℕ → ℕ
decr n = (n + (2 ^ 64 - 1)) % 2 ^ 64

abbrev pub new_user : Bytes → Bytes → List Bytes → ℕ → User
new_user username password permissions now = record {
  username = username;
  password = password;
  permissions = permissions;
  created = now;
  last_login = none;
  active = true;
}

pub add_unless : Option User → User → AuthManager → Result AuthError (Unit {0}) × AuthManager
add_unless (some old) user am = (err user_exists, am)
add_unless none user am = (
  ok tt,
  record am {
    users = insert user.username user am.users;
    stats = record am.stats { active_users = incr am.stats.active_users };
  },
)

-- A method that computes its value and the next state.
abbrev pub update : {A : Type 0} → (AuthManager → A × AuthManager) → Method AuthManager A
update f m am = (pure (f am).0) m (f am).1

-- AddUser
pub add_user : Bytes → Bytes → List Bytes → ℕ → Method AuthManager (Result AuthError (Unit {0}))
unfolding add_unless
add_user username password permissions now = locked (
    update
      λ am. add_unless (lookup username am.users) (new_user username password permissions now) am)

pub remove_if : Option User → Bytes → AuthManager → Result AuthError (Unit {0}) × AuthManager
remove_if none username am = (err user_not_found, am)
remove_if (some user) username am = (
  ok tt,
  record am {
    users = delete username am.users;
    stats = record am.stats { active_users = decr am.stats.active_users };
  },
)

-- RemoveUser
pub remove_user : Bytes → Method AuthManager (Result AuthError (Unit {0}))
unfolding remove_if
remove_user username = locked (update λ am. remove_if (lookup username am.users) username am)

count_failure : AuthManager → AuthManager
count_failure am = record am {
  stats = record am.stats { auth_failures = incr am.stats.auth_failures };
}

fails : AuthError → Method AuthManager (Result AuthError User)
unfolding count_failure
fails e = locked (modify count_failure) >> pure (err e)

-- user.LastLogin = now, on the object that the map holds.
set_login : Bytes → User → ℕ → AuthManager → AuthManager
set_login username user now am = record am {
  users = insert username (record user { last_login = some now }) am.users;
}

set_auth_time : ℕ → AuthManager → AuthManager
set_auth_time now am = record am { stats = record am.stats { last_auth_time = now } }

authenticate : Option User → Bytes → Bytes → ℕ → Method AuthManager (Result AuthError User)
unfolding fails set_login set_auth_time
authenticate none username password now = fails user_not_found
authenticate (some user) username password now =
    if not user.active
    then fails user_inactive
    else if not (text_eq user.password password)
    then fails invalid_password
    else (locked (modify (set_login username user now))
        >> locked (modify (set_auth_time now))
        >> pure (ok (record user { last_login = some now })))

-- AuthenticateUser; the user is read under the mutex, and judged without it.
pub authenticate_user : Bytes → Bytes → ℕ → Method AuthManager (Result AuthError User)
unfolding authenticate
authenticate_user username password now = do
  am ← rlocked get
  authenticate (lookup username am.users) username password now

-- SetAuthRequired
pub set_auth_required : Bool → Method AuthManager (Unit {0})
set_auth_required required = locked (modify λ am. record am { auth_required = required })

-- SetDefaultAllow
pub set_default_allow : Bool → Method AuthManager (Unit {0})
set_default_allow allow = locked (modify λ am. record am { default_allow = allow })

-- CreateSampleUsers
pub create_sample_users : ℕ → Method AuthManager (Unit {0})
create_sample_users now = do
  admin ← add_user (codes "admin") (codes "admin123") (codes "admin" ∷ codes "user" ∷ []) now
  user ← add_user (codes "user") (codes "user123") (codes "user" ∷ []) now
  viewer ← add_user (codes "viewer") (codes "viewer123") (codes "viewer" ∷ []) now
  pure tt
