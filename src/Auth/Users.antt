-- ===== src/Auth/Users.antt =====
-- proxy/auth_manager.go: the users' table and the count of users, and who can log in.
use rtsp_go.Base.{
  ℕ, ◌%◌, ◌^◌, ◌≡◌, refl, ap, ◌∙◌, Bool, true, List, [], ◌∷◌, none, some, ok, err, Outcome, returns,
  if◌then◌else◌, length, arith, Option-cases, Bool-cases, inl, inr,
}
use rtsp_go.Base.Text.{Bytes, text_eq}
use rtsp_go.Base.Dict.{lookup, bytes_eq, lookup-insert_self, lookup-delete_self}
use rtsp_go.Base.Dict.Keys.{
  Distinct, length-insert_new, length-insert_old, length-delete, Distinct-insert, Distinct-delete,
}
use rtsp_go.Base.Sync.{
  RwMutex, free, Method, pure, ◌>>=◌, ◌>>◌, locked, rlocked, lock, unlock, rlock, runlock,
  result_of, feed,
}
use rtsp_go.Auth.{
  User, AuthManager, user_not_found, invalid_password, new_user, add_unless, add_user, remove_if,
  remove_user, count_failure, fails, set_login, set_auth_time, authenticate, authenticate_user,
  set_auth_required, set_default_allow,
}

-- On a manager that has no user of this name, and with the mutex free: a user who was just added
-- logs in with the password given then, and with no other, and the mutex is free again.
pub add_user-authenticate_user :
    (name p q : Bytes) (permissions : List Bytes) (t t' : ℕ) (am : AuthManager)
    → lookup name am.users ≡ none
    → result_of ((add_user name p permissions t >>= λ r. authenticate_user name q t') free am)
      ≡ some (
        (if text_eq p q
            then ok (record (new_user name p permissions t) { last_login = some t' })
            else err invalid_password),
        free,
      )
unfolding add_user add_unless authenticate_user authenticate fails locked rlocked lock unlock rlock
    runlock
add_user-authenticate_user name p q permissions t t' am fresh =
    let user = new_user name p permissions t in
    rw fresh (
      rw (lookup-insert_self name user am.users)
        (elim (Bool-cases (text_eq p q)) [ inl right ↦ rw right refl | inr wrong ↦ rw wrong refl ]))

-- A user of the table who was just removed, with the mutex free, cannot log in: the error is that
-- there is no such user, and the mutex is free again.
pub remove_user-authenticate_user :
    (name q : Bytes) (user : User) (t : ℕ) (am : AuthManager)
    → lookup name am.users ≡ some user
    → result_of ((remove_user name >>= λ r. authenticate_user name q t) free am)
      ≡ some (err user_not_found, free)
unfolding remove_user remove_if authenticate_user authenticate fails locked rlocked lock unlock
    rlock runlock
remove_user-authenticate_user name q user t am known =
    rw known (rw (lookup-delete_self name am.users) refl)

-- A name has one entry, and ActiveUsers is the number of entries, as a uint64.
abbrev pub IsCounted : AuthManager → Type 0
IsCounted am = Distinct am.users × (am.stats.active_users ≡ length am.users % 2 ^ 64)

pub data Call : Type 0 where
  adds : (name password : Bytes) → List Bytes → ℕ → Call
  removes : (name : Bytes) → Call
  logs_in : (name password : Bytes) → ℕ → Call
  requires_login allows_by_default : Bool → Call

-- The call, without what it returns.
pub call : Call → Method AuthManager (Unit {0})
call (adds name password permissions t) = do r ← add_user name password permissions t; pure tt
call (removes name) = do r ← remove_user name; pure tt
call (logs_in name password t) = do r ← authenticate_user name password t; pure tt
call (requires_login b) = set_auth_required b
call (allows_by_default b) = set_default_allow b

-- A call returns, with the mutex free and a state that is counted.
abbrev Counts : Outcome (Unit {0} × RwMutex × AuthManager) → Type 0
Counts o = (after : AuthManager) × (o ≡ returns (tt, free, after)) × IsCounted after

add_counts :
    (user : User) (am : AuthManager)
    → IsCounted am
    → IsCounted (add_unless (lookup user.username am.users) user am).1
unfolding add_unless
add_counts user am (d, n) = elim (Option-cases (lookup user.username am.users)) [
  | inr h ↦ rw (h.1) (d, n)
  | inl absent ↦
      let len = length-insert_new user.username user am.users absent in
      rw absent (Distinct-insert user.username user am.users d, omega arith)
]

remove_counts :
    (name : Bytes) (am : AuthManager)
    → IsCounted am
    → IsCounted (remove_if (lookup name am.users) name am).1
unfolding remove_if
remove_counts name am (d, n) = elim (Option-cases (lookup name am.users)) [
  | inl absent ↦ rw absent (d, n)
  | inr h ↦
      let (user, known) = h in
      let len = length-delete name user am.users d known in
      rw known (Distinct-delete name am.users d, omega arith)
]

login_counts :
    (name : Bytes) (user user' : User) (t : ℕ) (am : AuthManager)
    → lookup name am.users ≡ some user
    → IsCounted am
    → IsCounted (set_auth_time t (set_login name user' t am))
unfolding set_auth_time set_login
login_counts name user user' t am known (d, n) =
    let len = length-insert_old name (record user' { last_login = some t }) user am.users known in
    (Distinct-insert name _ am.users d, omega arith)

authenticate-Counts :
    (name password : Bytes) (t : ℕ) (am : AuthManager)
    → IsCounted am
    → Counts ((authenticate_user name password t >>= λ r. pure tt) free am)
unfolding authenticate_user authenticate fails count_failure set_login set_auth_time locked rlocked
    lock unlock rlock runlock
authenticate-Counts name password t am (d, n) = elim (Option-cases (lookup name am.users)) [
  | inl absent ↦ rw absent (_, refl, (d, n))
  | inr h ↦
      let (user, known) = h in
      rw known (elim (Bool-cases user.active) [
        | inr idle ↦ rw idle (_, refl, (d, n))
        | inl is_active ↦ rw is_active (elim (Bool-cases (text_eq user.password password)) [
          | inr wrong ↦ rw wrong (_, refl, (d, n))
          | inl right ↦
              rw right
                (_, refl, login_counts name user (record user { active = true }) t am known (d, n))
        ])
      ])
]

call-Counts : (c : Call) (am : AuthManager) → IsCounted am → Counts (call c free am)
unfolding call add_user remove_user set_auth_required set_default_allow locked lock unlock
call-Counts (adds name password permissions t) am h =
    (_, refl, add_counts (new_user name password permissions t) am h)
call-Counts (removes name) am h = (_, refl, remove_counts name am h)
call-Counts (logs_in name password t) am h = authenticate-Counts name password t am h
call-Counts (requires_login b) am h = (_, refl, h)
call-Counts (allows_by_default b) am h = (_, refl, h)

pub calls : List Call → Method AuthManager (Unit {0})
calls [] = pure tt
calls (c ∷ cs) = do call c; calls cs

-- Any sequence of calls of AddUser, RemoveUser, AuthenticateUser, SetAuthRequired and SetDefaultAllow
-- on a manager whose users are counted returns, with the mutex free, and leaves a manager whose users
-- are counted: ActiveUsers is the number of users, modulo 2^64, and a name has one user.
pub calls-IsCounted :
    (cs : List Call) (am : AuthManager)
    → IsCounted am
    → (after : AuthManager) × (calls cs free am ≡ returns (tt, free, after)) × IsCounted after
unfolding calls
calls-IsCounted [] am h = (am, refl, h)
calls-IsCounted (c ∷ cs) am h =
    let (after, run, good) = call-Counts c am h in
    let (end, rest, fine) = calls-IsCounted cs after good in (end, ap (feed _) run ∙ rest, fine)
