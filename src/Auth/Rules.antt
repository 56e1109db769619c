-- ===== src/Auth/Rules.antt =====
-- proxy/auth_manager.go: the access rules, and CheckAccess.
pub mod Sorting
pub mod Match
pub mod Access
pub mod Examples
use rtsp_go.Base.{
  ℕ, zero, suc, ◌+◌, ◌%◌, ◌^◌, Bool, true, false, not, ◌&&◌, ◌||◌, List, [], ◌∷◌, ◌++◌, Option,
  none, some, Result, ok, err, if◌then◌else◌, length, ◌==◌,
}
use rtsp_go.Base.Int.{ℤ, pos, ltz}
use rtsp_go.Base.Text.{Bytes, codes, text_eq, is_empty, has_prefix, contains, split}
use rtsp_go.Base.Text.Decimal.{itoa}
use rtsp_go.Base.Dict.{Dict, lookup, bytes_eq}
use rtsp_go.Base.Sync.{Method, pure, get, modify, ◌>>=◌, ◌>>◌, locked, rlocked}
use rtsp_go.Auth.{User, AclRule, AuthStats, AuthManager, AuthError, rule_not_found, incr, update}

-- AddACLRule at the time `now`, in nanoseconds.
pub add_acl_rule : AclRule → ℕ → Method AuthManager (Result AuthError (Unit {0}))
add_acl_rule rule now = locked (
    modify (λ am. record am {
      acl_rules =
          am.acl_rules
          ++ record rule { id = codes "rule-" ++ itoa now; rule_created = now; last_modified = now }
            ∷ [];
    })
    >> pure (ok tt))

-- The first rule of the list with this ID is cut out; none, where there is no such rule.
pub cut_rule : Bytes → List AclRule → Option (List AclRule)
cut_rule rule_id [] = none
cut_rule rule_id (r ∷ rs) =
    let rest = cut_rule rule_id rs in
    if text_eq r.id rule_id then some rs else elim rest [ none ↦ none | some rs' ↦ some (r ∷ rs') ]

removed : Option (List AclRule) → AuthManager → Result AuthError (Unit {0}) × AuthManager
removed none am = (err rule_not_found, am)
removed (some rs) am = (ok tt, record am { acl_rules = rs })

-- RemoveACLRule
pub remove_acl_rule : Bytes → Method AuthManager (Result AuthError (Unit {0}))
unfolding removed
remove_acl_rule rule_id = locked (update λ am. removed (cut_rule rule_id am.acl_rules) am)

-- The inner loop of the sort, on the rule at i and those after it: whenever the rule at i has the
-- lower priority, it changes places with the rule at j.
pub exchange : AclRule → List AclRule → AclRule × List AclRule
exchange x [] = (x, [])
exchange x (y ∷ ys) =
    if ltz x.priority y.priority
    then (let r = exchange y ys in (r.0, x ∷ r.1))
    else (let r = exchange x ys in (r.0, y ∷ r.1))

-- The outer loop, for `n` places.
pub sort_from : ℕ → List AclRule → List AclRule
unfolding exchange
sort_from zero rules = rules
sort_from (suc n) [] = []
sort_from (suc n) (x ∷ xs) = let r = exchange x xs in r.0 ∷ sort_from n r.1

pub sort_rules : List AclRule → List AclRule
unfolding sort_from
sort_rules rules = sort_from (length rules) rules

match_parts : List Bytes → List Bytes → Bool
match_parts [] client = true
match_parts (r ∷ rs) [] = false
match_parts (r ∷ rs) (c ∷ cs) = (text_eq r (codes "*") || text_eq r c) && match_parts rs cs

-- matchIP
pub match_ip : Bytes → Bytes → Bool
unfolding match_parts
match_ip rule_ip client_ip =
    if text_eq rule_ip (codes "*") || text_eq rule_ip client_ip
    then true
    else if contains rule_ip (codes "*")
    then (let rule_parts = split rule_ip b'.' in
        let client_parts = split client_ip b'.' in
        length rule_parts == length client_parts && match_parts rule_parts client_parts)
    else false

-- userInGroup
pub user_in_group : List Bytes → Bytes → Bool
user_in_group [] group = false
user_in_group (p ∷ ps) group = text_eq p group || user_in_group ps group

group_matches : Option User → Bytes → Bool
group_matches none group = false
group_matches (some user) group = user_in_group user.permissions group

-- matchACLRule
pub match_acl_rule : Dict Bytes User → AclRule → Bytes → Bytes → Bytes → Bytes → Bool
unfolding group_matches
match_acl_rule users rule client_ip username path method =
    (is_empty rule.path || has_prefix path rule.path)
    && (is_empty rule.method || text_eq rule.method method)
    && (is_empty rule.source_ip || match_ip rule.source_ip client_ip)
    && (is_empty rule.user_group || group_matches (lookup username users) rule.user_group)

-- The loop over the sorted rules: the first enabled rule that matches, or the default policy.
pub first_match : (AclRule → Bool) → Bool → List AclRule → Bool
first_match test default [] = default
first_match test default (r ∷ rs) =
    if r.enabled && test r then text_eq r.action (codes "allow") else first_match test default rs

pub decide : AuthManager → Bytes → Bytes → Bytes → Bytes → Bool
unfolding first_match sort_rules
decide am client_ip username path method =
    first_match (λ r. match_acl_rule am.users r client_ip username path method) am.default_allow
      (sort_rules am.acl_rules)

-- Stats.TotalRequests++ and the like.
pub count_total : AuthManager → AuthManager
count_total am = record am {
  stats = record am.stats { total_requests = incr am.stats.total_requests };
}

pub count_access : Bool → AuthManager → AuthManager
count_access true am = record am {
  stats = record am.stats { allowed_requests = incr am.stats.allowed_requests };
}
count_access false am = record am {
  stats = record am.stats { denied_requests = incr am.stats.denied_requests };
}

answer : Bool → Method AuthManager Bool
answer allowed = locked (modify (count_access allowed)) >> pure allowed

-- CheckAccess; the counters are changed under the write lock, also while the read lock is held.
pub check_access : Bytes → Bytes → Bytes → Bytes → Method AuthManager Bool
unfolding answer
check_access client_ip username path method = do
  locked (modify count_total)
  am ← get
  if not am.auth_required && am.default_allow
      then answer true
      else if am.auth_required && is_empty username
      then answer false
      else rlocked (do am ← get; answer (decide am client_ip username path method))

-- CreateDefaultACLRules; both rules are added at about the same time.
abbrev pub default_rule : Bytes → Bytes → Bytes → ℕ → AclRule
default_rule name source_ip action priority = record {
  id = [];
  name = name;
  path = [];
  method = [];
  source_ip = source_ip;
  user_group = [];
  action = action;
  priority = pos priority;
  enabled = true;
  rule_created = 0;
  last_modified = 0;
}

pub create_default_acl_rules : ℕ → ℕ → Method AuthManager (Unit {0})
create_default_acl_rules now later = do
  a ←
      add_acl_rule
        (default_rule (codes "Allow Local Access") (codes "127.0.0.1") (codes "allow") 100) now
  d ← add_acl_rule (default_rule (codes "Deny All Others") [] (codes "deny") 1) later
  pure tt
