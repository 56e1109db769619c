-- ===== src/Auth/Rules/Sorting.antt =====
-- proxy/auth_manager.go: the sort of the rules in CheckAccess, and the decision that follows.
use rtsp_go.Base.{
  ℕ, zero, suc, ◌≤◌, ◌≡◌, refl, sym, ap, ◌∙◌, subst, ◌⊎◌, inl, inr, Bool, true, false, ◌&&◌, List,
  [], ◌∷◌, if◌then◌else◌, length, arith, All, Bool-cases,
}
use rtsp_go.Base.Int.{ltz, ltz_asymm, ltz_trans}
use rtsp_go.Base.Text.{Bytes, codes, text_eq}
use rtsp_go.Auth.{AclRule, AuthManager}
use rtsp_go.Auth.Rules.{exchange, sort_from, sort_rules, first_match, match_acl_rule, decide}
use mathlib.Core.List.{Permᴰ, Memᴰ}
use mathlib.Core.List.Permᴰ

-- No rule in the list comes before x.
abbrev pub Leads : AclRule → List AclRule → Type 0
Leads x = All λ y. ltz x.priority y.priority ≡ false

-- From the highest priority down.
abbrev pub Descends : List AclRule → Type 0
Descends [] = Unit
Descends (x ∷ xs) = Leads x xs × Descends xs

ltz_irrefl : (x : AclRule) → ltz x.priority x.priority ≡ false
ltz_irrefl x = ground (arith, ltz_asymm x.priority x.priority)

Leads-of :
    (x y : AclRule) (ys : List AclRule)
    → ltz x.priority y.priority ≡ false
    → Leads y ys
    → Leads x ys
Leads-of x y [] h t = tt
Leads-of x y (z ∷ zs) h (yz, t) =
    (ltz_trans x.priority y.priority z.priority h yz, Leads-of x y zs h t)

-- What the inner loop should give.
abbrev Exchanged : AclRule → List AclRule → AclRule × List AclRule → Type 0
Exchanged x ys r =
    (ltz r.0.priority x.priority ≡ false)
    × Leads r.0 r.1
    × Permᴰ (x ∷ ys) (r.0 ∷ r.1)
    × (length r.1 ≡ length ys)

exchange_lem : (x : AclRule) (ys : List AclRule) → Exchanged x ys (exchange x ys)
unfolding exchange
exchange_lem x [] = (ltz_irrefl x, tt, Permᴰ.refl (x ∷ []), refl)
exchange_lem x (y ∷ ys) = elim (Bool-cases (ltz x.priority y.priority)) [
  | inl below ↦
      let (top, leads, perm, len) = exchange_lem y ys in
      let above = ltz_trans _ _ _ top (ltz_asymm x.priority y.priority below) in
      rw below (
        above,
        (above, leads),
        Permᴰ.trans (Permᴰ.cons refl perm) (Permᴰ.swap refl refl),
        ap suc len,
      )
  | inr not_below ↦
      let (top, leads, perm, len) = exchange_lem x ys in
      rw not_below (
        top,
        (ltz_trans _ _ _ top not_below, leads),
        Permᴰ.trans (Permᴰ.swap refl refl)
            (Permᴰ.trans (Permᴰ.cons refl perm) (Permᴰ.swap refl refl)),
        ap suc len,
      )
]

All-Permᴰ : (P : AclRule → Type 0) {xs ys : List AclRule} → Permᴰ xs ys → All P xs → All P ys
All-Permᴰ P Permᴰ.nil h = h
All-Permᴰ P (Permᴰ.cons e d) (p, h) = (subst P e p, All-Permᴰ P d h)
All-Permᴰ P (Permᴰ.swap e f) (p, (q, h)) = (subst P f q, (subst P e p, h))
All-Permᴰ P (Permᴰ.trans d e) h = All-Permᴰ P e (All-Permᴰ P d h)

Memᴰ-Permᴰ : {x : AclRule} {xs ys : List AclRule} → Permᴰ xs ys → Memᴰ x xs → Memᴰ x ys
Memᴰ-Permᴰ Permᴰ.nil m = m
Memᴰ-Permᴰ (Permᴰ.cons e d) (Memᴰ.head h) = Memᴰ.head (h ∙ e)
Memᴰ-Permᴰ (Permᴰ.cons e d) (Memᴰ.tail m) = Memᴰ.tail (Memᴰ-Permᴰ d m)
Memᴰ-Permᴰ (Permᴰ.swap e f) (Memᴰ.head h) = Memᴰ.tail (Memᴰ.head (h ∙ e))
Memᴰ-Permᴰ (Permᴰ.swap e f) (Memᴰ.tail (Memᴰ.head h)) = Memᴰ.head (h ∙ f)
Memᴰ-Permᴰ (Permᴰ.swap e f) (Memᴰ.tail (Memᴰ.tail m)) = Memᴰ.tail (Memᴰ.tail m)
Memᴰ-Permᴰ (Permᴰ.trans d e) m = Memᴰ-Permᴰ e (Memᴰ-Permᴰ d m)

sort_from_lem :
    (n : ℕ) (xs : List AclRule)
    → length xs ≤ n
    → Descends (sort_from n xs) × Permᴰ xs (sort_from n xs)
unfolding sort_from
sort_from_lem zero [] h = (tt, Permᴰ.nil)
sort_from_lem zero (x ∷ xs) h = absurd (omega arith)
sort_from_lem (suc n) [] h = (tt, Permᴰ.nil)
sort_from_lem (suc n) (x ∷ xs) h =
    let (top, leads, perm, len) = exchange_lem x xs in
    let (down, sorted) = sort_from_lem n (exchange x xs).1 (omega arith) in
    (
      (All-Permᴰ (λ y. ltz (exchange x xs).0.priority y.priority ≡ false) sorted leads, down),
      Permᴰ.trans perm (Permᴰ.cons refl sorted),
    )

-- The sort gives the same rules, from the highest priority down.
pub sort_rules_lem :
    (rules : List AclRule) → Descends (sort_rules rules) × Permᴰ rules (sort_rules rules)
unfolding sort_rules
sort_rules_lem rules = sort_from_lem (length rules) rules (omega arith)

-- How a decision should come about: the action of an enabled rule that matches, and no such rule has
-- a higher priority; or the default, where no enabled rule matches.
abbrev pub IsDecision : (AclRule → Bool) → Bool → List AclRule → Bool → Type 0
IsDecision test default rules allowed =
    (All (λ r. (r.enabled && test r) ≡ false) rules × (allowed ≡ default))
    ⊎ ((r : AclRule) × Memᴰ r rules
        × ((r.enabled && test r) ≡ true)
        × All (λ s. (s.enabled && test s && ltz r.priority s.priority) ≡ false) rules
        × (allowed ≡ text_eq r.action (codes "allow")))

Leads-weaken :
    (test : AclRule → Bool) (x : AclRule) (ys : List AclRule)
    → Leads x ys
    → All (λ s. (s.enabled && test s && ltz x.priority s.priority) ≡ false) ys
Leads-weaken test x [] h = tt
Leads-weaken test x (y ∷ ys) (xy, h) = (ground arith, Leads-weaken test x ys h)

first_match_lem :
    (test : AclRule → Bool) (default : Bool) (rules : List AclRule)
    → Descends rules
    → IsDecision test default rules (first_match test default rules)
unfolding first_match
first_match_lem test default [] h = inl (tt, refl)
first_match_lem test default (r ∷ rs) (leads, down) =
    let rest = first_match test default rs in
    elim (Bool-cases (r.enabled && test r)) [
      | inl hit ↦
          let top = ltz_irrefl r in
          subst
            (λ b.
              IsDecision test default (r ∷ rs)
                (if b then text_eq r.action (codes "allow") else rest))
            (sym hit)
            (inr (r, Memᴰ.head refl, hit, (ground arith, Leads-weaken test r rs leads), refl))
      | inr miss ↦
          subst
            (λ b.
              IsDecision test default (r ∷ rs)
                (if b then text_eq r.action (codes "allow") else rest))
            (sym miss)
            (elim (first_match_lem test default rs down) [
              | inl h ↦ inl ((miss, h.0), h.1)
              | inr h ↦
                  let (s, m, hit, others, same) = h in
                  inr (s, Memᴰ.tail m, hit, (ground arith, others), same)
            ])
    ]

-- What CheckAccess would answer once it reads the rules: the action of an enabled rule that matches
-- the request and that has the highest priority of all such rules, or the default policy, where no
-- enabled rule matches.
pub decide-IsDecision :
    (am : AuthManager) (ip username path method : Bytes)
    → IsDecision
        (λ r. match_acl_rule am.users r ip username path method)
        am.default_allow
        am.acl_rules
        (decide am ip username path method)
unfolding decide
decide-IsDecision am ip username path method =
    let test = λ (r : AclRule). match_acl_rule am.users r ip username path method in
    let (down, perm) = sort_rules_lem am.acl_rules in
    let back = Permᴰ.symm perm in
    elim (first_match_lem test am.default_allow (sort_rules am.acl_rules) down) [
      | inl h ↦ inl (All-Permᴰ _ back h.0, h.1)
      | inr h ↦
          let (r, m, hit, others, same) = h in
          inr (r, Memᴰ-Permᴰ back m, hit, All-Permᴰ _ back others, same)
    ]
