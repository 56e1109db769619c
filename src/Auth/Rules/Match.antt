-- ===== src/Auth/Rules/Match.antt =====
-- proxy/auth_manager.go: what the address patterns of matchIP match.
use rtsp_go.Base.{
  ℕ, ◌≡◌, refl, sym, ap, ap₂, ◌∙◌, subst, ◌⊎◌, inl, inr, ◌↔◌, true, false, ◌&&◌, ◌||◌, List, [],
  ◌∷◌, ◌++◌, length, ◌==◌, arith, All,
}
use rtsp_go.Base.Text.{Bytes, codes, text_eq, has_prefix, contains, split, join}
use rtsp_go.Base.Text.Laws.{text_eq_iff, Lacks, split-join}
use rtsp_go.Auth.Rules.{match_parts, match_ip}

abbrev pub star : Bytes
star = codes "*"

-- Part by part, the pattern has a star or the same text.
abbrev pub Agrees : List Bytes → List Bytes → Type 0
Agrees [] [] = Unit
Agrees [] (c ∷ cs) = ⊥
Agrees (r ∷ rs) [] = ⊥
Agrees (r ∷ rs) (c ∷ cs) = ((r ≡ star) ⊎ (r ≡ c)) × Agrees rs cs

part_iff : (r c : Bytes) → ((text_eq r star || text_eq r c) ≡ true) ↔ ((r ≡ star) ⊎ (r ≡ c))
part_iff r c = ground (arith, text_eq_iff r star, text_eq_iff r c)

match_parts_iff :
    (rs cs : List Bytes) → ((length rs == length cs && match_parts rs cs) ≡ true) ↔ Agrees rs cs
unfolding match_parts
match_parts_iff [] [] = (λ h. tt, λ h. refl)
match_parts_iff [] (c ∷ cs) = ground arith
match_parts_iff (r ∷ rs) [] = ground arith
match_parts_iff (r ∷ rs) (c ∷ cs) = ground (arith, part_iff r c, match_parts_iff rs cs)

Agrees-refl : (rs : List Bytes) → Agrees rs rs
Agrees-refl [] = tt
Agrees-refl (r ∷ rs) = (inr refl, Agrees-refl rs)

contains-star : (s : Bytes) → contains s star ≡ false → Lacks b'*' s
unfolding contains has_prefix
contains-star [] h = tt
contains-star (c ∷ s) h = ground (arith, contains-star s)

Lacks-append : (b : ℕ) (s t : Bytes) → Lacks b (s ++ t) → Lacks b s × Lacks b t
Lacks-append b [] t h = (tt, h)
Lacks-append b (c ∷ s) t (hc, h) = let (hs, ht) = Lacks-append b s t h in ((hc, hs), ht)

Lacks-join : (b sep : ℕ) (ps : List Bytes) → Lacks b (join ps sep) → All (Lacks b) ps
unfolding join
Lacks-join b sep [] h = tt
Lacks-join b sep (p ∷ []) h = (h, tt)
Lacks-join b sep (p ∷ q ∷ ps) h =
    let (hp, (hsep, rest)) = Lacks-append b p (sep ∷ join (q ∷ ps) sep) h in
    (hp, Lacks-join b sep (q ∷ ps) rest)

-- A pattern without a star agrees with itself only.
Agrees-eq : (rs cs : List Bytes) → All (Lacks b'*') rs → Agrees rs cs → rs ≡ cs
Agrees-eq [] [] l h = refl
Agrees-eq [] (c ∷ cs) l h = absurd h
Agrees-eq (r ∷ rs) [] l h = absurd h
Agrees-eq (r ∷ rs) (c ∷ cs) (lr, l) (inl is_star, h) =
    absurd ((subst (Lacks b'*') is_star lr).0 refl)
Agrees-eq (r ∷ rs) (c ∷ cs) (lr, l) (inr same, h) = ap₂ ◌∷◌ same (Agrees-eq rs cs l h)

-- matchIP, on a pattern and an address given as parts without dots: the pattern is a single star,
-- which matches everything, or the two have as many parts, and each part of the pattern is a star
-- or the part of the address in its place.
pub match_ip-join :
    (r : Bytes) (rs : List Bytes) (c : Bytes) (cs : List Bytes)
    → All (Lacks b'.') (r ∷ rs)
    → All (Lacks b'.') (c ∷ cs)
    → (match_ip (join (r ∷ rs) b'.') (join (c ∷ cs) b'.') ≡ true)
      ↔ ((join (r ∷ rs) b'.' ≡ star) ⊎ Agrees (r ∷ rs) (c ∷ cs))
unfolding match_ip
match_ip-join r rs c cs hr hc =
    let p = join (r ∷ rs) b'.' in
    let a = join (c ∷ cs) b'.' in
    let sp = split-join r rs b'.' hr in
    let sa = split-join c cs b'.' hc in
    let plain = λ (k : contains p star ≡ false) (h : Agrees (r ∷ rs) (c ∷ cs)).
      ap (λ ps. join ps b'.')
        (Agrees-eq (r ∷ rs) (c ∷ cs) (Lacks-join b'*' b'.' (r ∷ rs) (contains-star p k)) h) in
    let same = λ (e : p ≡ a).
      subst (Agrees (r ∷ rs)) (sym sp ∙ ap (λ t. split t b'.') e ∙ sa) (Agrees-refl (r ∷ rs)) in
    rw (sp, sa)
      (ground (
        arith,
        text_eq_iff p star,
        text_eq_iff p a,
        match_parts_iff (r ∷ rs) (c ∷ cs),
        plain,
        same,
      ))
