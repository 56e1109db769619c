-- ===== src/Base/Text/Laws.antt =====
-- Laws of the text functions.
use Prim.Native.Nat.{ℕ}
use mathlib.Core.Path.{◌≡◌, refl, ap, ◌∙◌}
use mathlib.Core.Logic.{◌≢◌, ◌↔◌}
use mathlib.Core.Bool.{true, false}
use mathlib.Core.List.{List, [], ◌∷◌, ◌++◌}
use native.Mathlib.Omega.{arith}
use rtsp_go.Base.Lists.{All}
use rtsp_go.Base.Text.{Bytes, text_eq, has_prefix, contains, split, join, cons_first}

pub text_eq→eq : (s t : Bytes) → text_eq s t ≡ true → s ≡ t
unfolding text_eq
text_eq→eq [] [] h = refl
text_eq→eq [] (d ∷ t) h = cc
text_eq→eq (c ∷ s) [] h = cc
text_eq→eq (c ∷ s) (d ∷ t) h = ground (arith, text_eq→eq s t)

pub text_eq_refl : (s : Bytes) → text_eq s s ≡ true
unfolding text_eq
text_eq_refl [] = refl
text_eq_refl (c ∷ s) = ground (arith, text_eq_refl s)

pub text_eq_iff : (s t : Bytes) → (text_eq s t ≡ true) ↔ (s ≡ t)
text_eq_iff s t = (text_eq→eq s t, λ e. rw (← e) (text_eq_refl s))

-- A text that begins with a longer prefix begins with a shorter one.
pub has_prefix-append : (s p q : Bytes) → has_prefix s (p ++ q) ≡ true → has_prefix s p ≡ true
unfolding has_prefix
has_prefix-append s [] q h = ground arith
has_prefix-append [] (x ∷ p) q h = h
has_prefix-append (c ∷ s) (x ∷ p) q h = ground (arith, has_prefix-append s p q)

pub contains-append : (s p q : Bytes) → contains s (p ++ q) ≡ true → contains s p ≡ true
unfolding contains
contains-append [] p q h = has_prefix-append [] p q h
contains-append (c ∷ s) p q h = ground (arith, contains-append s p q, has_prefix-append (c ∷ s) p q)

-- No part of a split holds the separator.
abbrev pub Lacks : ℕ → Bytes → Type 0
Lacks b = All (λ c. c ≢ b)

cons_first-Lacks :
    (c sep : ℕ) (ps : List Bytes) → c ≢ sep → All (Lacks sep) ps → All (Lacks sep) (cons_first c ps)
cons_first-Lacks c sep [] h hs = ((h, tt), tt)
cons_first-Lacks c sep (p ∷ ps) h (hp, hs) = ((h, hp), hs)

pub split-Lacks : (s : Bytes) (sep : ℕ) → All (Lacks sep) (split s sep)
unfolding split
split-Lacks [] sep = (tt, tt)
split-Lacks (c ∷ s) sep = ground (arith, split-Lacks s sep, cons_first-Lacks c sep (split s sep))

pub split-Lacks_self : (s : Bytes) (sep : ℕ) → Lacks sep s → split s sep ≡ s ∷ []
unfolding split
split-Lacks_self [] sep h = refl
split-Lacks_self (c ∷ s) sep (hc, hs) = ground (arith, split-Lacks_self s sep hs)

-- The part before the first separator.
pub split-append :
    (p rest : Bytes) (sep : ℕ) → Lacks sep p → split (p ++ sep ∷ rest) sep ≡ p ∷ split rest sep
unfolding split
split-append [] rest sep h = ground arith
split-append (c ∷ p) rest sep (hc, hp) = ground (arith, split-append p rest sep hp)

pub split-join :
    (p : Bytes) (ps : List Bytes) (sep : ℕ)
    → All (Lacks sep) (p ∷ ps)
    → split (join (p ∷ ps) sep) sep ≡ p ∷ ps
unfolding join
split-join p [] sep (hp, _) = split-Lacks_self p sep hp
split-join p (q ∷ ps) sep (hp, hs) =
    split-append p (join (q ∷ ps) sep) sep hp ∙ ap (◌∷◌ p) (split-join q ps sep hs)

pub ne_of_test : (s t : Bytes) → text_eq s t ≡ false → s ≢ t
ne_of_test s t h e = ground (arith, text_eq_iff s t)
