-- ===== src/Base/Text/Search.antt =====
-- What a text holds: bytes, and the texts that `contains` and `split` find in it.
use Prim.Native.Nat.{ℕ}
use mathlib.Core.Path.{◌≡◌, refl, ap, ◌∙◌}
use mathlib.Core.Bool.{Bool, true, false, ◌||◌, not, ◌&&◌}
use mathlib.Core.List.{List, [], ◌∷◌, ◌++◌}
use native.Mathlib.Omega.{arith}
use rtsp_go.Base.Tests.{◌==◌}
use rtsp_go.Base.Lists.{All}
use rtsp_go.Base.Text.{
  Bytes, has_prefix, contains, split, join, cons_first, is_space, trim_left, trim_right, trim_space,
}
use rtsp_go.Base.Text.Laws.{Lacks}

abbrev pub has_byte : ℕ → Bytes → Bool
has_byte c [] = false
has_byte c (d ∷ s) = d == c || has_byte c s

has_byte-has_prefix :
    (c : ℕ) (s p : Bytes) → has_prefix s (p ++ c ∷ []) ≡ true → has_byte c s ≡ true
unfolding has_prefix
has_byte-has_prefix c [] [] h = cc
has_byte-has_prefix c [] (x ∷ p) h = cc
has_byte-has_prefix c (d ∷ s) [] h = ground arith
has_byte-has_prefix c (d ∷ s) (x ∷ p) h = ground (arith, has_byte-has_prefix c s p)

-- A text that contains `p` and the byte c behind it holds c.
pub has_byte-contains :
    (c : ℕ) (s p : Bytes) → contains s (p ++ c ∷ []) ≡ true → has_byte c s ≡ true
unfolding contains
has_byte-contains c [] p h = has_byte-has_prefix c [] p h
has_byte-contains c (d ∷ s) p h =
    ground (arith, has_byte-contains c s p, has_byte-has_prefix c (d ∷ s) p)

abbrev pub is_cons : List Bytes → Bool
is_cons [] = false
is_cons (p ∷ ps) = true

abbrev pub has_two : List Bytes → Bool
has_two [] = false
has_two (p ∷ ps) = is_cons ps

is_cons-cons_first : (c : ℕ) (ps : List Bytes) → is_cons (cons_first c ps) ≡ true
is_cons-cons_first c [] = refl
is_cons-cons_first c (p ∷ ps) = refl

has_two-cons_first : (c : ℕ) (ps : List Bytes) → has_two (cons_first c ps) ≡ has_two ps
has_two-cons_first c [] = refl
has_two-cons_first c (p ∷ ps) = refl

-- A split has a first part always, and a second one if the text holds the separator.
pub is_cons-split : (s : Bytes) (sep : ℕ) → is_cons (split s sep) ≡ true
unfolding split
is_cons-split [] sep = refl
is_cons-split (c ∷ s) sep = ground (arith, is_cons-cons_first c (split s sep))

pub has_two-split : (s : Bytes) (sep : ℕ) → has_byte sep s ≡ true → has_two (split s sep) ≡ true
unfolding split
has_two-split [] sep h = cc
has_two-split (c ∷ s) sep h =
    ground (arith, is_cons-split s sep, has_two-split s sep, has_two-cons_first c (split s sep))

-- A text that lacks a byte contains no text that holds it.
has_prefix-Lacks : (c : ℕ) (s p : Bytes) → Lacks c s → has_byte c p ≡ true → has_prefix s p ≡ false
unfolding has_prefix
has_prefix-Lacks c s [] l h = cc
has_prefix-Lacks c [] (x ∷ p) l h = refl
has_prefix-Lacks c (d ∷ s) (x ∷ p) (ld, l) h = ground (arith, has_prefix-Lacks c s p l)

pub contains-Lacks : (c : ℕ) (s p : Bytes) → Lacks c s → has_byte c p ≡ true → contains s p ≡ false
unfolding contains
contains-Lacks c [] p l h = has_prefix-Lacks c [] p l h
contains-Lacks c (d ∷ s) p (ld, l) h =
    ground (arith, contains-Lacks c s p l h, has_prefix-Lacks c (d ∷ s) p (ld, l) h)

-- TrimSpace leaves a text without spaces as it is.
abbrev pub NoSpace : ℕ → Type 0
NoSpace c = is_space c ≡ false

trim_left-NoSpace : (s : Bytes) → All NoSpace s → trim_left s ≡ s
unfolding trim_left
trim_left-NoSpace [] h = refl
trim_left-NoSpace (c ∷ s) (hc, h) = rw hc

trim_right-NoSpace : (s : Bytes) → All NoSpace s → trim_right s ≡ s
unfolding trim_right
trim_right-NoSpace [] h = refl
trim_right-NoSpace (c ∷ s) (hc, h) = ground (arith, trim_right-NoSpace s h)

pub trim_space-NoSpace : (s : Bytes) → All NoSpace s → trim_space s ≡ s
unfolding trim_space
trim_space-NoSpace s h = ap trim_right (trim_left-NoSpace s h) ∙ trim_right-NoSpace s h

abbrev pub spaceless : Bytes → Bool
spaceless [] = true
spaceless (c ∷ s) = not (is_space c) && spaceless s

pub NoSpace-of_test : (s : Bytes) → spaceless s ≡ true → All NoSpace s
NoSpace-of_test [] h = tt
NoSpace-of_test (c ∷ s) h = ground (arith, NoSpace-of_test s)

join-cons_first :
    (c sep : ℕ) (ps : List Bytes) → is_cons ps ≡ true → join (cons_first c ps) sep ≡ c ∷ join ps sep
unfolding join
join-cons_first c sep [] h = cc
join-cons_first c sep (p ∷ []) h = refl
join-cons_first c sep (p ∷ q ∷ ps) h = refl

join-cons_nil :
    (sep : ℕ) (ps : List Bytes) → is_cons ps ≡ true → join ([] ∷ ps) sep ≡ sep ∷ join ps sep
unfolding join
join-cons_nil sep [] h = cc
join-cons_nil sep (p ∷ ps) h = refl

-- Joining the parts of a split gives the text again.
pub join-split : (s : Bytes) (sep : ℕ) → join (split s sep) sep ≡ s
unfolding split join
join-split [] sep = refl
join-split (c ∷ s) sep = ground (
  arith,
  join-split s sep,
  join-cons_first c sep (split s sep) (is_cons-split s sep),
  join-cons_nil sep (split s sep) (is_cons-split s sep),
)

-- A split has a second part exactly if the text holds the separator.
pub has_two-split_iff : (s : Bytes) (sep : ℕ) → has_two (split s sep) ≡ has_byte sep s
unfolding split
has_two-split_iff [] sep = refl
has_two-split_iff (c ∷ s) sep =
    ground (arith, is_cons-split s sep, has_two-split_iff s sep, has_two-cons_first c (split s sep))
