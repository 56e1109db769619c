-- ===== src/Base/Text/Decimal.antt =====
-- strconv.Itoa of a number that is not negative, and strconv.Atoi into a 64-bit int.
pub mod Value
use Prim.Native.Nat.{ℕ, zero, suc, ◌+◌, ◌-◌, ◌*◌, ◌/◌, ◌%◌, ◌^◌, ◌≤◌, ◌<◌}
use mathlib.Core.Path.{◌≡◌, refl}
use mathlib.Core.Logic.{◌≢◌}
use mathlib.Core.Bool.{Bool, true, false, ◌&&◌}
use mathlib.Core.List.{[], ◌∷◌}
use mathlib.Core.Option.{Option, none, some}
use native.Mathlib.Omega.{arith}
use rtsp_go.Base.Tests.{◌==◌, leb, if◌then◌else◌}
use rtsp_go.Base.Lists.{All}
use rtsp_go.Base.Int.{ℤ, pos, negsuc, neg_ℕ}
use rtsp_go.Base.Text.{Bytes, codes}

-- The digits go in front of `out`, the last one first.
digits : ℕ → ℕ → Bytes → Bytes
digits zero n out = out
digits (suc f) n out = elim (n / 10 == 0) [
  | true ↦ (48 + n % 10) ∷ out
  | false ↦ digits f (n / 10) ((48 + n % 10) ∷ out)
]

unfoldable pub itoa : ℕ → Bytes
unfolding digits
itoa n = digits (suc n) n []

-- %d of an int.
unfoldable pub print_int : ℤ → Bytes
print_int (pos n) = itoa n
print_int (negsuc n) = b'-' ∷ itoa (suc n)

unfoldable pub is_digit : ℕ → Bool
is_digit c = leb 48 c && leb c 57

unfoldable pub scan : Bytes → ℕ → Option ℕ
unfolding is_digit
scan [] n = some n
scan (c ∷ s) n = elim (is_digit c) [ true ↦ scan s (n * 10 + (c - 48)) | false ↦ none ]

-- Digits behind a sign; `limit` is the largest magnitude that the sign allows.
unfoldable pub magnitude : Bytes → ℕ → Option ℕ
unfolding scan
magnitude [] limit = none
magnitude (c ∷ s) limit = elim (scan (c ∷ s) 0) [
  | none ↦ none
  | some n ↦ if leb n limit then some n else none
]

abbrev as_negative : Option ℕ → Option ℤ
as_negative none = none
as_negative (some n) = some (neg_ℕ n)

abbrev as_positive : Option ℕ → Option ℤ
as_positive none = none
as_positive (some n) = some (pos n)

unfoldable pub atoi : Bytes → Option ℤ
unfolding magnitude
atoi [] = none
atoi (c ∷ s) =
    if c == b'-'
    then as_negative (magnitude s (2 ^ 63))
    else if c == b'+'
    then as_positive (magnitude s (2 ^ 63 - 1))
    else as_positive (magnitude (c ∷ s) (2 ^ 63 - 1))

-- ParseUint for 64 bits: the digits up to the first overflow, which gives the largest value.
unfoldable pub scan_uint : Bytes → ℕ → Option ℕ
unfolding is_digit
scan_uint [] n = some n
scan_uint (c ∷ s) n =
    let m = n * 10 + (c - 48) in
    let rest = scan_uint s m in
    if is_digit c then (if leb (2 ^ 64) m then some (2 ^ 64 - 1) else rest) else none

-- The value behind the sign, 0 where it is no number, and `limit` where it is larger.
unfoldable pub clamped : Bytes → ℕ → ℕ
unfolding scan_uint
clamped [] limit = 0
clamped (c ∷ s) limit = elim (scan_uint (c ∷ s) 0) [
  | none ↦ 0
  | some n ↦ if leb n limit then n else limit
]

-- What strconv.ParseInt(s, 10, 64) or Atoi gives beside its error: 0, or the nearest int.
unfoldable pub parse_int_value : Bytes → ℤ
unfolding clamped
parse_int_value [] = pos 0
parse_int_value (c ∷ s) =
    if c == b'-'
    then neg_ℕ (clamped s (2 ^ 63))
    else if c == b'+'
    then pos (clamped s (2 ^ 63 - 1))
    else pos (clamped (c ∷ s) (2 ^ 63 - 1))

abbrev pub IsDigit : ℕ → Type 0
IsDigit c = (48 ≤ c) × (c ≤ 57)

digits-IsDigit : (f n : ℕ) (out : Bytes) → All IsDigit out → All IsDigit (digits f n out)
unfolding digits
digits-IsDigit zero n out h = h
digits-IsDigit (suc f) n out h =
    ground (arith, digits-IsDigit f (n / 10) ((48 + n % 10) ∷ out) ((omega arith, omega arith), h))

pub itoa-IsDigit : (n : ℕ) → All IsDigit (itoa n)
unfolding itoa
itoa-IsDigit n = digits-IsDigit (suc n) n [] tt

scan-digits : (f n : ℕ) (out : Bytes) → n < f → scan (digits f n out) 0 ≡ scan out n
unfolding digits scan
scan-digits zero n out h = absurd (omega arith)
scan-digits (suc f) n out h = ground (arith, scan-digits f (n / 10) ((48 + n % 10) ∷ out))

pub scan-itoa : (n : ℕ) → scan (itoa n) 0 ≡ some n
unfolding itoa scan
scan-itoa n = scan-digits (suc n) n [] (omega arith)

atoi_of_digits :
    (s : Bytes) (n : ℕ)
    → All IsDigit s
    → s ≢ []
    → scan s 0 ≡ some n
    → n < 2 ^ 63
    → atoi s ≡ some (pos n)
unfolding atoi
atoi_of_digits [] n d h e fits = absurd (h refl)
atoi_of_digits (c ∷ s) n (dc, ds) h e fits = ground arith

digits-ne-nil : (f n : ℕ) (out : Bytes) → out ≢ [] → digits f n out ≢ []
unfolding digits
digits-ne-nil zero n out h = h
digits-ne-nil (suc f) n out h = ground (arith, digits-ne-nil f (n / 10) ((48 + n % 10) ∷ out) (cc))

pub itoa-ne-nil : (n : ℕ) → itoa n ≢ []
unfolding itoa digits
itoa-ne-nil n = ground (arith, digits-ne-nil n (n / 10) ((48 + n % 10) ∷ []) (cc))

-- A non-negative int is read back from its decimal print.
pub atoi-itoa : (n : ℕ) → n < 2 ^ 63 → atoi (itoa n) ≡ some (pos n)
atoi-itoa n h = atoi_of_digits (itoa n) n (itoa-IsDigit n) (itoa-ne-nil n) (scan-itoa n) h

itoa_test : itoa 5000 ≡ codes "5000"
unfolding itoa
itoa_test = refl

atoi_test : (atoi (codes "-12") ≡ some (neg_ℕ 12)) × (atoi (codes "1x") ≡ none)
unfolding atoi
atoi_test = (refl, refl)
