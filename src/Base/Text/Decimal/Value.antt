-- ===== src/Base/Text/Decimal/Value.antt =====
-- The values of printed ints that strconv.ParseInt gives.
use Prim.Native.Nat.{ℕ, ◌+◌, ◌-◌, ◌*◌, ◌^◌, ◌≤◌, ◌<◌}
use mathlib.Core.Path.{◌≡◌, refl}
use mathlib.Core.Logic.{◌≢◌}
use mathlib.Core.List.{[], ◌∷◌}
use mathlib.Core.Option.{some}
use native.Mathlib.Omega.{arith}
use rtsp_go.Base.Lists.{All}
use rtsp_go.Base.Int.{pos}
use rtsp_go.Base.Text.{Bytes}
use rtsp_go.Base.Text.Decimal.{
  itoa, scan, scan_uint, clamped, parse_int_value, IsDigit, itoa-IsDigit, scan-itoa, itoa-ne-nil,
}

scan-le : (s : Bytes) (k n : ℕ) → scan s k ≡ some n → k ≤ n
unfolding scan
scan-le [] k n h = ground arith
scan-le (c ∷ s) k n h = ground (arith, scan-le s (k * 10 + (c - 48)) n)

scan_uint-scan : (s : Bytes) (k n : ℕ) → scan s k ≡ some n → n < 2 ^ 64 → scan_uint s k ≡ some n
unfolding scan scan_uint
scan_uint-scan [] k n h small = h
scan_uint-scan (c ∷ s) k n h small =
    let m = k * 10 + (c - 48) in ground (arith, scan_uint-scan s m n, scan-le s m n)

value_of_digits :
    (s : Bytes) (n : ℕ)
    → All IsDigit s
    → s ≢ []
    → scan s 0 ≡ some n
    → n < 2 ^ 63
    → parse_int_value s ≡ pos n
unfolding parse_int_value clamped
value_of_digits [] n d h e fits = absurd (h refl)
value_of_digits (c ∷ s) n (dc, ds) h e fits =
    ground (arith, scan_uint-scan (c ∷ s) 0 n e (omega arith))

-- A printed int that is not negative has its value.
pub parse_int_value-itoa : (n : ℕ) → n < 2 ^ 63 → parse_int_value (itoa n) ≡ pos n
parse_int_value-itoa n h =
    value_of_digits (itoa n) n (itoa-IsDigit n) (itoa-ne-nil n) (scan-itoa n) h
