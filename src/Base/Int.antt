-- ===== src/Base/Int.antt =====
-- Signed integers over the native numbers; `negsuc n` is -(n + 1).
use Prim.Native.Nat.{ℕ, zero, suc, ◌-◌, ◌%◌}
use mathlib.Core.Path.{◌≡◌, refl}
use mathlib.Core.Bool.{Bool, true, false}
use native.Mathlib.Omega.{arith}
use mathlib.Core.Logic.{◌↔◌}
use rtsp_go.Base.Tests.{ltb, leb, ◌==◌, if◌then◌else◌}

pub data ℤ : Type 0 where
  pos : ℕ → ℤ
  negsuc : ℕ → ℤ

-- a - b, as an integer.
abbrev pub sub_ℕ : ℕ → ℕ → ℤ
sub_ℕ a b = if leb b a then pos (a - b) else negsuc (b - a - 1)

-- -n, as an integer.
abbrev pub neg_ℕ : ℕ → ℤ
neg_ℕ zero = pos 0
neg_ℕ (suc n) = negsuc n

-- byte(n) of an int.
abbrev pub wrap_byte : ℤ → ℕ
wrap_byte (pos n) = n % 256
wrap_byte (negsuc n) = 255 - n % 256

-- a < b
unfoldable pub ltz : ℤ → ℤ → Bool
ltz (pos a) (pos b) = ltb a b
ltz (pos a) (negsuc b) = false
ltz (negsuc a) (pos b) = true
ltz (negsuc a) (negsuc b) = ltb b a

pub ltz_asymm : (a b : ℤ) → ltz a b ≡ true → ltz b a ≡ false
unfolding ltz
ltz_asymm (pos a) (pos b) h = ground arith
ltz_asymm (pos a) (negsuc b) h = ground arith
ltz_asymm (negsuc a) (pos b) h = refl
ltz_asymm (negsuc a) (negsuc b) h = ground arith

-- Not below is a transitive relation.
pub ltz_trans : (a b c : ℤ) → ltz a b ≡ false → ltz b c ≡ false → ltz a c ≡ false
unfolding ltz
ltz_trans (pos a) (pos b) (pos c) h k = ground arith
ltz_trans (pos a) (pos b) (negsuc c) h k = refl
ltz_trans (pos a) (negsuc b) (pos c) h k = ground arith
ltz_trans (pos a) (negsuc b) (negsuc c) h k = refl
ltz_trans (negsuc a) (pos b) (pos c) h k = ground arith
ltz_trans (negsuc a) (pos b) (negsuc c) h k = ground arith
ltz_trans (negsuc a) (negsuc b) (pos c) h k = ground arith
ltz_trans (negsuc a) (negsuc b) (negsuc c) h k = ground arith

-- a == b
unfoldable pub eqz : ℤ → ℤ → Bool
eqz (pos a) (pos b) = a == b
eqz (pos a) (negsuc b) = false
eqz (negsuc a) (pos b) = false
eqz (negsuc a) (negsuc b) = a == b

pub eqz_iff : (a b : ℤ) → (eqz a b ≡ true) ↔ (a ≡ b)
unfolding eqz
eqz_iff (pos a) (pos b) = ground arith
eqz_iff (pos a) (negsuc b) = ground arith
eqz_iff (negsuc a) (pos b) = ground arith
eqz_iff (negsuc a) (negsuc b) = ground arith
