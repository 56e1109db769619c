-- ===== src/Base/Word.antt =====
-- encoding/binary's BigEndian: words of two and four bytes.
use Prim.Native.Nat.{ℕ, zero, suc, ◌+◌, ◌*◌, ◌/◌, ◌%◌, ◌^◌, ◌<◌}
use mathlib.Core.Path.{◌≡◌, refl, ap}
use mathlib.Core.List.{List, [], ◌∷◌, ◌++◌}
use native.Mathlib.Omega.{arith}
use rtsp_go.Base.Lists.{length, get_or, drop, All}

abbrev pub IsByte : ℕ → Type 0
IsByte b = b < 256

abbrev pub IsU16 : ℕ → Type 0
IsU16 w = w < 2 ^ 16

abbrev pub IsU32 : ℕ → Type 0
IsU32 w = w < 2 ^ 32

-- What a uint64 keeps of a number.
abbrev pub u64 : ℕ → ℕ
u64 n = n % 2 ^ 64

-- PutUint16, PutUint32
unfoldable pub be16 : ℕ → List ℕ
be16 w = (w / 256 % 256) ∷ (w % 256) ∷ []

unfoldable pub be32 : ℕ → List ℕ
be32 w = (w / 2 ^ 24 % 256) ∷ (w / 2 ^ 16 % 256) ∷ (w / 256 % 256) ∷ (w % 256) ∷ []

pub length-be32 : (w : ℕ) → length (be32 w) ≡ 4
unfolding be32
length-be32 w = refl

-- Uint16, Uint32 of the bytes from an index on.
unfoldable pub u16_at : List ℕ → ℕ → ℕ
u16_at bytes i = get_or bytes i 0 * 256 + get_or bytes (suc i) 0

unfoldable pub u32_at : List ℕ → ℕ → ℕ
u32_at bytes i =
    get_or bytes i 0 * 2 ^ 24
    + get_or bytes (suc i) 0 * 2 ^ 16
    + get_or bytes (suc (suc i)) 0 * 256
    + get_or bytes (suc (suc (suc i))) 0

pub u16_at-be16 :
    (pre rest : List ℕ) (w : ℕ) → IsU16 w → u16_at (pre ++ be16 w ++ rest) (length pre) ≡ w
unfolding u16_at be16
u16_at-be16 [] rest w h = omega arith
u16_at-be16 (b ∷ pre) rest w h = u16_at-be16 pre rest w h

pub u32_at-be32 :
    (pre rest : List ℕ) (w : ℕ) → IsU32 w → u32_at (pre ++ be32 w ++ rest) (length pre) ≡ w
unfolding u32_at be32
u32_at-be32 [] rest w h = omega arith
u32_at-be32 (b ∷ pre) rest w h = u32_at-be32 pre rest w h

-- Writing the word that was read gives the bytes back.
pub be16_of : (a b : ℕ) → IsByte a → IsByte b → be16 (a * 256 + b) ≡ a ∷ b ∷ []
unfolding be16
be16_of a b ha hb = ground arith

pub be32_of :
    (a b c d : ℕ)
    → IsByte a
    → IsByte b
    → IsByte c
    → IsByte d
    → be32 (a * 2 ^ 24 + b * 2 ^ 16 + c * 256 + d) ≡ a ∷ b ∷ c ∷ d ∷ []
unfolding be32
be32_of a b c d ha hb hc hd = ground arith

pub be32-u32_at :
    (k : ℕ) (bytes : List ℕ)
    → suc (suc (suc k)) < length bytes
    → All IsByte bytes
    → be32 (u32_at bytes k) ++ drop (suc (suc (suc (suc k)))) bytes ≡ drop k bytes
unfolding u32_at
be32-u32_at zero (a ∷ b ∷ c ∷ d ∷ rest) h (ha, (hb, (hc, (hd, _)))) =
    ap (λ s. s ++ rest) (be32_of a b c d ha hb hc hd)
be32-u32_at zero _ h w = absurd (omega arith)
be32-u32_at (suc k) [] h w = absurd (omega arith)
be32-u32_at (suc k) (x ∷ xs) h (_, w) = be32-u32_at k xs (omega arith) w
