-- ===== src/Base/Report.antt =====
-- The maps of strings to values of any type that the GetStats methods give. A time stands for its
-- text in RFC 3339, and a ratio for the float64 that its two numbers give.
use Prim.Native.Nat.{ℕ}
use mathlib.Core.Bool.{Bool}
use mathlib.Core.List.{List, [], ◌∷◌}
use rtsp_go.Base.Int.{ℤ}
use rtsp_go.Base.Text.{Bytes}

mutual
  pub data Value : Type 0 where
    count : ℕ → Value
    text : Bytes → Value
    flag : Bool → Value
    moment : ℕ → Value
    number : ℤ → Value
    ratio : ℕ × ℕ → Value
    section : Report → Value

  pub data Report : Type 0 where
    end : Report
    field : Bytes → Value → Report → Report

-- The fields of a list, in its order.
abbrev pub report : List (Bytes × Value) → Report
report [] = end
report ((key, value) ∷ fields) = field key value (report fields)

-- More fields behind those of a report.
unfoldable pub extend : Report → List (Bytes × Value) → Report
extend end more = report more
extend (field key value rest) more = field key value (extend rest more)
