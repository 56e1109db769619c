-- ===== src/Reader/Lines.antt =====
-- proxy/rtsp_io.go: what the reader takes for a line.
use rtsp_go.Base.{
  ℕ, suc, Option, none, ◌<◌, ◌≡◌, refl, [], ◌∷◌, ◌++◌, some, length, arith, true, false, returns,
  List,
}
use rtsp_go.Base.Text.{Bytes, is_empty}
use rtsp_go.Base.Text.Laws.{Lacks}
use rtsp_go.Protocol.Message.{crlf}
use rtsp_go.Reader.{read_string, trim_line_end, read_lines, add_line}

-- The input that a read leaves, if it does not meet the end, is shorter than `size`.
abbrev pub Leaves : ℕ → Option (Bytes × Bytes) → Type 0
Leaves size none = Unit
Leaves size (some (line, rest)) = length rest < size

-- Every line takes a byte or more.
pub read_string-Leaves : (s : Bytes) → Leaves (length s) (read_string s)
unfolding read_string
read_string-Leaves [] = tt
read_string-Leaves (c ∷ s) = ground (arith, read_string-Leaves s)

-- A printed line is read with its end, whatever follows.
pub read_string-crlf :
    (l s : Bytes) → Lacks 10 l → read_string (l ++ crlf ++ s) ≡ some (l ++ crlf, s)
unfolding read_string
read_string-crlf [] s h = refl
read_string-crlf (c ∷ l) s (hc, h) = ground (arith, read_string-crlf l s h)

pub trim_line_end-crlf : (l : Bytes) → trim_line_end (l ++ crlf) ≡ trim_line_end l
unfolding trim_line_end is_empty
trim_line_end-crlf [] = refl
trim_line_end-crlf (c ∷ l) = rw (trim_line_end-crlf l)

-- A step of the loop over a line that has text.
pub read_lines-step :
    (fuel : ℕ) (s line rest : Bytes) (lines : List Bytes) (behind : Bytes)
    → read_string s ≡ some (line, rest)
    → is_empty (trim_line_end line) ≡ false
    → read_lines fuel rest ≡ returns (some (lines, behind))
    → read_lines (suc fuel) s ≡ returns (some (trim_line_end line ∷ lines, behind))
unfolding read_lines add_line
read_lines-step fuel s line rest lines behind read text more =
    rw (read, read_lines) (rw text (rw more refl))

pub read_lines-stop :
    (fuel : ℕ) (s line rest : Bytes)
    → read_string s ≡ some (line, rest)
    → is_empty (trim_line_end line) ≡ true
    → read_lines (suc fuel) s ≡ returns (some ([], rest))
unfolding read_lines
read_lines-stop fuel s line rest read blank = rw (read, read_lines) (rw blank refl)
