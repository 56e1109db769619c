-- ===== src/Protocol/Message/Lines.antt =====
-- rtspProtocon/protocol.go: what ParseMessage reads as a line.
use rtsp_go.Base.{ℕ, ◌≡◌, refl, ap, List, [], ◌∷◌, ◌++◌, some, arith}
use rtsp_go.Base.Text.{Bytes, join, cons_first}
use rtsp_go.Base.Text.Laws.{Lacks}
use rtsp_go.Protocol.Message.{crlf, until_lf, strip_cr, ended, read_line, cut_at}

until_lf-crlf : (l s : Bytes) → Lacks 10 l → until_lf (l ++ crlf ++ s) ≡ (l ++ 13 ∷ [], some s)
unfolding until_lf
until_lf-crlf [] s h = refl
until_lf-crlf (c ∷ l) s (hc, h) = ground (arith, until_lf-crlf l s h)

strip_cr-append : (l : Bytes) → strip_cr (l ++ 13 ∷ []) ≡ l
unfolding strip_cr
strip_cr-append [] = refl
strip_cr-append (c ∷ []) = refl
strip_cr-append (c ∷ d ∷ l) = ap (◌∷◌ c) (strip_cr-append (d ∷ l))

-- A printed line is read back, whatever follows.
pub read_line-crlf : (l s : Bytes) → Lacks 10 l → read_line (l ++ crlf ++ s) ≡ some (l, s)
unfolding read_line ended
read_line-crlf [] s h = refl
read_line-crlf (c ∷ l) s h =
    rw (until_lf-crlf (c ∷ l) s h) (ap (λ l'. some (l', s)) (strip_cr-append (c ∷ l)))

pub cut_at-append :
    (p rest : Bytes) (sep : ℕ) → Lacks sep p → cut_at (p ++ sep ∷ rest) sep ≡ some (p, rest)
unfolding cut_at
cut_at-append [] rest sep h = ground arith
cut_at-append (c ∷ p) rest sep (hc, h) = ground (arith, cut_at-append p rest sep h)

join-cons_first :
    (c sep : ℕ) (p : Bytes) (ps : List Bytes)
    → join (cons_first c (p ∷ ps)) sep ≡ c ∷ join (p ∷ ps) sep
unfolding join
join-cons_first c sep p [] = refl
join-cons_first c sep p (q ∷ ps) = refl
