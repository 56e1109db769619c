-- ===== src/Reader/Once.antt =====
-- client/client.go and server/server.go: the one Read of a body, where proxy/rtsp_io.go has ReadFull.
use rtsp_go.Base.{
  ℕ, zero, suc, ◌-◌, ◌≡◌, refl, sym, subst, [], ◌∷◌, ◌++◌, ok, err, returns, panics, if◌then◌else◌,
  length, take, drop, ltb, leb, ◌==◌, arith, length-drop,
}
use rtsp_go.Base.Text.{Bytes}
use rtsp_go.Protocol.Message.{Message, print_message}
use rtsp_go.Reader.{body_read, BodyReader, read_with}
use rtsp_go.Reader.RoundTrip.{IsCarried, read_with-print_message}
use rtsp_go.Reader.Ends.{BodyEnds}

pub zeros : ℕ → Bytes
zeros zero = []
zeros (suc n) = 0 ∷ zeros n

-- Between 1 and `most`.
pub clamp : ℕ → ℕ → ℕ
clamp most found = if leb most found then most else if found == 0 then 1 else found

-- Reader.Read into `count` bytes: one or more of them, the others staying 0; an error at the end.
pub read_once : ℕ → ℕ → BodyReader
unfolding clamp zeros
read_once heap found count s =
    let n = clamp (if leb count (length s) then count else length s) found in
    if count == 0
    then returns (ok ([], s))
    else if ltb heap count
    then panics
    else if length s == 0
    then returns (err body_read)
    else returns (ok (take n s ++ zeros (count - n), drop n s))

pub read_once-BodyEnds :
    (heap found count : ℕ) (s : Bytes) → BodyEnds (length s) (read_once heap found count s)
unfolding read_once
read_once-BodyEnds heap found count s =
    let n = clamp (if leb count (length s) then count else length s) found in
    ground (arith, length-drop {A = ℕ} n s)

-- Nothing is read of a body that is empty.
pub read_once_empty : (heap found : ℕ) (s : Bytes) → read_once heap found 0 s ≡ returns (ok ([], s))
unfolding read_once
read_once_empty heap found s = refl

-- A message that its text carries, without a body.
abbrev pub IsBare : ℕ → Message → Type 0
IsBare heap m = IsCarried heap m × (m.body ≡ [])

-- Such a message is read back, however many bytes a Read finds.
pub read_once_bare :
    (heap found : ℕ) (m : Message) (rest : Bytes)
    → IsBare heap m
    → read_with (read_once heap found) (print_message m ++ rest) ≡ returns (ok (m, rest))
read_once_bare heap found m rest ((printable, framed), bare) =
    let whole : read_once heap found (length m.body) (m.body ++ rest)
        ≡ returns (ok (m.body, rest)) =
      subst (λ b. read_once heap found (length b) (b ++ rest) ≡ returns (ok (b, rest))) (sym bare)
        (read_once_empty heap found rest) in
    read_with-print_message (read_once heap found) heap m rest printable framed whole
