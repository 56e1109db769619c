-- ===== src/Reader/Ends.antt =====
-- proxy/rtsp_io.go: a call of ReadMessage comes to an end, and takes bytes off the input.
use rtsp_go.Base.{
  ℕ, zero, suc, ◌≤◌, ◌<◌, ◌≡◌, refl, Option, none, some, Result, ok, err, Outcome, returns, blocks,
  panics, Bool-cases, Option-cases, inl, inr, List, length, length-drop, arith, ◌>>=◌, subst,
}
use rtsp_go.Base.Text.{Bytes, is_empty}
use rtsp_go.Protocol.Message.{Message, MessageError}
use rtsp_go.Reader.{
  ReadError, read_string, trim_line_end, read_lines, add_line, BodyReader, read_full, parsed, build,
  body_length, behind_head, read_with, read_message,
}
use rtsp_go.Reader.Lines.{Leaves, read_string-Leaves}

-- The loop over the head has ended, before the end of an input of `size` bytes or at it.
abbrev HeadEnds : ℕ → Outcome (Option (List Bytes × Bytes)) → Type 0
HeadEnds size (returns none) = Unit
HeadEnds size (returns (some (lines, rest))) = length rest < size
HeadEnds size blocks = ⊥
HeadEnds size panics = ⊥

HeadEnds-add_line :
    (size count : ℕ) (line : Bytes) (o : Outcome (Option (List Bytes × Bytes)))
    → count ≤ size
    → HeadEnds count o
    → HeadEnds size (o >>= λ more. returns (add_line line more))
unfolding add_line
HeadEnds-add_line size count line (returns none) h e = tt
HeadEnds-add_line size count line (returns (some (lines, rest))) h e = omega arith
HeadEnds-add_line size count line blocks h e = e
HeadEnds-add_line size count line panics h e = e

read_lines-HeadEnds :
    (fuel : ℕ) (s : Bytes) → length s < fuel → HeadEnds (length s) (read_lines fuel s)
unfolding read_lines
read_lines-HeadEnds zero s enough = absurd (omega arith)
read_lines-HeadEnds (suc fuel) s enough = elim (Option-cases (read_string s)) [
  | inl none_left ↦ rw (none_left, read_lines) tt
  | inr ((line, rest), read) ↦
      let fewer : length rest < length s = subst (Leaves (length s)) read (read_string-Leaves s) in
      elim (Bool-cases (is_empty (trim_line_end line))) [
        | inl blank ↦ rw (read, read_lines) (rw blank fewer)
        | inr text ↦
            rw (read, read_lines)
              (rw text (
                HeadEnds-add_line (length s) (length rest) (trim_line_end line)
                  (read_lines fuel rest) (omega arith)
                  (read_lines-HeadEnds fuel rest (omega arith))))
      ]
]

-- A body is read, or it fails, or the runtime cannot give the bytes.
abbrev pub BodyEnds : ℕ → Outcome (Result ReadError (Bytes × Bytes)) → Type 0
BodyEnds size (returns (ok (body, rest))) = length rest ≤ size
BodyEnds size (returns (err e)) = Unit
BodyEnds size blocks = ⊥
BodyEnds size panics = Unit

-- The same of a message, which takes a byte or more.
abbrev pub MessageEnds : ℕ → Outcome (Result ReadError (Message × Bytes)) → Type 0
MessageEnds size (returns (ok (m, rest))) = length rest < size
MessageEnds size (returns (err e)) = Unit
MessageEnds size blocks = ⊥
MessageEnds size panics = Unit

parsed-MessageEnds :
    (size : ℕ) (rest : Bytes) (r : Result MessageError Message)
    → length rest < size
    → MessageEnds size (returns (parsed rest r))
unfolding parsed
parsed-MessageEnds size rest (ok m) h = h
parsed-MessageEnds size rest (err e) h = tt

build-MessageEnds :
    (size count : ℕ) (lines : List Bytes) (o : Outcome (Result ReadError (Bytes × Bytes)))
    → count < size
    → BodyEnds count o
    → MessageEnds size (o >>= λ body. returns (build lines body))
unfolding build
build-MessageEnds size count lines (returns (ok (body, rest))) h e =
    parsed-MessageEnds size rest _ (omega arith)
build-MessageEnds size count lines (returns (err e')) h e = tt
build-MessageEnds size count lines blocks h e = e
build-MessageEnds size count lines panics h e = tt

behind_head-MessageEnds :
    (reader : BodyReader) (size : ℕ) (o : Outcome (Option (List Bytes × Bytes)))
    → ((count : ℕ) (s : Bytes) → BodyEnds (length s) (reader count s))
    → HeadEnds size o
    → MessageEnds size (o >>= behind_head reader)
unfolding behind_head
behind_head-MessageEnds reader size (returns none) bodies e = tt
behind_head-MessageEnds reader size (returns (some (lines, rest))) bodies e =
    build-MessageEnds size (length rest) lines (reader (body_length lines) rest) e
      (bodies (body_length lines) rest)
behind_head-MessageEnds reader size blocks bodies e = e
behind_head-MessageEnds reader size panics bodies e = absurd e

-- Whatever reads the bodies, a reader comes to an end if it does.
pub read_with-MessageEnds :
    (reader : BodyReader) (s : Bytes)
    → ((count : ℕ) (t : Bytes) → BodyEnds (length t) (reader count t))
    → MessageEnds (length s) (read_with reader s)
unfolding read_with
read_with-MessageEnds reader s bodies =
    behind_head-MessageEnds reader (length s) (read_lines (suc (length s)) s) bodies
      (read_lines-HeadEnds (suc (length s)) s (omega arith))

read_full-BodyEnds : (heap count : ℕ) (s : Bytes) → BodyEnds (length s) (read_full heap count s)
unfolding read_full
read_full-BodyEnds heap count s = ground (arith, length-drop {A = ℕ} count s)

-- On any input, the loop of ReadMessage over the lines comes to an end: the call returns a message
-- and leaves fewer bytes than there were, or it returns an error, or the runtime cannot give the
-- bytes of the body.
pub read_message-MessageEnds : (heap : ℕ) (s : Bytes) → MessageEnds (length s) (read_message heap s)
unfolding read_message
read_message-MessageEnds heap s = read_with-MessageEnds (read_full heap) s (read_full-BodyEnds heap)

-- The ways in which a call ends, with their equations.
pub data Reading (size : ℕ) (o : Outcome (Result ReadError (Message × Bytes))) : Type 0 where
  panicked : o ≡ panics → Reading size o
  failed : (e : ReadError) → o ≡ returns (err e) → Reading size o
  gave :
      (m : Message) (rest : Bytes)
      → o ≡ returns (ok (m, rest))
      → length rest < size
      → Reading size o

reading :
    (size : ℕ) (o : Outcome (Result ReadError (Message × Bytes)))
    → MessageEnds size o
    → Reading size o
reading size (returns (ok (m, rest))) h = gave m rest refl h
reading size (returns (err e)) h = failed e refl
reading size blocks h = absurd h
reading size panics h = panicked refl

pub read_message-Reading : (heap : ℕ) (s : Bytes) → Reading (length s) (read_message heap s)
read_message-Reading heap s =
    reading (length s) (read_message heap s) (read_message-MessageEnds heap s)
