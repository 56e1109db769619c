-- ===== src/Client/Calls/Posts.antt =====
-- client/client.go: what each request of the client leaves, when it succeeds and when it fails.
use rtsp_go.Base.{
  ℕ, ◌≡◌, refl, List, [], ◌∷◌, Option, none, some, Result, ok, err, Outcome, returns, blocks,
  panics, Bool-cases, inl, inr, Comes, Comes-bind, length, ◌>>=◌,
}
use rtsp_go.Base.Int.{pos, eqz}
use rtsp_go.Base.Text.{Bytes, codes}
use rtsp_go.Protocol.Message.{Message, print_message}
use rtsp_go.Sdp.{SessionDescription}
use rtsp_go.Sdp.Parse.{parse_sdp}
use rtsp_go.Sdp.Parse.Panics.{parse_sdp-Comes}
use rtsp_go.Reader.{ReadError}
use rtsp_go.Reader.Once.{read_once, read_once-BodyEnds}
use rtsp_go.Reader.Ends.{MessageEnds, read_with-MessageEnds}
use rtsp_go.Client.{
  RtspClient, ClientError, Called, Meeting, read_response, response_of, send_request, build_request,
  checked, ask, count_up,
}
use rtsp_go.Client.Calls.{done, options, described, describe}

-- With an error the client is left as F says, and without one as D says.
abbrev pub Post :
    (RtspClient → Type 0) → (RtspClient → Type 0) → Option ClientError × RtspClient → Type 0
Post F D (none, c) = D c
Post F D (some e, c) = F c

AnyMessage : Result ClientError Message → Type 0
AnyMessage r = Unit

response-Comes :
    (size : ℕ) (o : Outcome (Result ReadError (Message × Bytes)))
    → MessageEnds size o
    → Comes AnyMessage (o >>= λ r. returns (response_of r))
unfolding AnyMessage
response-Comes size (returns r) h = tt
response-Comes size blocks h = h
response-Comes size panics h = tt

-- sendRequest comes back.
send_request-Comes :
    (heap : ℕ) (x : Meeting) (m : Message) (c : RtspClient)
    → Comes AnyMessage (send_request heap x m c)
unfolding send_request AnyMessage read_response
send_request-Comes heap x m c = elim (Bool-cases c.connected) [
  | inr off ↦ rw off tt
  | inl on ↦ rw on (elim (Bool-cases x.write_fails) [
    | inl fails ↦ rw fails tt
    | inr written ↦ rw written (elim (Bool-cases x.flush_fails) [
      | inl fails ↦ rw fails tt
      | inr flushed ↦
          let s = x.delivers (print_message m) in
          rw flushed (
            response-Comes (length s) (read_response heap x.found s)
              (read_with-MessageEnds (read_once heap x.found) s (read_once-BodyEnds heap x.found)))
    ])
  ])
]

checked-Post :
    (F D : RtspClient → Type 0) (method : Bytes) (next : Message → RtspClient → Called)
    (c : RtspClient) (r : Result ClientError Message)
    → F c
    → ((m : Message) → Comes (Post F D) (next m c))
    → Comes (Post F D) (checked method next c r)
unfolding checked
checked-Post F D method next c (err e) f n = f
checked-Post F D method next c (ok m) f n = elim (Bool-cases (eqz m.status_code (pos 200))) [
  | inl fine ↦ rw fine (n m)
  | inr other ↦ rw other f
]

-- A method that makes a request ends as F or as what it does with the response.
pub ask-Post :
    (F D : RtspClient → Type 0) (heap : ℕ) (x : Meeting) (method : Bytes)
    (headers : List (Bytes × Bytes)) (next : Message → RtspClient → Called) (c : RtspClient)
    → F c
    → ((m : Message) → Comes (Post F D) (next m c))
    → Comes (Post F D) (ask heap x method headers next c)
unfolding ask
ask-Post F D heap x method headers next c f n =
    Comes-bind (Post F D) (send_request heap x (build_request method headers c) c)
      (checked method next c) (λ r any. checked-Post F D method next c r f n)
      (send_request-Comes heap x (build_request method headers c) c)

pub options-Post :
    (heap : ℕ) (x : Meeting) (c : RtspClient)
    → Comes (Post (λ a. a ≡ c) (λ a. a ≡ count_up c)) (options heap x c)
unfolding options done
options-Post heap x c =
    ask-Post (λ a. a ≡ c) (λ a. a ≡ count_up c) heap x (codes "OPTIONS") [] done c refl (λ m. refl)

-- The client, with one request more and a description.
abbrev pub IsDescribed : RtspClient → RtspClient → Type 0
IsDescribed c a = (d : SessionDescription) × (a ≡ count_up (record c { sdp = some d }))

pub describe-Post :
    (heap : ℕ) (x : Meeting) (c : RtspClient)
    → Comes (Post (λ a. a ≡ c) (IsDescribed c)) (describe heap x c)
unfolding describe described
describe-Post heap x c =
    ask-Post (λ a. a ≡ c) (IsDescribed c) heap x (codes "DESCRIBE")
      ((codes "Accept", codes "application/sdp") ∷ []) described c refl
      (λ m.
        Comes-bind (Post (λ a. a ≡ c) (IsDescribed c)) (parse_sdp m.body)
          (λ d. returns (none, count_up (record c { sdp = some d }))) (λ d any. (d, refl))
          (parse_sdp-Comes m.body))
