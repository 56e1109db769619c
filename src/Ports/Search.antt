-- ===== src/Ports/Search.antt =====
-- rtspProtocon/port_manager.go: the search loops find the first port that passes their test.
use rtsp_go.Base.{
  ℕ, zero, suc, ◌+◌, ◌*◌, ◌≤◌, ◌<◌, ◌≡◌, ap, ◌∙◌, Bool, true, false, Option, none, some, arith, leb,
  leb→le, leb-false, Bool-cases, inl, inr,
}
use rtsp_go.Ports.{search}

-- What a search from `port` should find: the first port of the sequence port, port + stride, … up to
-- `last` that passes, or none if none passes.
abbrev pub IsFirst : (ℕ → Bool) → ℕ → ℕ → ℕ → Option ℕ → Type 0
IsFirst test stride last port none =
    (k : ℕ) → port + k * stride ≤ last → test (port + k * stride) ≡ false
IsFirst test stride last port (some q) =
    (k : ℕ) × (q ≡ port + k * stride)
    × (q ≤ last)
    × (test q ≡ true)
    × ((j : ℕ) → j < k → test (port + j * stride) ≡ false)

step_over :
    (test : ℕ → Bool) (stride last port : ℕ) (o : Option ℕ)
    → test port ≡ false
    → IsFirst test stride last (port + stride) o
    → IsFirst test stride last port o
step_over test stride last port none miss h = none_from
  where
    none_from : (k : ℕ) → port + k * stride ≤ last → test (port + k * stride) ≡ false
    none_from zero hk = ap test (omega arith) ∙ miss
    none_from (suc k) hk = ap test (omega arith) ∙ h k (omega arith)
step_over test stride last port (some q) miss (k, at, fits, pass, before) =
    (suc k, omega arith, fits, pass, earlier)
  where
    earlier : (j : ℕ) → j < suc k → test (port + j * stride) ≡ false
    earlier zero hj = ap test (omega arith) ∙ miss
    earlier (suc j) hj = ap test (omega arith) ∙ before j (omega arith)

past_end :
    (test : ℕ → Bool) (stride last port : ℕ) → last < port → IsFirst test stride last port none
past_end test stride last port h k hk = absurd (omega arith)

-- With fuel for every port up to `last` and a positive stride the search is exact.
pub search-IsFirst :
    (test : ℕ → Bool) (stride last fuel port : ℕ)
    → 0 < stride
    → last < port + fuel
    → IsFirst test stride last port (search test stride last fuel port)
unfolding search
search-IsFirst test stride last zero port hs hf = past_end test stride last port (omega arith)
search-IsFirst test stride last (suc fuel) port hs hf = elim (Bool-cases (leb port last)) [
  | inr beyond ↦ rw (beyond, search) (past_end test stride last port (leb-false port last beyond))
  | inl within ↦ elim (Bool-cases (test port)) [
    | inl hit ↦
        rw (within, search)
          (rw (hit, search)
            (0, omega arith, leb→le port last within, hit, λ j hj. absurd (omega arith)))
    | inr miss ↦
        rw (within, search)
          (rw (miss, search)
            (step_over test stride last port (search test stride last fuel (port + stride)) miss
              (search-IsFirst test stride last fuel (port + stride) hs (omega arith))))
  ]
]

-- A search whose first port passes stops there.
pub IsFirst-head :
    (test : ℕ → Bool) (stride last port : ℕ) (o : Option ℕ)
    → test port ≡ true
    → port ≤ last
    → IsFirst test stride last port o
    → o ≡ some port
IsFirst-head test stride last port none hit within h =
    let here : port + 0 * stride ≡ port = omega arith in
    ground (arith, h 0 (omega arith), ap test here)
IsFirst-head test stride last port (some q) hit within (zero, at, fits, pass, before) =
    ap some (omega arith)
IsFirst-head test stride last port (some q) hit within (suc k, at, fits, pass, before) =
    let here : port + 0 * stride ≡ port = omega arith in
    ground (arith, before 0 (omega arith), ap test here)
