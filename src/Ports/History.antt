-- ===== src/Ports/History.antt =====
-- rtspProtocon/port_manager.go: PortAllocationHistory, a list of allocations under a mutex.
use rtsp_go.Base.{
  ℕ, ◌+◌, ◌≤◌, ◌≡◌, refl, sym, ap, ◌∙◌, List, [], ◌∷◌, ◌++◌, returns, arith, ltb, if◌then◌else◌,
}
use rtsp_go.Base.Sync.{
  free, lock, unlock, rlock, runlock, Method, get, modify, ◌>>◌, locked, rlocked,
}
use rtsp_go.Ports.{PortAllocation}

-- NewPortAllocationHistory
abbrev pub new_history : List PortAllocation
new_history = []

-- AddAllocation
pub add_allocation : PortAllocation → Method (List PortAllocation) (Unit {0})
add_allocation a = locked (modify λ allocations. allocations ++ a ∷ [])

-- GetHistory; the copy has the same items.
pub get_history : Method (List PortAllocation) (List PortAllocation)
get_history = rlocked get

-- The items that are later than `now - max_age`, for a maximal age that is not negative.
pub recent : ℕ → ℕ → List PortAllocation → List PortAllocation
recent now max_age [] = []
recent now max_age (a ∷ allocations) =
    let rest = recent now max_age allocations in
    if ltb now (a.allocated_at + max_age) then a ∷ rest else rest

-- CleanupHistory at the time `now`.
pub cleanup_history : ℕ → ℕ → Method (List PortAllocation) (Unit {0})
cleanup_history now max_age = locked (modify λ allocations. recent now max_age allocations)

recent_again :
    (t t' age age' : ℕ) (allocations : List PortAllocation)
    → t ≤ t'
    → age' ≤ age
    → recent t' age' (recent t age allocations) ≡ recent t' age' allocations
unfolding recent
recent_again t t' age age' [] h k = refl
recent_again t t' age age' (a ∷ allocations) h k =
    ground (arith, recent_again t t' age age' allocations h k)

recent-append :
    (now age : ℕ) (xs ys : List PortAllocation)
    → recent now age (xs ++ ys) ≡ recent now age xs ++ recent now age ys
unfolding recent
recent-append now age [] ys = refl
recent-append now age (a ∷ xs) ys = ground (arith, recent-append now age xs ys)

-- A cleanup that is followed by a stricter one, later or with a smaller age, makes no difference to
-- what GetHistory then gives, also when an allocation was added between the two; the mutex is free
-- at the end.
pub cleanup_history_again :
    (t t' age age' : ℕ) (a : PortAllocation) (history : List PortAllocation)
    → t ≤ t'
    → age' ≤ age
    → (cleanup_history t age >> add_allocation a >> cleanup_history t' age' >> get_history) free
        history
      ≡ (add_allocation a >> cleanup_history t' age' >> get_history) free history
unfolding cleanup_history add_allocation get_history locked rlocked lock unlock rlock runlock
cleanup_history_again t t' age age' a history h k =
    ap (λ kept. returns (kept, free, kept))
      (recent-append t' age' (recent t age history) (a ∷ [])
        ∙ ap (λ xs. xs ++ recent t' age' (a ∷ [])) (recent_again t t' age age' history h k)
        ∙ sym (recent-append t' age' history (a ∷ [])))
