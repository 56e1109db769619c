-- ===== src/Proxy/Logger/Locks.antt =====
-- proxy/logger.go: the methods that log while they hold the logger's lock.
use rtsp_go.Base.{
  ℕ, Bool, ◌≡◌, ◌++◌, refl, ap, ◌∙◌, true, false, Result, ok, err, Outcome, returns, blocks, ◌↔◌,
  Bool-cases, inl, inr, arith,
}
use rtsp_go.Base.Int.{ltz}
use rtsp_go.Base.Text.{Bytes, codes}
use rtsp_go.Base.Sync.{feed, pure, ◌>>◌, RwMutex, free, written, lock, unlock, locked}
use rtsp_go.Proxy.Logger.{
  LogLevel, Logger, Formats, info, log, log_info, set_level, get_level_string,
}
use rtsp_go.Proxy.Logger.Files.{FileSystem, reopen, rotated, rotate_logs}

-- A call of Log under the logger's own lock waits for ever, unless its level is too low.
log-written :
    (formats : Formats) (level : LogLevel) (message : Bytes) (now : ℕ) (l : Logger)
    → (ltz level l.level ≡ true
        → log formats level message now written l ≡ returns (tt, written, l))
      × (ltz level l.level ≡ false → log formats level message now written l ≡ blocks)
unfolding log locked lock
log-written formats level message now l = (λ low. rw (low, log), λ high. rw (high, log))

-- A value is one of two, as a test says.
iff-of_test :
    {S A : Type 0} (test : Bool) (o : Outcome (A × RwMutex × S)) (a : A × RwMutex × S)
    → (test ≡ true → o ≡ returns a)
    → (test ≡ false → o ≡ blocks)
    → (o ≡ blocks) ↔ (test ≡ false)
iff-of_test test o a t f = elim (Bool-cases test) [
  | inl e ↦ let r = t e in (λ b. cc, λ n. cc)
  | inr e ↦ (λ b. e, λ n. f e)
]

abbrev level_of : Result (Bytes × Logger) Logger → LogLevel
level_of (ok l) = l.level
level_of (err (e, l)) = l.level

abbrev unlocked : {A : Type 0} → A → RwMutex → Logger → Outcome (A × RwMutex × Logger)
unlocked a = unlock >> pure a

module _ (formats : Formats) (now : ℕ) (l : Logger) where
  -- SetLevel, while no one holds the lock, by the level that it sets.
  set_level-blocks_iff :
      (level : LogLevel) → (set_level formats level now free l ≡ blocks) ↔ (ltz info level ≡ false)
  unfolding set_level locked lock unlock
  set_level-blocks_iff level =
      let l' : Logger = record l { level = level } in
      let text = codes "Log level changed to " ++ get_level_string level in
      iff-of_test (ltz info level) (set_level formats level now free l) (tt, free, l')
        (λ low. ap (feed unlocked) ((log-written formats info text now l').0 low))
        (λ high. ap (feed unlocked) ((log-written formats info text now l').1 high))

  reopen-level : (fs : FileSystem) (l' : Logger) → reopen formats fs l ≡ ok l' → l'.level ≡ l.level
  unfolding reopen
  reopen-level fs l' h = ground arith

  rotated-blocks_iff :
      (before : Logger) (r : Result (Bytes × Logger) Logger)
      → (feed unlocked (rotated formats now r written before) ≡ blocks)
        ↔ ((l' : Logger) × (r ≡ ok l') × (ltz info l'.level ≡ false))
  unfolding rotated log_info
  rotated-blocks_iff before (err (e, l')) = (λ b. cc, λ h. let (l'', is_ok, _) = h in cc)
  rotated-blocks_iff before (ok l') =
      let text = codes "Log files rotated successfully" in
      let (here, back) =
        iff-of_test (ltz info l'.level) (feed unlocked (rotated formats now (ok l') written before))
          (ok tt, free, l')
          (λ low.
            ap (λ o. feed unlocked (feed (λ _. pure (ok tt)) o))
              ((log-written formats info text now l').0 low))
          (λ high.
            ap (λ o. feed unlocked (feed (λ _. pure (ok tt)) o))
              ((log-written formats info text now l').1 high)) in
      (
        λ b. (l', refl, here b),
        λ h. let (l'', same, high) = h in back (ap (λ r. ltz info (level_of r)) same ∙ high),
      )

  -- RotateLogs, while no one holds the lock, by the level of the logger.
  rotate_logs-blocks_iff :
      (fs : FileSystem)
      → (rotate_logs formats fs now free l ≡ blocks)
        ↔ ((l' : Logger) × (reopen formats fs l ≡ ok l') × (ltz info l.level ≡ false))
  unfolding rotate_logs locked lock
  rotate_logs-blocks_iff fs =
      let (here, back) = rotated-blocks_iff l (reopen formats fs l) in
      (
        λ b. let (l', opened, high) = here b in (l', opened, rw (← reopen-level fs l' opened) high),
        λ h. let (l', opened, high) = h in back (l', opened, rw (reopen-level fs l' opened) high),
      )

  -- Called while no one holds the logger's lock: SetLevel never returns exactly when the level that it
  -- sets lets messages of the level Info pass, as Debug and Info do; and RotateLogs never returns
  -- exactly when it could open its files again and the logger lets messages of the level Info pass.
  pub set_level-rotate_logs-blocks :
      (level : LogLevel) (fs : FileSystem)
      → ((set_level formats level now free l ≡ blocks) ↔ (ltz info level ≡ false))
        × ((rotate_logs formats fs now free l ≡ blocks)
            ↔ ((l' : Logger) × (reopen formats fs l ≡ ok l') × (ltz info l.level ≡ false)))
  set_level-rotate_logs-blocks level fs = (set_level-blocks_iff level, rotate_logs-blocks_iff fs)
