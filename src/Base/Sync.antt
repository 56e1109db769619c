-- ===== src/Base/Sync.antt =====
-- sync.RWMutex as a part of the state, and methods that run on it. Go's mutex is not reentrant: a
-- goroutine that asks for a lock that it holds itself waits for ever (`blocks`), unless both are
-- read locks. The methods run here with no other goroutine inside.
use Prim.Native.Nat.{ℕ, zero, suc}
use mathlib.Core.Path.{◌≡◌, refl}
use mathlib.Core.Option.{Option, none, some}
use rtsp_go.Base.Results.{Outcome, returns, blocks, panics}

pub data RwMutex : Type 0 where
  free written : RwMutex
  read_by : ℕ → RwMutex

-- A method over the state S: it changes the mutex and the state, and gives a value.
abbrev pub Method : Type 0 → Type 0 → Type 0
Method S A = RwMutex → S → Outcome (A × RwMutex × S)

abbrev pub pure : {S A : Type 0} → A → Method S A
pure a m s = returns (a, m, s)

-- What a first method's outcome hands to the next.
abbrev pub feed :
    {S A B : Type 0} → (A → Method S B) → Outcome (A × RwMutex × S) → Outcome (B × RwMutex × S)
feed g (returns (a, m, s)) = g a m s
feed g blocks = blocks
feed g panics = panics

infixl 5 ◌>>=◌ ◌>>◌
abbrev pub ◌>>=◌ : {S A B : Type 0} → Method S A → (A → Method S B) → Method S B
◌>>=◌ f g m s = feed g (f m s)

abbrev pub ◌>>◌ : {S B : Type 0} → Method S (Unit {0}) → Method S B → Method S B
f >> g = f >>= λ _. g

abbrev pub get : {S : Type 0} → Method S S
get m s = returns (s, m, s)

abbrev pub put : {S : Type 0} → S → Method S (Unit {0})
put s m _ = returns (tt, m, s)

abbrev pub modify : {S : Type 0} → (S → S) → Method S (Unit {0})
modify f m s = returns (tt, m, f s)

unfoldable pub lock : {S : Type 0} → Method S (Unit {0})
lock free s = returns (tt, written, s)
lock written s = blocks
lock (read_by n) s = blocks

-- Unlocking a mutex that is not locked is a fatal error.
unfoldable pub unlock : {S : Type 0} → Method S (Unit {0})
unlock free s = panics
unlock written s = returns (tt, free, s)
unlock (read_by n) s = panics

-- `read_by n` stands for n + 1 readers.
unfoldable pub rlock : {S : Type 0} → Method S (Unit {0})
rlock free s = returns (tt, read_by 0, s)
rlock written s = blocks
rlock (read_by n) s = returns (tt, read_by (suc n), s)

unfoldable pub runlock : {S : Type 0} → Method S (Unit {0})
runlock free s = panics
runlock written s = panics
runlock (read_by zero) s = returns (tt, free, s)
runlock (read_by (suc n)) s = returns (tt, read_by n, s)

-- `Lock(); defer Unlock()` round the rest of a method.
unfoldable pub locked : {S A : Type 0} → Method S A → Method S A
unfolding lock unlock
locked body = do lock; a ← body; unlock; pure a

-- `RLock(); defer RUnlock()`
unfoldable pub rlocked : {S A : Type 0} → Method S A → Method S A
unfolding rlock runlock
rlocked body = do rlock; a ← body; runlock; pure a

-- Under `Lock`, any body that begins by locking waits for ever.
pub locked-locked :
    {S A : Type 0} (body : Method S A) (m : RwMutex) (s : S) → locked (locked body) m s ≡ blocks
unfolding locked
locked-locked body free s = refl
locked-locked body written s = refl
locked-locked body (read_by n) s = refl

-- The value and the mutex that a call leaves, if it returns.
abbrev pub result_of : {S A : Type 0} → Outcome (A × RwMutex × S) → Option (A × RwMutex)
result_of (returns (a, m, s)) = some (a, m)
result_of blocks = none
result_of panics = none
