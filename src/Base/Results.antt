-- ===== src/Base/Results.antt =====
-- Go's `(value, error)` pair, and what may become of a call: it returns, its goroutine waits for
-- ever on a mutex that it holds itself, or it panics.
use mathlib.Core.Path.{◌≡◌, refl}
use mathlib.Core.Bool.{Bool, true, false}
use rtsp_go.Base.Tests.{if◌then◌else◌}

pub data Result {ℓ κ} (E : Type κ) (A : Type ℓ) : Type (ℓ ⊔ κ) where
  ok : A → Result E A
  err : E → Result E A

pub data Outcome {ℓ} (A : Type ℓ) : Type ℓ where
  returns : A → Outcome A
  blocks panics : Outcome A

infixl 5 ◌>>=◌
abbrev pub ◌>>=◌ {ℓ κ} : {A : Type ℓ} {B : Type κ} → Outcome A → (A → Outcome B) → Outcome B
returns a >>= f = f a
blocks >>= f = blocks
panics >>= f = panics

-- The call returns, and what it returns satisfies P.
pub data Gives {ℓ κ} {A : Type ℓ} (P : A → Type κ) : Outcome A → Type (ℓ ⊔ κ) where
  gives : {a : A} → P a → Gives P (returns a)

pub Gives-map {ℓ κ ι} :
    {A : Type ℓ} {P : A → Type κ} {Q : A → Type ι} {o : Outcome A}
    → ((a : A) → P a → Q a)
    → Gives P o
    → Gives Q o
Gives-map f (gives {a} p) = gives (f a p)

pub Gives-bind {ℓ κ ι} :
    {A B : Type ℓ} {P : A → Type κ} {Q : B → Type ι} {o : Outcome A} (f : A → Outcome B)
    → ((a : A) → P a → Gives Q (f a))
    → Gives P o
    → Gives Q (o >>= f)
Gives-bind f g (gives {a} p) = g a p

-- A call comes back with what satisfies Q, or it panics; it does not go on for ever.
abbrev pub Comes : {A : Type 0} → (A → Type 0) → Outcome A → Type 0
Comes Q (returns a) = Q a
Comes Q blocks = ⊥
Comes Q panics = Unit

pub Comes-bind :
    {A B : Type 0} {P : A → Type 0} (Q : B → Type 0) (o : Outcome A) (f : A → Outcome B)
    → ((a : A) → P a → Comes Q (f a))
    → Comes P o
    → Comes Q (o >>= f)
Comes-bind Q (returns a) f g h = g a h
Comes-bind Q blocks f g h = h
Comes-bind Q panics f g h = tt

pub Comes-Gives : {A : Type 0} {P : A → Type 0} {o : Outcome A} → Gives P o → Comes P o
Comes-Gives (gives p) = p

pub Comes-if :
    {A : Type 0} (Q : A → Type 0) (b : Bool) (x y : Outcome A)
    → (b ≡ true → Comes Q x)
    → (b ≡ false → Comes Q y)
    → Comes Q (if b then x else y)
Comes-if Q true x y f g = f refl
Comes-if Q false x y f g = g refl

pub Comes-map :
    {A : Type 0} {P Q : A → Type 0}
    → ((a : A) → P a → Q a)
    → (o : Outcome A) → Comes P o
    → Comes Q o
Comes-map f (returns a) h = f a h
Comes-map f blocks h = h
Comes-map f panics h = h
