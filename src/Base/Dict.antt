-- ===== src/Base/Dict.antt =====
-- Go maps as association lists with one entry for a key; `range` walks them in the list's order.
pub mod Keys
use Prim.Native.Nat.{ℕ}
use mathlib.Core.Path.{◌≡◌, refl, ap, ◌∙◌}
use mathlib.Core.Logic.{◌↔◌}
use mathlib.Core.Bool.{Bool, true, false}
use mathlib.Core.List.{List, [], ◌∷◌}
use mathlib.Core.Option.{Option, none, some}
use native.Mathlib.Omega.{arith}
use rtsp_go.Base.Tests.{◌==◌, ==_iff, if◌then◌else◌}
use rtsp_go.Base.Int.{ℤ, eqz, eqz_iff}
use rtsp_go.Base.Text.{Bytes, text_eq}
use rtsp_go.Base.Text.Laws.{text_eq_iff}

-- Keys that Go compares by `==`.
pub record Eq {ℓ} (A : Type ℓ) : Type ℓ where
  pub beq : A → A → Bool
  pub beq_iff : (k j : A) → (beq k j ≡ true) ↔ (k ≡ j)

instance abbrev pub number_eq : Eq ℕ
number_eq = record { beq = ◌==◌; beq_iff = ==_iff }

instance abbrev pub bytes_eq : Eq Bytes
bytes_eq = record { beq = text_eq; beq_iff = text_eq_iff }

instance abbrev pub int_eq : Eq ℤ
int_eq = record { beq = eqz; beq_iff = eqz_iff }

abbrev pub Dict {ℓ κ} : Type ℓ → Type κ → Type (ℓ ⊔ κ)
Dict K V = List (K × V)

pub beq_refl {ℓ} : {K : Type ℓ} ⦃e : Eq K⦄ (k : K) → e.beq k k ≡ true
beq_refl ⦃e⦄ k = (e.beq_iff k k).1 refl

module _ {ℓ κ} {K : Type ℓ} {V : Type κ} ⦃e : Eq K⦄ where
  unfoldable pub lookup : K → Dict K V → Option V
  lookup k [] = none
  lookup k ((j, v) ∷ m) = if e.beq j k then some v else lookup k m

  -- m[k] = v
  unfoldable pub insert : K → V → Dict K V → Dict K V
  insert k v [] = (k, v) ∷ []
  insert k v ((j, w) ∷ m) = if e.beq j k then (k, v) ∷ m else (j, w) ∷ insert k v m

  -- delete(m, k)
  unfoldable pub delete : K → Dict K V → Dict K V
  delete k [] = []
  delete k ((j, w) ∷ m) = let rest = delete k m in if e.beq j k then rest else (j, w) ∷ rest

  pub lookup-insert :
      (k j : K) (v : V) (m : Dict K V)
      → lookup j (insert k v m) ≡ (if e.beq k j then some v else lookup j m)
  unfolding lookup insert
  lookup-insert k j v [] = refl
  lookup-insert k j v ((i, w) ∷ m) =
      ground (arith, e.beq_iff k j, e.beq_iff i k, e.beq_iff i j, lookup-insert k j v m)

  pub lookup-delete :
      (k j : K) (m : Dict K V) → lookup j (delete k m) ≡ (if e.beq k j then none else lookup j m)
  unfolding lookup delete
  lookup-delete k j [] = ground arith
  lookup-delete k j ((i, w) ∷ m) =
      ground (arith, e.beq_iff k j, e.beq_iff i k, e.beq_iff i j, lookup-delete k j m)

  pub lookup-insert_self : (k : K) (v : V) (m : Dict K V) → lookup k (insert k v m) ≡ some v
  lookup-insert_self k v m = rw (lookup-insert k k v m, beq_refl k)

  pub lookup-delete_self : (k : K) (m : Dict K V) → lookup k (delete k m) ≡ none
  lookup-delete_self k m = rw (lookup-delete k k m, beq_refl k)

  pub lookup-insert_other :
      (k j : K) (v : V) (m : Dict K V) → e.beq k j ≡ false → lookup j (insert k v m) ≡ lookup j m
  lookup-insert_other k j v m other =
      lookup-insert k j v m ∙ ap (λ b. if b then some v else lookup j m) other

  pub lookup-delete_other :
      (k j : K) (m : Dict K V) → e.beq k j ≡ false → lookup j (delete k m) ≡ lookup j m
  lookup-delete_other k j m other =
      lookup-delete k j m ∙ ap (λ b. if b then none else lookup j m) other
