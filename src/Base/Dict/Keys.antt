-- ===== src/Base/Dict/Keys.antt =====
-- Association lists with at most one entry for a key, and their sizes.
use Prim.Native.Nat.{suc}
use mathlib.Core.Path.{◌≡◌, refl, sym, ap, ◌∙◌}
use mathlib.Core.List.{[], ◌∷◌, ◌++◌}
use mathlib.Core.Option.{none, some}
use mathlib.Core.Logic.{inl, inr}
use native.Mathlib.Omega.{arith}
use rtsp_go.Base.Tests.{Bool-cases}
use rtsp_go.Base.Lists.{length}
use rtsp_go.Base.Dict.{Eq, Dict, lookup, insert, delete, lookup-insert, lookup-delete}

module _ {ℓ κ} {K : Type ℓ} {V : Type κ} ⦃e : Eq K⦄ where
  abbrev pub Distinct : Dict K V → Type κ
  Distinct [] = Unit
  Distinct ((k, v) ∷ m) = (lookup k m ≡ none) × Distinct m

  pub length-insert_new :
      (k : K) (v : V) (m : Dict K V) → lookup k m ≡ none → length (insert k v m) ≡ suc (length m)
  unfolding lookup insert
  length-insert_new k v [] h = refl
  length-insert_new k v ((j, w) ∷ m) h = ground (arith, length-insert_new k v m)

  pub length-insert_old :
      (k : K) (v u : V) (m : Dict K V) → lookup k m ≡ some u → length (insert k v m) ≡ length m
  unfolding lookup insert
  length-insert_old k v u [] h = ground arith
  length-insert_old k v u ((j, w) ∷ m) h = ground (arith, length-insert_old k v u m)

  delete_absent : (k : K) (m : Dict K V) → lookup k m ≡ none → delete k m ≡ m
  unfolding lookup delete
  delete_absent k [] h = refl
  delete_absent k ((j, w) ∷ m) h = ground (arith, delete_absent k m)

  pub length-delete :
      (k : K) (u : V) (m : Dict K V)
      → Distinct m
      → lookup k m ≡ some u
      → suc (length (delete k m)) ≡ length m
  unfolding lookup delete
  length-delete k u [] d h = ground arith
  length-delete k u ((j, w) ∷ m) (hj, d) h =
      ground (arith, e.beq_iff j k, delete_absent k m, length-delete k u m d, ap (λ x. lookup x m))

  pub Distinct-insert : (k : K) (v : V) (m : Dict K V) → Distinct m → Distinct (insert k v m)
  unfolding lookup insert
  Distinct-insert k v [] d = (refl, tt)
  Distinct-insert k v ((j, w) ∷ m) (hj, d) = elim (Bool-cases (e.beq j k)) [
    | inl same ↦ rw same (ap (λ x. lookup x m) (sym ((e.beq_iff j k).0 same)) ∙ hj, d)
    | inr other ↦ rw other (
      ground (arith, lookup-insert k j v m, e.beq_iff k j, e.beq_iff j k),
      Distinct-insert k v m d,
    )
  ]

  pub Distinct-delete : (k : K) (m : Dict K V) → Distinct m → Distinct (delete k m)
  unfolding lookup delete
  Distinct-delete k [] d = tt
  Distinct-delete k ((j, w) ∷ m) (hj, d) = elim (Bool-cases (e.beq j k)) [
    | inl same ↦ rw same (Distinct-delete k m d)
    | inr other ↦ rw other (ground (arith, lookup-delete k j m), Distinct-delete k m d)
  ]

  pub insert_new :
      (k : K) (v : V) (m : Dict K V) → lookup k m ≡ none → insert k v m ≡ m ++ (k, v) ∷ []
  unfolding lookup insert
  insert_new k v [] h = refl
  insert_new k v ((j, w) ∷ m) h = ground (arith, insert_new k v m)
