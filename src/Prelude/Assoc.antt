-- ===== src/Prelude/Assoc.antt =====
-- A Go map whose size is read: an association list in which no key is stored twice.
use mathlib.Core.Path.{◌≡◌, refl}
use mathlib.Core.Logic.{inl, inr}
use mathlib.Core.Option.{Option, none, some}
use mathlib.Core.List.{List, [], ◌∷◌}
use data_product_controller.Prelude.Tests.{if◌then◌else◌, Bool-cases}
use data_product_controller.Prelude.Classes.{Equality, ◌==◌}

module _ {ℓ κ} {K : Type ℓ} {V : Type κ} ⦃e : Equality K⦄ where
  abbrev pub lookup : K → List (K × V) → Option V
  lookup k [] = none
  lookup k ((j, v) ∷ m) = if j == k then some v else lookup k m

  -- storing a key that is absent keeps what is stored under every present key
  pub lookup-fresh :
      (k j : K) (v w : V) (m : List (K × V))
      → lookup k m ≡ none
      → lookup j m ≡ some w
      → lookup j ((k, v) ∷ m) ≡ some w
  lookup-fresh k j v w m absent present = elim (Bool-cases (k == j)) [
    | inl same ↦ absurd (clash ((e.test_iff k j).0 same))
    | inr other ↦ rw other present
  ]
    where
      clash : k ≡ j → ⊥
      clash same = cc

  pub lookup_self : (k : K) (v : V) (m : List (K × V)) → lookup k ((k, v) ∷ m) ≡ some v
  lookup_self k v m = rw ((e.test_iff k k).1 refl)
