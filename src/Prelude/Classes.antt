-- ===== src/Prelude/Classes.antt =====
-- Equality as an interface: one operator `==` for every type of key that the program compares.
use Prim.Native.Nat.{ℕ}
use Prim.Native.String.{String}
use mathlib.Core.Path.{◌≡◌, refl}
use mathlib.Core.Logic.{◌↔◌, ◌≢◌, inl, inr}
use mathlib.Core.Bool.{Bool, true}
use text.Mathlib.Text.{◌==◌ as str_eq}
use text.Mathlib.TextEquality.{eq_iff}
use data_product_controller.Prelude.Tests.{nat_beq, nat_beq_iff, Bool-cases, if◌then◌else◌}
use data_product_controller.Prelude.Int.{ℤ, int_beq, int_beq_iff}

pub record Equality {ℓ} (A : Type ℓ) : Type ℓ where
  pub test : A → A → Bool
  pub test_iff : (a b : A) → (test a b ≡ true) ↔ (a ≡ b)

instance abbrev pub int_eq : Equality ℤ
int_eq = record { test = int_beq; test_iff = int_beq_iff }

infix 50 ◌==◌
abbrev pub ◌==◌ {ℓ} : {A : Type ℓ} ⦃e : Equality A⦄ → A → A → Bool
◌==◌ ⦃e⦄ = e.test

instance abbrev pub nat_eq : Equality ℕ
nat_eq = record { test = nat_beq; test_iff = nat_beq_iff }

instance abbrev pub string_eq : Equality String
string_eq = record { test = str_eq; test_iff = eq_iff }

module _ {ℓ κ} {K : Type ℓ} {V : Type κ} ⦃e : Equality K⦄ where
  -- a Go map as a function, with the zero value where nothing was stored
  abbrev pub update : (K → V) → K → V → K → V
  update f k v j = if j == k then v else f j

  pub update_self : (f : K → V) (k : K) (v : V) → update f k v k ≡ v
  update_self f k v = rw ((e.test_iff k k).1 refl)

  pub update_ne : (f : K → V) (k : K) (v : V) (j : K) → j ≢ k → update f k v j ≡ f j
  update_ne f k v j h = elim (Bool-cases (j == k)) [
    | inl same ↦ absurd (h ((e.test_iff j k).0 same))
    | inr other ↦ rw other
  ]
