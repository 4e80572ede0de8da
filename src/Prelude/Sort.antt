-- ===== src/Prelude/Sort.antt =====
-- sort.Slice and sort.Strings, as an insertion sort over a Boolean order. The program sorts by
-- names that are distinct, or drops duplicates, so an unstable sort gives the same list.
use mathlib.Core.Bool.{Bool}
use mathlib.Core.List.{List, [], ◌∷◌, Perm}
use mathlib.Core.List.Perm
use mathlib.Core.Logic.{inl, inr}
use Prim.Native.String.{String, compare}
use text.Mathlib.Text.{is_lt}
use native.Mathlib.Omega.{arith}
use data_product_controller.Prelude.Tests.{if◌then◌else◌, Bool-cases}
use data_product_controller.Prelude.Lists.{All}

-- Go's `<` on strings: by bytes
abbrev pub str_lt : String → String → Bool
str_lt s t = is_lt (compare s t)

module _ {ℓ} {A : Type ℓ} (less : A → A → Bool) where
  unfoldable pub insert_sorted : A → List A → List A
  insert_sorted x [] = x ∷ []
  insert_sorted x (y ∷ ys) = if less y x then y ∷ insert_sorted x ys else x ∷ y ∷ ys

  unfoldable pub sort_slice : List A → List A
  unfolding insert_sorted
  sort_slice [] = []
  sort_slice (x ∷ xs) = insert_sorted x (sort_slice xs)

  insert_sorted-perm : (x : A) (xs : List A) → Perm (insert_sorted x xs) (x ∷ xs)
  unfolding insert_sorted
  insert_sorted-perm x [] = Perm.refl _
  insert_sorted-perm x (y ∷ ys) = elim (Bool-cases (less y x)) [
    | inl e ↦ rw e (Perm.trans (Perm.cons y (insert_sorted-perm x ys)) (Perm.swap _ _ _))
    | inr e ↦ rw e (Perm.refl _)
  ]

  pub sort_slice-perm : (xs : List A) → Perm (sort_slice xs) xs
  unfolding sort_slice
  sort_slice-perm [] = Perm.refl _
  sort_slice-perm (x ∷ xs) =
      Perm.trans (insert_sorted-perm x (sort_slice xs)) (Perm.cons x (sort_slice-perm xs))

module _ {ℓ κ} {A : Type ℓ} (less : A → A → Bool) (P : A → Type κ) where
  insert_sorted-All : (x : A) (xs : List A) → P x → All P xs → All P (insert_sorted less x xs)
  unfolding insert_sorted
  insert_sorted-All x [] p h = (p, tt)
  insert_sorted-All x (y ∷ ys) p (q, h) = ground (arith, insert_sorted-All x ys p h)

  -- What holds of every element holds of every element of the sorted slice, and conversely.
  pub sort_slice-All : (xs : List A) → All P xs → All P (sort_slice less xs)
  unfolding sort_slice
  sort_slice-All [] h = tt
  sort_slice-All (x ∷ xs) (p, h) = insert_sorted-All x (sort_slice less xs) p (sort_slice-All xs h)

  All-insert_sorted : (x : A) (xs : List A) → All P (insert_sorted less x xs) → P x × All P xs
  unfolding insert_sorted
  All-insert_sorted x [] h = h
  All-insert_sorted x (y ∷ ys) h = ground (arith, All-insert_sorted x ys)

  pub All-sort_slice : (xs : List A) → All P (sort_slice less xs) → All P xs
  unfolding sort_slice
  All-sort_slice [] h = tt
  All-sort_slice (x ∷ xs) h =
      let (p, rest) = All-insert_sorted x (sort_slice less xs) h in (p, All-sort_slice xs rest)
