-- ===== src/Controller/Composition/Statuses.antt =====
-- internal/controller/composition.go, `observeComposition`: the lineage that is recorded.
use data_product_controller.Prelude.{
  ℕ, ◌+◌, ◌≤◌, ◌≡◌, Option, none, some, List, [], ◌∷◌, map, arith, ap, refl, Bool-cases, ltb, inl,
  inr, ◌∙◌, sym, subst,
}
use data_product_controller.Api.{InputPort, InputStatus, DataProduct}
use data_product_controller.Controller.World.{World}
use data_product_controller.Controller.Graph.{Graph}
use data_product_controller.Controller.Composition.{
  Lineage, recorded, dropped, prepend, sized, input_status, lineage, lineage_limit,
  max_lineage_bytes,
}

-- an encoded length and its comma
abbrev pub separated : Option ℕ → ℕ
separated none = 0
separated (some n) = n + 1

-- the encoded lengths of the statuses, and a comma for each
abbrev pub encoded_total : World → List InputStatus → ℕ
encoded_total w [] = 0
encoded_total w (s ∷ ss) = separated (w.encoded_length s) + encoded_total w ss

prepend-recorded :
    (s : InputStatus) (l : Lineage) (ss : List InputStatus)
    → prepend s l ≡ recorded ss
    → (rest : List InputStatus) × (l ≡ recorded rest) × (ss ≡ s ∷ rest)
unfolding prepend
prepend-recorded s (recorded rest) ss h = (rest, refl, ground arith)
prepend-recorded s (dropped o) ss h = cc

sized-recorded :
    (bytes : ℕ) (s : InputStatus) (r : Option ℕ) (k : ℕ → Lineage) (ss : List InputStatus)
    → sized bytes s r k ≡ recorded ss
    → (n : ℕ) × (r ≡ some n)
      × (bytes + (n + 1) ≤ max_lineage_bytes)
      × (prepend s (k (bytes + (n + 1))) ≡ recorded ss)
unfolding sized
sized-recorded bytes s none k ss h = cc
sized-recorded bytes s (some n) k ss h =
    elim (Bool-cases (ltb max_lineage_bytes (bytes + (n + 1)))) [
      | inl over ↦ absurd (limit_case (rw over at h))
      | inr within ↦ (n, refl, ground arith, rw within at h)
    ]
  where
    limit_case : dropped lineage_limit ≡ recorded ss → ⊥
    limit_case e = cc

-- A lineage that is recorded has the status of each input, in the declared order, and its JSON
-- array, with the delimiters and a comma for each, has at most 64 KiB.
pub lineage-recorded :
    (w : World) (p : DataProduct) (g : Graph) (bytes : ℕ) (inputs : List InputPort)
    (ss : List InputStatus)
    → lineage w p g bytes inputs ≡ recorded ss
    → bytes ≤ max_lineage_bytes
    → (ss ≡ map (input_status w p g) inputs) × (bytes + encoded_total w ss ≤ max_lineage_bytes)
unfolding lineage
lineage-recorded w p g bytes [] ss h room = (
  ground arith,
  subst (λ x. bytes + encoded_total w x ≤ max_lineage_bytes) (none_left h) (omega arith),
)
  where
    none_left : recorded [] ≡ recorded ss → [] ≡ ss
    none_left e = cc
lineage-recorded w p g bytes (i ∷ rest) ss h room =
    let (n, encoded, within, first) =
      sized-recorded bytes (input_status w p g i) (w.encoded_length (input_status w p g i))
        (λ total. lineage w p g total rest) ss h in
    let (others, later, parts) = prepend-recorded (input_status w p g i) _ ss first in
    let (same, total) = lineage-recorded w p g (bytes + (n + 1)) rest others later within in
    (
      parts ∙ ap (λ x. input_status w p g i ∷ x) same,
      subst (λ x. bytes + encoded_total w x ≤ max_lineage_bytes) (sym parts)
          (omega (arith, ap separated encoded, total)),
    )
