-- ===== src/Controller/Graph/Bounds.antt =====
-- internal/controller/composition.go, `visit`: the number of products in the graph, and where its products come
-- from, whatever the outcome of the walk.
use data_product_controller.Prelude.{
  ℕ, ◌≤◌, ◌≡◌, ◌⊎◌, inl, inr, none, some, ◌∷◌, arith, refl, Bool-cases, ◌==◌, lookup, length,
  some_inj, ◌∙◌, sym, ap,
}
use data_product_controller.Kube.{ObjectKey, key_eq, key_beq_iff, found, Failure, not_found}
use data_product_controller.Api.{DataProduct, object_key}
use data_product_controller.Controller.World.{World}
use data_product_controller.Controller.Compatibility.{producer_ready}
use data_product_controller.Controller.Graph.{
  Graph, Observation, entry, enter, leave, mark_missing, note_readiness, visit, start,
  max_composition_products,
}
use data_product_controller.Controller.Graph.Keeps.{Stable, visit-keeps}

module _ (w : World) (root : DataProduct) where
  -- where an observed product comes from
  abbrev pub Origin : ObjectKey → DataProduct → Type 0
  Origin k p = ((k ≡ object_key root) × (p ≡ root)) ⊎ ((n : ℕ) × (w.get n k ≡ found p))

  pub record IsBounded (g : Graph) : Type 0 where
    pub products_capped : length g.products ≤ max_composition_products
    pub origin : (k : ObjectKey) (p : DataProduct) → lookup k g.products ≡ some p → Origin k p

  -- a step that does not change the products
  same_bounds : {g g' : Graph} → g'.products ≡ g.products → IsBounded g → IsBounded g'
  same_bounds e h = record {
    products_capped = omega (arith, ap length e, h.products_capped);
    origin = λ k p q. h.origin k p (ap (lookup k) (sym e) ∙ q);
  }

  stored-Origin :
      (g : Graph) (k : ObjectKey) (q : DataProduct)
      → w.get g.clock k ≡ found q
      → IsBounded g
      → (j : ObjectKey) (p : DataProduct) → lookup j ((k, q) ∷ g.products) ≡ some p
      → Origin j p
  stored-Origin g k q answer h j p e = elim (Bool-cases (k == j)) [
    | inl same ↦
        let taken : some q ≡ some p = rw same at e in
        inr (
          g.clock,
          ap (w.get g.clock) (sym ((key_beq_iff k j).0 same)) ∙ answer ∙ ap found (some_inj taken),
        )
    | inr other ↦ h.origin j p (rw other at e)
  ]

  missed_bounds :
      (g : Graph) (k : ObjectKey) (e : Failure) → IsBounded g → IsBounded (mark_missing k e g)
  unfolding mark_missing
  missed_bounds g k not_found h = same_bounds refl h
  missed_bounds g k _ h = same_bounds refl h

  noted_bounds :
      (g : Graph) (q : DataProduct) (k : ObjectKey)
      → IsBounded g
      → IsBounded (note_readiness w q k g)
  unfolding note_readiness
  noted_bounds g q k h = elim (Bool-cases (producer_ready w.conditions q)) [
    | inl up ↦ rw up h
    | inr down ↦ rw down (same_bounds refl h)
  ]

  entering_bounds :
      (g : Graph) (p : DataProduct) (d : ℕ)
      → entry p d g ≡ none
      → IsBounded g
      → IsBounded (enter (object_key p) p g)
  unfolding enter
  entering_bounds g p d free h = record { products_capped = h.products_capped; origin = h.origin }

  leaving_bounds :
      (k : ObjectKey) (r : Observation × Graph) → IsBounded r.1 → IsBounded (leave k r).1
  unfolding leave
  leaving_bounds k r h = same_bounds refl h

  bounds-Stable : Stable w IsBounded
  bounds-Stable = record {
    ticked = λ g h. same_bounds refl h;
    stored = λ g k q fresh room answer h. record {
      products_capped = omega (arith, room);
      origin = stored-Origin g k q answer h;
    };
    missed = missed_bounds;
    raised = λ g k j h. same_bounds refl h;
    noted = noted_bounds;
    entering = entering_bounds;
    leaving = leaving_bounds;
  }

  start_bounds : IsBounded (start root)
  start_bounds = record { products_capped = omega arith; origin = λ k p e. inl (first k p e) }
    where
      first :
          (k : ObjectKey) (p : DataProduct)
          → lookup k (start root).products ≡ some p
          → (k ≡ object_key root) × (p ≡ root)
      first k p e = elim (Bool-cases (object_key root == k)) [
        | inl same ↦
            let taken : some root ≡ some p = rw same at e in
            (sym ((key_beq_iff (object_key root) k).0 same), sym (some_inj taken))
        | inr other ↦ absurd (nothing p (rw other at e))
      ]
        where
          nothing : (p : DataProduct) → none ≡ some p → ⊥
          nothing p x = cc

  -- Every walk, whether it succeeds, refuses or fails, ends with at most 256 products, and holds
  -- only the consumer and products that a read returned under their keys.
  pub walk-IsBounded :
      (fuel : ℕ) (o : Observation) (g : Graph)
      → visit w fuel root 0 (start root) ≡ some (o, g)
      → IsBounded g
  walk-IsBounded fuel o g walked =
      visit-keeps bounds-Stable fuel root 0 (start root) (o, g) walked start_bounds
