-- ===== src/Controller/Graph/Verified.antt =====
-- internal/controller/composition.go, `visit`: the graph below a product whose walk reports nothing.
use data_product_controller.Prelude.{
  ℕ, zero, suc, ◌+◌, ◌≤◌, ◌<◌, ◌≡◌, some, none, arith, lookup, ◌∙◌, sym, ap, subst, Memᴰ, All-mem,
  some_inj, true,
}
use data_product_controller.Kube.{ObjectKey, key_eq}
use data_product_controller.Api.{InputPort, DataProduct, object_key}
use data_product_controller.Controller.World.{World}
use data_product_controller.Controller.Compatibility.{producer_key}
use data_product_controller.Controller.Compatibility.Laws.{
  Supplies, IsReady, input_compatibility_iff, producer_ready_iff,
}
use data_product_controller.Controller.Graph.{Graph, Observation, visit, start}
use data_product_controller.Controller.Graph.Sound.{Good, IsSound}
use data_product_controller.Controller.Graph.Scan.{Done}
use data_product_controller.Controller.Graph.Walk.{walk-Done}

-- a chain of `n` inputs from the product under `k` to the product under `m`, among those observed
pub data Reaches (g : Graph) : ObjectKey → ObjectKey → ℕ → Type 0 where
  here : {k m : ObjectKey} → k ≡ m → Reaches g k m zero
  step :
      {k m : ObjectKey} {n : ℕ} (p : DataProduct) (i : InputPort)
      → lookup k g.products ≡ some p
      → Memᴰ i p.spec.inputs
      → Reaches g (producer_key p i) m n
      → Reaches g k m (suc n)

-- what is known of an input on the graph
pub record Verified (w : World) (g : Graph) (p : DataProduct) (i : InputPort) : Type 0 where
  pub producer : DataProduct
  pub same_namespace : (producer_key p i).namespace ≡ p.namespace
  pub observed : lookup (producer_key p i) g.products ≡ some producer
  pub supplies : Supplies w.semver i producer
  pub ready : g.not_ready ≡ none → IsReady w.conditions producer

module _ {w : World} {g : Graph} (s : IsSound w g) where
  node_input :
      (k : ObjectKey) (p : DataProduct) (i : InputPort)
      → g.visited k ≡ true
      → lookup k g.products ≡ some p
      → Memᴰ i p.spec.inputs
      → Good w g p i × (object_key p ≡ k)
  node_input k p i seen stored m =
      let n = s.nodes k seen in
      let same : n.product ≡ p = some_inj (sym n.observed ∙ stored) in
      subst (λ q. Memᴰ i q.spec.inputs → Good w g q i × (object_key q ≡ k)) same
        (λ m'. (All-mem (Good w g n.product) n.product.spec.inputs n.inputs m', n.keyed)) m

  chain_falls :
      {k m : ObjectKey} {n : ℕ}
      → g.visited k ≡ true
      → Reaches g k m n
      → (g.visited m ≡ true) × (n + g.heights m ≤ g.heights k)
  chain_falls seen (here same) = (ap g.visited (sym same) ∙ seen, omega (arith, ap g.heights same))
  chain_falls {k} seen (step p i stored member rest) =
      let (good, keyed) = node_input k p i seen stored member in
      let (reached, falls) = chain_falls good.visited rest in
      (reached, omega (arith, good.lower, ap g.heights keyed, falls))

  Good-Verified : (p : DataProduct) (i : InputPort) → Good w g p i → Verified w g p i
  Good-Verified p i good = record {
    producer = good.producer;
    same_namespace = good.same_namespace;
    observed = good.observed;
    supplies = (input_compatibility_iff w.semver i good.producer).0 good.compatible;
    ready = λ h. (producer_ready_iff w.conditions good.producer).0 (good.ready h);
  }

module _ (w : World) (fuel : ℕ) (p : DataProduct) (o : Observation) (g : Graph)
    (walked : visit w fuel p 0 (start p) ≡ some (o, g)) (fine : o.reason ≡ "") where
  done : Done w p 0 (start p) g
  done = walk-Done w fuel p o g walked fine

  -- A walk with an empty observation has met no cycle: no product that the inputs lead to, through
  -- any number of producers, leads back to itself.
  pub walk_acyclic :
      (m : ObjectKey) (n j : ℕ) → Reaches g (object_key p) m n → ¬ Reaches g m m (suc j)
  walk_acyclic m n j to round_trip =
      let (seen, _) = chain_falls done.sound done.visited to in
      let (_, falls) = chain_falls done.sound seen round_trip in absurd (omega arith)

  -- No chain of inputs below the product is longer than 63, and every product on it was observed.
  pub walk_depth :
      (m : ObjectKey) (n : ℕ)
      → Reaches g (object_key p) m n
      → (n < 64) × ((q : DataProduct) × (lookup m g.products ≡ some q))
  walk_depth m n to =
      let (seen, falls) = chain_falls done.sound done.visited to in
      let node = done.sound.nodes m seen in
      (omega (arith, done.shallow), (node.product, node.observed))

  -- Every input of every product that the inputs lead to names an observed producer of the same
  -- namespace that supplies the named output under the declared contract; and every such producer
  -- is ready, if the walk noted none that is not.
  pub walk_inputs :
      (m : ObjectKey) (n : ℕ) (q : DataProduct) (i : InputPort)
      → Reaches g (object_key p) m n
      → lookup m g.products ≡ some q
      → Memᴰ i q.spec.inputs
      → Verified w g q i
  walk_inputs m n q i to stored member =
      let (seen, _) = chain_falls done.sound done.visited to in
      Good-Verified done.sound q i (node_input done.sound m q i seen stored member).0
