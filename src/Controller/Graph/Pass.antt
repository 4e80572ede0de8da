-- ===== src/Controller/Graph/Pass.antt =====
-- The loop passes an input whose producer was visited: the height of the product on the stack rises
-- above the producer's, and the first producer that is not ready is noted.
use data_product_controller.Prelude.{
  ◌+◌, max, ◌≡◌, ◌≢◌, inl, inr, Option, some, none, arith, true, false, lookup, Bool-cases, refl,
  ◌∙◌, ap, update_self, update_ne,
}
use data_product_controller.Kube.{ObjectKey, key_eq}
use data_product_controller.Api.{InputPort, DataProduct, object_key}
use data_product_controller.Controller.World.{World}
use data_product_controller.Controller.Compatibility.{
  producer_key, producer_ready, input_compatibility,
}
use data_product_controller.Controller.Graph.{Graph, note_readiness, raise_height}
use data_product_controller.Controller.Graph.Sound.{Good, IsSound, Grows, Node-mono, visited-ne}

abbrev pub passed_graph : ObjectKey → ObjectKey → Option ObjectKey → Graph → Graph
passed_graph key wanted n g = record (raise_height key wanted g) { not_ready = n }

pub note_readiness-passed :
    (w : World) (q : DataProduct) (key wanted : ObjectKey) (g : Graph)
    → (n : Option ObjectKey) × (note_readiness w q wanted (raise_height key wanted g)
        ≡ passed_graph key wanted n g)
      × (n ≡ none → g.not_ready ≡ none)
      × (n ≡ none → producer_ready w.conditions q ≡ true)
unfolding note_readiness
note_readiness-passed w q key wanted g = elim (Bool-cases (producer_ready w.conditions q)) [
  | inl up ↦ (g.not_ready, rw up, λ h. h, λ h. up)
  | inr down ↦ noted g.not_ready refl down
]
  where
    noted :
        (n : Option ObjectKey)
        → g.not_ready ≡ n
        → producer_ready w.conditions q ≡ false
        → (m : Option ObjectKey) × (note_readiness w q wanted (raise_height key wanted g)
            ≡ passed_graph key wanted m g)
          × (m ≡ none → g.not_ready ≡ none)
          × (m ≡ none → producer_ready w.conditions q ≡ true)
    noted none e down = (some wanted, rw (down, e), λ h. cc, λ h. cc)
    noted (some j) e down = (some j, rw (down, e), λ h. cc, λ h. cc)

module _ {w : World} {g : Graph} (key wanted : ObjectKey) (n : Option ObjectKey) (s : IsSound w g)
    (on : g.visiting key ≡ true) (seen : g.visited wanted ≡ true)
    (first : n ≡ none → g.not_ready ≡ none) where
  apart : wanted ≢ key
  apart = visited-ne wanted s on seen

  pub own_height :
      (passed_graph key wanted n g).heights key ≡ max (g.heights key) (1 + g.heights wanted)
  own_height = update_self g.heights key _

  other_height : (k : ObjectKey) → k ≢ key → (passed_graph key wanted n g).heights k ≡ g.heights k
  other_height k ne = update_ne g.heights key _ k ne

  pub passed-Grows : Grows key g (passed_graph key wanted n g)
  passed-Grows = record {
    products = λ k p h. h;
    visited = λ k h. h;
    visiting = λ k. refl;
    heights = λ k ne _. other_height k ne;
    raised = omega (arith, own_height);
    not_ready = first;
  }

  pub passed-IsSound : IsSound w (passed_graph key wanted n g)
  passed-IsSound = record {
    nodes = λ k h. Node-mono k s on passed-Grows h (s.nodes k h);
    fresh = s.fresh;
    keyed = s.keyed;
    blank = λ k h off. other_height k (off_ne k off) ∙ s.blank k h off;
  }
    where
      off_ne : (k : ObjectKey) → g.visiting k ≡ false → k ≢ key
      off_ne k off same = clash (ap g.visiting same)
        where
          clash : g.visiting k ≡ g.visiting key → ⊥
          clash e = cc

  pub passed-Good :
      (p : DataProduct) (i : InputPort) (q : DataProduct)
      → object_key p ≡ key
      → producer_key p i ≡ wanted
      → wanted.namespace ≡ p.namespace
      → lookup wanted g.products ≡ some q
      → input_compatibility w.semver i q ≡ ""
      → (n ≡ none → producer_ready w.conditions q ≡ true)
      → Good w (passed_graph key wanted n g) p i
  passed-Good p i q named asked same stored compatible ready = record {
    producer = q;
    same_namespace = ap (λ (k : ObjectKey). k.namespace) asked ∙ same;
    observed = ap (λ k. lookup k g.products) asked ∙ stored;
    visited = ap g.visited asked ∙ seen;
    compatible = compatible;
    lower = omega (
      arith,
      ap (passed_graph key wanted n g).heights asked ∙ other_height wanted apart,
      ap (passed_graph key wanted n g).heights named ∙ own_height,
    );
    ready = ready;
  }
