-- ===== src/Controller/Graph/Marks.antt =====
-- The marks of the walk: a product enters the stack, passes an input, and leaves the stack visited.
use data_product_controller.Prelude.{
  ◌≡◌, ◌≢◌, inl, inr, true, false, All-mono, Bool-cases, ◌∙◌, ap, ◌==◌, update_self, update_ne,
}
use data_product_controller.Kube.{ObjectKey, key_eq}
use data_product_controller.Api.{DataProduct, object_key}
use data_product_controller.Controller.World.{World}
use data_product_controller.Controller.Graph.{Graph, enter}
use data_product_controller.Controller.Graph.Sound.{Node, IsSound, Settled}

module _ {w : World} {g : Graph} (p : DataProduct) (s : IsSound w g) where
  abbrev pub key : ObjectKey
  key = object_key p

  -- a product that is neither visited nor on the stack
  module _ (unseen : g.visited key ≡ false) (off : g.visiting key ≡ false) where
    enter-ne : (k : ObjectKey) → g.visited k ≡ true → k ≢ key
    enter-ne k h same = clash (ap g.visited same)
      where
        clash : g.visited k ≡ g.visited key → ⊥
        clash e = cc

    pub Settled-ne : (k : ObjectKey) → Settled g k → k ≢ key
    Settled-ne k (inl h) same = enter-ne k h same
    Settled-ne k (inr h) same = clash (ap g.visiting same)
      where
        clash : g.visiting k ≡ g.visiting key → ⊥
        clash e = cc

    enter-visiting : (k : ObjectKey) → k ≢ key → (enter key p g).visiting k ≡ g.visiting k
    unfolding enter
    enter-visiting k ne = update_ne g.visiting key true k ne

    pub enter-on : (enter key p g).visiting key ≡ true
    unfolding enter
    enter-on = update_self g.visiting key true

    enter-Node : (k : ObjectKey) → Node w g k → Node w (enter key p g) k
    unfolding enter
    enter-Node k n = record {
      product = n.product;
      observed = n.observed;
      keyed = n.keyed;
      inputs =
          All-mono
            (λ i h. record {
              producer = h.producer;
              same_namespace = h.same_namespace;
              observed = h.observed;
              visited = h.visited;
              compatible = h.compatible;
              lower = h.lower;
              ready = h.ready;
            })
            n.product.spec.inputs n.inputs;
    }

    enter-blank :
        (k : ObjectKey) → g.visited k ≡ false → (enter key p g).visiting k ≡ false → g.heights k ≡ 0
    unfolding enter
    enter-blank k h e = elim (Bool-cases (k == key)) [
      | inl same ↦ absurd (clash (rw same at e))
      | inr other ↦ s.blank k h (rw other at e)
    ]
      where
        clash : true ≡ false → ⊥
        clash x = cc

    pub enter-IsSound : IsSound w (enter key p g)
    unfolding enter
    enter-IsSound = record {
      nodes = λ k h. enter-Node k (s.nodes k h);
      fresh = λ k h. enter-visiting k (enter-ne k h) ∙ s.fresh k h;
      keyed = s.keyed;
      blank = enter-blank;
    }
