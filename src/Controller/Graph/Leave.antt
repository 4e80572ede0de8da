-- ===== src/Controller/Graph/Leave.antt =====
-- A product whose inputs are all good leaves the stack, visited.
use data_product_controller.Prelude.{
  refl, ◌≡◌, ◌≢◌, inl, inr, some, true, false, lookup, All, All-mono, Bool-cases, ◌∙◌, sym, ap,
  ◌==◌, update_ne, update, eq_iff, string_eq,
}
use data_product_controller.Kube.{ObjectKey, key_eq, key_beq_iff}
use data_product_controller.Api.{InputPort, DataProduct, object_key}
use data_product_controller.Controller.World.{World}
use data_product_controller.Controller.Compatibility.{producer_key}
use data_product_controller.Controller.Graph.{Graph, Observation, enter, leave}
use data_product_controller.Controller.Graph.Sound.{Good, Node, IsSound, Settled, Grows, Extends}
use data_product_controller.Controller.Graph.Marks.{Settled-ne}

abbrev pub left : ObjectKey → Graph → Graph
left key g = record g {
  visited = update g.visited key true;
  visiting = update g.visiting key false;
}

pub leave-fine :
    (key : ObjectKey) (o : Observation) (g : Graph)
    → o.reason ≡ ""
    → leave key (o, g) ≡ (o, left key g)
unfolding leave
leave-fine key o g fine = rw ((eq_iff o.reason "").1 fine)

left-visited :
    (key : ObjectKey) (g : Graph) (k : ObjectKey)
    → g.visited k ≡ true
    → (left key g).visited k ≡ true
left-visited key g k h = elim (Bool-cases (k == key)) [
  | inl same ↦ rw same
  | inr other ↦ rw other h
]

pub leave_observation : (key : ObjectKey) (r : Observation × Graph) → (leave key r).0 ≡ r.0
unfolding leave
leave_observation key r = refl

module _ {w : World} {g : Graph} (key : ObjectKey) where
  left-Good : (q : DataProduct) (i : InputPort) → Good w g q i → Good w (left key g) q i
  left-Good q i h = record {
    producer = h.producer;
    same_namespace = h.same_namespace;
    observed = h.observed;
    visited = left-visited key g (producer_key q i) h.visited;
    compatible = h.compatible;
    lower = h.lower;
    ready = h.ready;
  }

  left-Node : (k : ObjectKey) → Node w g k → Node w (left key g) k
  left-Node k n = record {
    product = n.product;
    observed = n.observed;
    keyed = n.keyed;
    inputs = All-mono (left-Good n.product) n.product.spec.inputs n.inputs;
  }

  module _ (s : IsSound w g) (on : g.visiting key ≡ true) where
    left-nodes :
        (p : DataProduct)
        → object_key p ≡ key
        → lookup key g.products ≡ some p
        → All (Good w g p) p.spec.inputs
        → (k : ObjectKey) → (left key g).visited k ≡ true
        → Node w (left key g) k
    left-nodes p named stored good k h = elim (Bool-cases (k == key)) [
      | inl same ↦
          rw ((key_beq_iff k key).0 same) (
            left-Node key (record { product = p; observed = stored; keyed = named; inputs = good }))
      | inr other ↦ left-Node k (s.nodes k (rw other at h))
    ]

    left-fresh : (k : ObjectKey) → (left key g).visited k ≡ true → (left key g).visiting k ≡ false
    left-fresh k h = elim (Bool-cases (k == key)) [
      | inl same ↦ rw same
      | inr other ↦ rw other (s.fresh k (rw other at h))
    ]

    left-blank :
        (k : ObjectKey)
        → (left key g).visited k ≡ false
        → (left key g).visiting k ≡ false
        → g.heights k ≡ 0
    left-blank k h e = elim (Bool-cases (k == key)) [
      | inl same ↦ absurd (clash (rw same at h))
      | inr other ↦ s.blank k (rw other at h) (rw other at e)
    ]
      where
        clash : true ≡ false → ⊥
        clash x = cc

    pub left-IsSound :
        (p : DataProduct)
        → object_key p ≡ key
        → lookup key g.products ≡ some p
        → All (Good w g p) p.spec.inputs
        → IsSound w (left key g)
    left-IsSound p named stored good = record {
      nodes = left-nodes p named stored good;
      fresh = left-fresh;
      keyed = s.keyed;
      blank = left-blank;
    }

-- Between the entry of a product that was neither visited nor on the stack, and its leaving, the
-- stack and the heights of everything else are as they were.
pub left-Extends :
    {w : World} {g g' : Graph} (p : DataProduct)
    → IsSound w g
    → g.visited (object_key p) ≡ false
    → g.visiting (object_key p) ≡ false
    → Grows (object_key p) (enter (object_key p) p g) g'
    → Extends g (left (object_key p) g')
unfolding enter
left-Extends {w} {g} {g'} p s unseen off x = record {
  products = x.products;
  visited = λ k h. left-visited (object_key p) g' k (x.visited k h);
  visiting = back;
  heights = λ k h.
      x.heights k (Settled-ne p s unseen off k h) (entered k (Settled-ne p s unseen off k h) h);
  not_ready = x.not_ready;
}
  where
    key : ObjectKey
    key = object_key p

    apart : (k : ObjectKey) → (k == key) ≡ false → k ≢ key
    apart k other same = clash ((key_beq_iff k key).1 same)
      where
        clash : (k == key) ≡ true → ⊥
        clash e = cc

    back : (k : ObjectKey) → (left key g').visiting k ≡ g.visiting k
    back k = elim (Bool-cases (k == key)) [
      | inl same ↦ rw same (sym (ap g.visiting ((key_beq_iff k key).0 same) ∙ off))
      | inr other ↦ rw other (x.visiting k ∙ update_ne g.visiting key true k (apart k other))
    ]

    entered : (k : ObjectKey) → k ≢ key → Settled g k → Settled (enter key p g) k
    entered k ne (inl h) = inl h
    entered k ne (inr h) = inr (update_ne g.visiting key true k ne ∙ h)
