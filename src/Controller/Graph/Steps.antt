-- ===== src/Controller/Graph/Steps.antt =====
-- Each step of the walk keeps the invariant: counting a call, observing a producer, entering a
-- product, passing an input, and leaving the product.
use data_product_controller.Prelude.{
  ◌≡◌, inl, inr, some, none, ◌∷◌, arith, true, lookup, lookup-fresh, lookup_self, All-mono,
  Bool-cases, refl, ◌∙◌, sym, subst, ap, ◌==◌, some_inj,
}
use data_product_controller.Kube.{ObjectKey, key_eq, key_beq_iff}
use data_product_controller.Api.{InputPort, DataProduct, object_key}
use data_product_controller.Controller.World.{World}
use data_product_controller.Controller.Graph.{Graph, tick}
use data_product_controller.Controller.Graph.Cases.{Found, known, read}
use data_product_controller.Controller.Graph.Sound.{Good, Node, IsSound, Extends}

pub Extends-refl : (g : Graph) → Extends g g
Extends-refl g = record {
  products = λ k p h. h;
  visited = λ k h. h;
  visiting = λ k. refl;
  heights = λ k s. refl;
  not_ready = λ h. h;
}

Good-Extends :
    {w : World} {g g' : Graph} (p : DataProduct) (i : InputPort)
    → Extends g g'
    → g.visited (object_key p) ≡ true
    → Good w g p i
    → Good w g' p i
Good-Extends p i x seen h = record {
  producer = h.producer;
  same_namespace = h.same_namespace;
  observed = x.products _ _ h.observed;
  visited = x.visited _ h.visited;
  compatible = h.compatible;
  lower = omega (arith, x.heights _ (inl h.visited), x.heights _ (inl seen), h.lower);
  ready = λ n. h.ready (x.not_ready n);
}

Node-Extends :
    {w : World} {g g' : Graph} (k : ObjectKey)
    → Extends g g'
    → g.visited k ≡ true
    → Node w g k
    → Node w g' k
Node-Extends {g} k x seen n = record {
  product = n.product;
  observed = x.products _ _ n.observed;
  keyed = n.keyed;
  inputs =
      All-mono (λ i good. Good-Extends n.product i x (ap g.visited n.keyed ∙ seen) good)
        n.product.spec.inputs n.inputs;
}

pub tick-Extends : (g : Graph) → Extends g (tick g)
tick-Extends g = record {
  products = λ k p h. h;
  visited = λ k h. h;
  visiting = λ k. refl;
  heights = λ k s. refl;
  not_ready = λ h. h;
}

pub tick-IsSound : {w : World} {g : Graph} → IsSound w g → IsSound w (tick g)
tick-IsSound {g} s = record {
  nodes = λ k h. Node-Extends k (tick-Extends g) h (s.nodes k h);
  fresh = s.fresh;
  keyed = s.keyed;
  blank = s.blank;
}

-- what observing a producer gives
pub record Observed (w : World) (k : ObjectKey) (g : Graph) (q : DataProduct) (g' : Graph)
    : Type 0 where
  pub sound : IsSound w g'
  pub extends : Extends g g'
  pub stored : lookup k g'.products ≡ some q
  pub key : object_key q ≡ k

module _ {w : World} {g : Graph} (k : ObjectKey) (q : DataProduct) (s : IsSound w g) where
  abbrev stored_graph : Graph
  stored_graph = record (tick g) { products = (k, q) ∷ g.products }

  store-Extends : lookup k g.products ≡ none → Extends g stored_graph
  store-Extends absent = record {
    products = λ j p h. lookup-fresh k j q p g.products absent h;
    visited = λ j h. h;
    visiting = λ j. refl;
    heights = λ j _. refl;
    not_ready = λ h. h;
  }

  store-keyed :
      object_key q ≡ k
      → (j : ObjectKey) (p : DataProduct) → lookup j stored_graph.products ≡ some p
      → object_key p ≡ j
  store-keyed same j p h = elim (Bool-cases (k == j)) [
    | inl e ↦
        let taken : some q ≡ some p = rw e at h in
        ap object_key (sym (some_inj taken)) ∙ same ∙ (key_beq_iff k j).0 e
    | inr e ↦ s.keyed j p (rw e at h)
  ]

  store-IsSound : lookup k g.products ≡ none → object_key q ≡ k → IsSound w stored_graph
  store-IsSound absent same = record {
    nodes = λ j h. Node-Extends j (store-Extends absent) h (s.nodes j h);
    fresh = s.fresh;
    keyed = store-keyed same;
    blank = s.blank;
  }

pub Found-Observed :
    {w : World} {g g' : Graph} (k : ObjectKey) (q : DataProduct)
    → IsSound w g
    → Found w k g q g'
    → Observed w k g q g'
Found-Observed {w} {g} k q s (known old same) =
    subst (λ x. Observed w k g q x) (sym same)
      (record { sound = s; extends = Extends-refl g; stored = old; key = s.keyed k q old })
Found-Observed {w} {g} k q s (read absent room answer same) =
    let key = w.get_key g.clock k q answer in
    subst (λ x. Observed w k g q x) (sym same)
      (record {
        sound = store-IsSound k q s absent key;
        extends = store-Extends k q s absent;
        stored = lookup_self k q g.products;
        key = key;
      })
