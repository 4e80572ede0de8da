-- ===== src/Controller/Graph/Sound.antt =====
-- The invariant of the walk: what the visited marks, the heights and the observed products say of
-- one another, and how they grow from one moment to a later one.
use data_product_controller.Prelude.{
  ◌≤◌, ◌<◌, ◌≡◌, ◌≢◌, ◌⊎◌, inl, inr, none, some, arith, true, false, lookup, All, All-mono, ◌∙◌, ap,
}
use data_product_controller.Kube.{ObjectKey, key_eq}
use data_product_controller.Api.{InputPort, DataProduct, object_key}
use data_product_controller.Controller.World.{World}
use data_product_controller.Controller.Compatibility.{
  producer_key, input_compatibility, producer_ready,
}
use data_product_controller.Controller.Graph.{Graph}

-- An input whose producer was observed in the same namespace, was visited, satisfies the declared
-- contract and lies lower; and was ready, unless the graph says otherwise.
pub record Good (w : World) (g : Graph) (p : DataProduct) (i : InputPort) : Type 0 where
  pub producer : DataProduct
  pub same_namespace : (producer_key p i).namespace ≡ p.namespace
  pub observed : lookup (producer_key p i) g.products ≡ some producer
  pub visited : g.visited (producer_key p i) ≡ true
  pub compatible : input_compatibility w.semver i producer ≡ ""
  pub lower : g.heights (producer_key p i) < g.heights (object_key p)
  pub ready : g.not_ready ≡ none → producer_ready w.conditions producer ≡ true

pub record Node (w : World) (g : Graph) (k : ObjectKey) : Type 0 where
  pub product : DataProduct
  pub observed : lookup k g.products ≡ some product
  pub keyed : object_key product ≡ k
  pub inputs : All (Good w g product) product.spec.inputs

pub record IsSound (w : World) (g : Graph) : Type 0 where
  pub nodes : (k : ObjectKey) → g.visited k ≡ true → Node w g k
  pub fresh : (k : ObjectKey) → g.visited k ≡ true → g.visiting k ≡ false
  pub keyed : (k : ObjectKey) (p : DataProduct) → lookup k g.products ≡ some p → object_key p ≡ k
  pub blank : (k : ObjectKey) → g.visited k ≡ false → g.visiting k ≡ false → g.heights k ≡ 0

abbrev pub Settled : Graph → ObjectKey → Type 0
Settled g k = (g.visited k ≡ true) ⊎ (g.visiting k ≡ true)

-- `g'` is later than `g`, and the product under `key` is the only one on the stack whose height
-- may have been raised
pub record Grows (key : ObjectKey) (g g' : Graph) : Type 0 where
  pub products :
      (k : ObjectKey) (p : DataProduct)
      → lookup k g.products ≡ some p
      → lookup k g'.products ≡ some p
  pub visited : (k : ObjectKey) → g.visited k ≡ true → g'.visited k ≡ true
  pub visiting : (k : ObjectKey) → g'.visiting k ≡ g.visiting k
  pub heights : (k : ObjectKey) → k ≢ key → Settled g k → g'.heights k ≡ g.heights k
  pub raised : g.heights key ≤ g'.heights key
  pub not_ready : g'.not_ready ≡ none → g.not_ready ≡ none

-- `g'` is later than `g`, and every product on the stack keeps its height
pub record Extends (g g' : Graph) : Type 0 where
  pub products :
      (k : ObjectKey) (p : DataProduct)
      → lookup k g.products ≡ some p
      → lookup k g'.products ≡ some p
  pub visited : (k : ObjectKey) → g.visited k ≡ true → g'.visited k ≡ true
  pub visiting : (k : ObjectKey) → g'.visiting k ≡ g.visiting k
  pub heights : (k : ObjectKey) → Settled g k → g'.heights k ≡ g.heights k
  pub not_ready : g'.not_ready ≡ none → g.not_ready ≡ none

pub Settled-mono : {g g' : Graph} {k : ObjectKey} → Extends g g' → Settled g k → Settled g' k
Settled-mono {k} x (inl h) = inl (x.visited k h)
Settled-mono {k} x (inr h) = inr (x.visiting k ∙ h)

pub Extends-trans : {a b c : Graph} → Extends a b → Extends b c → Extends a c
Extends-trans x y = record {
  products = λ k p h. y.products k p (x.products k p h);
  visited = λ k h. y.visited k (x.visited k h);
  visiting = λ k. y.visiting k ∙ x.visiting k;
  heights = λ k s. y.heights k (Settled-mono x s) ∙ x.heights k s;
  not_ready = λ h. x.not_ready (y.not_ready h);
}

pub Grows-Extends :
    (key : ObjectKey) {g g' : Graph} → g.visiting key ≡ true → Extends g g' → Grows key g g'
Grows-Extends key h x = record {
  products = x.products;
  visited = x.visited;
  visiting = x.visiting;
  heights = λ k _ s. x.heights k s;
  raised = omega (arith, x.heights key (inr h));
  not_ready = x.not_ready;
}

pub Grows-trans : {key : ObjectKey} {a b c : Graph} → Grows key a b → Grows key b c → Grows key a c
Grows-trans {key} {a} {b} {c} x y = record {
  products = λ k p h. y.products k p (x.products k p h);
  visited = λ k h. y.visited k (x.visited k h);
  visiting = λ k. y.visiting k ∙ x.visiting k;
  heights = λ k n s. y.heights k n (settled k s) ∙ x.heights k n s;
  raised = omega (arith, x.raised, y.raised);
  not_ready = λ h. x.not_ready (y.not_ready h);
}
  where
    settled : (k : ObjectKey) → Settled a k → Settled b k
    settled k (inl h) = inl (x.visited k h)
    settled k (inr h) = inr (x.visiting k ∙ h)

-- an input stays good where its producer keeps its height and its product does not sink
pub Good-mono :
    {w : World} {key : ObjectKey} {g g' : Graph} (p : DataProduct) (i : InputPort)
    → Grows key g g'
    → producer_key p i ≢ key
    → g.heights (object_key p) ≤ g'.heights (object_key p)
    → Good w g p i
    → Good w g' p i
Good-mono p i x other own h = record {
  producer = h.producer;
  same_namespace = h.same_namespace;
  observed = x.products _ _ h.observed;
  visited = x.visited _ h.visited;
  compatible = h.compatible;
  lower = omega (arith, x.heights _ other (inl h.visited), h.lower);
  ready = λ n. h.ready (x.not_ready n);
}

-- a product that is visited is not the one on the stack
pub visited-ne :
    {w : World} {g : Graph} {key : ObjectKey} (k : ObjectKey)
    → IsSound w g
    → g.visiting key ≡ true
    → g.visited k ≡ true
    → k ≢ key
visited-ne {g} k s on seen same = false_of (s.fresh k seen) (ap g.visiting same ∙ on)
  where
    false_of : g.visiting k ≡ false → g.visiting k ≡ true → ⊥
    false_of a b = cc

pub Node-mono :
    {w : World} {key : ObjectKey} {g g' : Graph} (k : ObjectKey)
    → IsSound w g
    → g.visiting key ≡ true
    → Grows key g g'
    → g.visited k ≡ true
    → Node w g k
    → Node w g' k
Node-mono {w} {key} {g} {g'} k s on x seen n = record {
  product = n.product;
  observed = x.products _ _ n.observed;
  keyed = n.keyed;
  inputs =
      All-mono (λ i good. Good-mono n.product i x (visited-ne _ s on good.visited) own good)
        n.product.spec.inputs n.inputs;
}
  where
    own : g.heights (object_key n.product) ≤ g'.heights (object_key n.product)
    own = rw n.keyed (omega (arith, x.heights k (visited-ne k s on seen) (inl seen)))
