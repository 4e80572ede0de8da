-- ===== src/Controller/Requests/Products.antt =====
-- internal/controller/dataproduct_controller.go, `requestsForDependency`: the requests in terms of
-- the listed products.
use data_product_controller.Prelude.{
  ◌≡◌, ◌≢◌, ◌⊎◌, ◌↔◌, true, false, some, List, [], ◌∷◌, ◌++◌, map, ◌==◌, Bool-cases, false≢true,
  inl, inr, refl, sym, ◌∙◌, subst, Memᴰ,
}
use mathlib.Core.List.Memᴰ
use data_product_controller.Kube.{ObjectKey, key_eq, key_beq_iff, found}
use data_product_controller.Api.{InputPort, DataProduct, object_key}
use data_product_controller.Controller.Compatibility.{producer_key}
use data_product_controller.Controller.Requests.{
  Edge, edge, edges, consumers_of, requests_for_dependency,
}
use data_product_controller.Controller.Requests.Reached.{Consumes, direct, onward}
use data_product_controller.Controller.Requests.Exact.{requests_among_iff}

-- the key of a listed product that names `k` as the producer of an input
pub record Takes (ps : List DataProduct) (k c : ObjectKey) : Type 0 where
  pub product : DataProduct
  pub input : InputPort
  pub listed : Memᴰ product ps
  pub declared : Memᴰ input product.spec.inputs
  pub from : producer_key product input ≡ k
  pub key : object_key product ≡ c

-- a chain of listed products from `k` to `c`, each of which takes an output of the one before
pub data Depends (ps : List DataProduct) (k : ObjectKey) : ObjectKey → Type 0 where
  takes : {c : ObjectKey} → Takes ps k c → Depends ps k c
  follows : {m c : ObjectKey} → Depends ps k m → Takes ps m c → Depends ps k c

consumers_of-append :
    (k c : ObjectKey) (xs ys : List Edge)
    → Memᴰ c (consumers_of k (xs ++ ys)) ↔ (Memᴰ c (consumers_of k xs) ⊎ Memᴰ c (consumers_of k ys))
consumers_of-append k c [] ys =
    (λ m. inr m, λ m. elim m [ inl x ↦ absurd (Memᴰ.not-nil x) | inr x ↦ x ])
consumers_of-append k c (e ∷ xs) ys = elim (Bool-cases (e.producer == k)) [
  | inl named ↦ rw named (
    λ m. elim (Memᴰ.cases_cons m) [
      | inl same ↦ inl (Memᴰ.head same)
      | inr later ↦ elim ((consumers_of-append k c xs ys).0 later) [
        | inl x ↦ inl (Memᴰ.tail x)
        | inr y ↦ inr y
      ]
    ],
    λ m. elim m [
      | inl x ↦ elim (Memᴰ.cases_cons x) [
        | inl same ↦ Memᴰ.head same
        | inr later ↦ Memᴰ.tail ((consumers_of-append k c xs ys).1 (inl later))
      ]
      | inr y ↦ Memᴰ.tail ((consumers_of-append k c xs ys).1 (inr y))
    ],
  )
  | inr other ↦ rw other (consumers_of-append k c xs ys)
]

-- the edges of one product
consumers_of-map :
    (k c : ObjectKey) (p : DataProduct) (is : List InputPort)
    → Memᴰ c (consumers_of k (map (edge p) is))
      ↔ ((i : InputPort) × Memᴰ i is × (producer_key p i ≡ k) × (object_key p ≡ c))
consumers_of-map k c p [] = (λ m. absurd (Memᴰ.not-nil m), λ m. absurd (Memᴰ.not-nil m.1))
consumers_of-map k c p (i ∷ is) = elim (Bool-cases (producer_key p i == k)) [
  | inl named ↦ rw named (
    λ m. elim (Memᴰ.cases_cons m) [
      | inl same ↦ (i, Memᴰ.head refl, (key_beq_iff (producer_key p i) k).0 named, sym same)
      | inr later ↦
          let (j, member, from, key) = (consumers_of-map k c p is).0 later in
          (j, Memᴰ.tail member, from, key)
    ],
    λ m. Memᴰ.head (sym m.3),
  )
  | inr other ↦ rw other (
    λ m.
        let (j, member, from, key) = (consumers_of-map k c p is).0 m in
        (j, Memᴰ.tail member, from, key),
    λ m. elim (Memᴰ.cases_cons m.1) [
      | inl same ↦ absurd (clash other (subst (λ x. producer_key p x ≡ k) same m.2))
      | inr later ↦ (consumers_of-map k c p is).1 (m.0, later, m.2, m.3)
    ],
  )
]
  where
    clash : (producer_key p i == k) ≡ false → producer_key p i ≢ k
    clash apart same = false≢true (sym apart ∙ (key_beq_iff (producer_key p i) k).1 same)

consumers_of-edges :
    (k c : ObjectKey) (ps : List DataProduct) → Memᴰ c (consumers_of k (edges ps)) ↔ Takes ps k c
consumers_of-edges k c [] = (λ m. absurd (Memᴰ.not-nil m), λ t. absurd (Memᴰ.not-nil t.listed))
consumers_of-edges k c (p ∷ ps) = (
  λ m. elim ((consumers_of-append k c (map (edge p) p.spec.inputs) (edges ps)).0 m) [
    | inl own ↦
        let (i, member, from, key) = (consumers_of-map k c p p.spec.inputs).0 own in
        record {
          product = p;
          input = i;
          listed = Memᴰ.head refl;
          declared = member;
          from = from;
          key = key;
        }
    | inr later ↦
        let t = (consumers_of-edges k c ps).0 later in
        record {
          product = t.product;
          input = t.input;
          listed = Memᴰ.tail t.listed;
          declared = t.declared;
          from = t.from;
          key = t.key;
        }
  ],
  λ t.
      (consumers_of-append k c (map (edge p) p.spec.inputs) (edges ps)).1
        (elim (Memᴰ.cases_cons t.listed) [
          | inl same ↦ inl (
              (consumers_of-map k c p p.spec.inputs).1 (
                t.input,
                subst (λ (x : DataProduct). Memᴰ t.input x.spec.inputs) same t.declared,
                subst (λ x. producer_key x t.input ≡ k) same t.from,
                subst (λ x. object_key x ≡ c) same t.key,
              ))
          | inr later ↦ inr (
              (consumers_of-edges k c ps).1 (record {
                product = t.product;
                input = t.input;
                listed = later;
                declared = t.declared;
                from = t.from;
                key = t.key;
              }))
        ]),
)

Consumes-Depends :
    (ps : List DataProduct) (k c : ObjectKey) → Consumes (edges ps) k c → Depends ps k c
Consumes-Depends ps k c (direct m) = takes ((consumers_of-edges k c ps).0 m)
Consumes-Depends ps k c (onward {m = j} to m) =
    follows (Consumes-Depends ps k j to) ((consumers_of-edges j c ps).0 m)

Depends-Consumes :
    (ps : List DataProduct) (k c : ObjectKey) → Depends ps k c → Consumes (edges ps) k c
Depends-Consumes ps k c (takes t) = direct ((consumers_of-edges k c ps).1 t)
Depends-Consumes ps k c (follows {m = j} to t) =
    onward (Depends-Consumes ps k j to) ((consumers_of-edges j c ps).1 t)

-- With composition enabled and the products listed, an event of a product ends in requests for
-- exactly the listed products that take an output of it, directly or through other products.
pub requests_for_dependency_iff :
    (producer : DataProduct) (ps : List DataProduct)
    → (rs : List ObjectKey) × (requests_for_dependency (some true) (some producer) (found ps)
        ≡ some rs)
      × ((c : ObjectKey) → Memᴰ c rs ↔ Depends ps (object_key producer) c)
unfolding requests_for_dependency
requests_for_dependency_iff producer ps =
    let (rs, ran, exact) = requests_among_iff (object_key producer) (edges ps) in
    (
      rs,
      ran,
      λ c. (
        λ m. Consumes-Depends ps (object_key producer) c ((exact c).0 m),
        λ to. (exact c).1 (Depends-Consumes ps (object_key producer) c to),
      ),
    )
