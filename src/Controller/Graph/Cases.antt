-- ===== src/Controller/Graph/Cases.antt =====
-- The steps of the walk that succeed, taken apart: what each of them shows when the observation is
-- empty, and that a walk which stops early has a reason.
use data_product_controller.Prelude.{
  ℕ, ◌+◌, ◌<◌, ◌≡◌, some_inj, ◌≢◌, inl, inr, Option, none, some, List, ◌∷◌, arith, refl, ap, ◌∙◌,
  Bool-cases, ◌==◌, string_eq, eq_iff, lookup, length, leb,
}
use data_product_controller.Kube.{ObjectKey, key_eq, found, failed, Failure, Fetch, not_found}
use data_product_controller.Api.{InputPort, DataProduct, object_key}
use data_product_controller.Controller.World.{World}
use data_product_controller.Controller.Compatibility.{producer_key, input_compatibility}
use data_product_controller.Controller.Graph.{
  Graph, Observation, Visit, Located, absent, present, Round, stop, go_on, resume, ◌>>=◌, tick,
  fetched, locate, note_readiness, raise_height, checked, followed, round, scan,
  max_composition_products, composition_limit, read_failure, known_or_read, cross_namespace,
}

pub >>=-eq-some {ℓ κ} :
    {A : Type ℓ} {B : Type κ} (m : Option A) (f : A → Option B) {b : B}
    → (m >>= f) ≡ some b
    → (a : A) × (m ≡ some a) × (f a ≡ some b)
>>=-eq-some none f h = cc
>>=-eq-some (some a) f h = (a, refl, h)

-- the producer was observed before, or is read now below the limit on products
pub data Found (w : World) (k : ObjectKey) (g : Graph) (q : DataProduct) (g' : Graph) : Type 0 where
  known : lookup k g.products ≡ some q → g' ≡ g → Found w k g q g'
  read :
      lookup k g.products ≡ none
      → length g.products < max_composition_products
      → w.get g.clock k ≡ found q
      → g' ≡ record (tick g) { products = (k, q) ∷ g.products }
      → Found w k g q g'

-- an input that the loop passes
pub record Passed (w : World) (v : Visit) (p : DataProduct) (d : ℕ) (i : InputPort) (g g' : Graph)
    : Type 0 where
  pub producer : DataProduct
  pub before : Graph
  pub after : Graph
  pub observation : Observation
  pub same_namespace : (producer_key p i).namespace ≡ p.namespace
  pub located : Found w (producer_key p i) g producer before
  pub visited : v producer (d + 1) before ≡ some (observation, after)
  pub fine : observation.reason ≡ ""
  pub compatible : input_compatibility w.semver i producer ≡ ""
  pub result :
      g'
      ≡ note_readiness w producer
          (producer_key p i)
          (raise_height (object_key p) (producer_key p i) after)

-- the reason of a failed read is not empty
read_failure-reason :
    (i : InputPort) (key wanted : ObjectKey) (e : Failure)
    → (read_failure i key wanted e).reason ≢ ""
read_failure-reason i key wanted not_found h = cc
read_failure-reason i key wanted _ h = cc

module _ (w : World) where
  fetched-present :
      (i : InputPort) (key wanted : ObjectKey) (g : Graph) (r : Fetch DataProduct) (q : DataProduct)
      (g' : Graph)
      → fetched w i key wanted g r ≡ present q g'
      → (r ≡ found q) × (g' ≡ record (tick g) { products = (wanted, q) ∷ g.products })
  unfolding fetched
  fetched-present i key wanted g (failed e) q g' h = cc
  fetched-present i key wanted g (found p) q g' h = ground arith

  fetched-absent :
      (i : InputPort) (key wanted : ObjectKey) (g : Graph) (r : Fetch DataProduct) (o : Observation)
      (g' : Graph)
      → fetched w i key wanted g r ≡ absent o g'
      → o.reason ≢ ""
  unfolding fetched
  fetched-absent i key wanted g (failed e) o g' h k =
      let same : read_failure i key wanted e ≡ o = ground arith in
      read_failure-reason i key wanted e (ap (λ (x : Observation). x.reason) same ∙ k)
  fetched-absent i key wanted g (found p) o g' h k = cc

  known_or_read-present :
      (i : InputPort) (key wanted : ObjectKey) (g : Graph) (r : Option DataProduct)
      (q : DataProduct) (g' : Graph)
      → lookup wanted g.products ≡ r
      → known_or_read w i key wanted g r ≡ present q g'
      → Found w wanted g q g'
  unfolding known_or_read
  known_or_read-present i key wanted g (some p) q g' e h = known (ground arith) (ground arith)
  known_or_read-present i key wanted g none q g' e h =
      let (answer, result) =
        fetched-present i key wanted g (w.get g.clock wanted) q g' (ground arith) in
      read e (ground arith) answer result

  known_or_read-absent :
      (i : InputPort) (key wanted : ObjectKey) (g : Graph) (r : Option DataProduct)
      (o : Observation) (g' : Graph)
      → known_or_read w i key wanted g r ≡ absent o g'
      → o.reason ≢ ""
  unfolding known_or_read
  known_or_read-absent i key wanted g (some p) o g' h k = cc
  known_or_read-absent i key wanted g none o g' h k =
      elim (Bool-cases (leb max_composition_products (length g.products))) [
        | inl full ↦ limit_case (rw full at h)
        | inr room ↦ fetched-absent i key wanted g (w.get g.clock wanted) o g' (rw room at h) k
      ]
    where
      limit_case : absent composition_limit g ≡ absent o g' → ⊥
      limit_case e = cc

  checked-go_on :
      (p : DataProduct) (i : InputPort) (q : DataProduct) (o : Observation) (g g' : Graph)
      → checked w p i q o g ≡ go_on g'
      → (o.reason ≡ "")
        × (input_compatibility w.semver i q ≡ "")
        × (g'
            ≡ note_readiness w q
                (producer_key p i)
                (raise_height (object_key p) (producer_key p i) g))
  unfolding checked
  checked-go_on p i q o g g' h =
      ground (arith, eq_iff o.reason "", eq_iff (input_compatibility w.semver i q) "")

  checked-stop :
      (p : DataProduct) (i : InputPort) (q : DataProduct) (o r : Observation) (g g' : Graph)
      → checked w p i q o g ≡ stop r g'
      → r.reason ≢ ""
  unfolding checked
  checked-stop p i q o r g g' h k =
      ground (arith, eq_iff o.reason "", eq_iff (input_compatibility w.semver i q) "")

  followed-go_on :
      (v : Visit) (p : DataProduct) (d : ℕ) (i : InputPort) (g g' : Graph) (l : Located)
      → locate w i (object_key p) (producer_key p i) g ≡ l
      → (producer_key p i).namespace ≡ p.namespace
      → followed w v p d i l ≡ some (go_on g')
      → Passed w v p d i g g'
  unfolding followed locate
  followed-go_on v p d i g g' (absent o g1) e same h = cc
  followed-go_on v p d i g g' (present q g1) e same h =
      let ((o, g2), visited, k) = >>=-eq-some (v q (d + 1) g1) _ h in
      let (fine, compatible, result) = checked-go_on p i q o g2 g' (some_inj k) in
      record {
        producer = q;
        before = g1;
        after = g2;
        observation = o;
        same_namespace = same;
        located =
            known_or_read-present i (object_key p) (producer_key p i) g
              (lookup (producer_key p i) g.products) q g1 refl e;
        visited = visited;
        fine = fine;
        compatible = compatible;
        result = result;
      }

  followed-stop :
      (v : Visit) (p : DataProduct) (d : ℕ) (i : InputPort) (g g' : Graph) (l : Located)
      (o : Observation)
      → locate w i (object_key p) (producer_key p i) g ≡ l
      → followed w v p d i l ≡ some (stop o g')
      → o.reason ≢ ""
  unfolding followed locate
  followed-stop v p d i g g' (absent o g1) r e h k =
      known_or_read-absent i (object_key p) (producer_key p i) g
        (lookup (producer_key p i) g.products) o g1 e (ground arith)
  followed-stop v p d i g g' (present q g1) r e h k =
      let ((o, g2), visited, stops) = >>=-eq-some (v q (d + 1) g1) _ h in
      checked-stop p i q o r g2 g' (some_inj stops) k

  -- What an input that the loop passes shows.
  pub round-go_on :
      (v : Visit) (p : DataProduct) (d : ℕ) (i : InputPort) (g g' : Graph)
      → round w v p d i g ≡ some (go_on g')
      → Passed w v p d i g g'
  unfolding round
  round-go_on v p d i g g' h = elim (Bool-cases ((producer_key p i).namespace == p.namespace)) [
    | inr other ↦ absurd (denied (rw other at h))
    | inl same ↦ followed-go_on v p d i g g' _ refl ((eq_iff _ _).0 same) (rw same at h)
  ]
    where
      denied : some (stop cross_namespace g) ≡ some (go_on g') → ⊥
      denied e = cc

  -- A loop that stops has a reason.
  pub round-stop :
      (v : Visit) (p : DataProduct) (d : ℕ) (i : InputPort) (g : Graph) (o : Observation)
      (g' : Graph)
      → round w v p d i g ≡ some (stop o g')
      → o.reason ≢ ""
  unfolding round
  round-stop v p d i g o g' h k = elim (Bool-cases ((producer_key p i).namespace == p.namespace)) [
    | inr other ↦ denied (rw other at h)
    | inl same ↦ followed-stop v p d i g g' _ o refl (rw same at h) k
  ]
    where
      denied : some (stop cross_namespace g) ≡ some (stop o g') → ⊥
      denied e = cc

  -- a loop that ends with an empty observation has passed its first input
  pub scan-cons :
      (v : Visit) (p : DataProduct) (d : ℕ) (i : InputPort) (rest : List InputPort) (g : Graph)
      (o : Observation) (g' : Graph)
      → scan w v p d (i ∷ rest) g ≡ some (o, g')
      → o.reason ≡ ""
      → (g1 : Graph) × Passed w v p d i g g1 × (scan w v p d rest g1 ≡ some (o, g'))
  unfolding scan
  scan-cons v p d i rest g o g' h fine =
      let (r, e, k) = >>=-eq-some (round w v p d i g) _ h in resumed r e k
    where
      resumed :
          (r : Round)
          → round w v p d i g ≡ some r
          → resume r (λ g1. scan w v p d rest g1) ≡ some (o, g')
          → (g1 : Graph) × Passed w v p d i g g1 × (scan w v p d rest g1 ≡ some (o, g'))
      resumed (stop r g1) e k = absurd (
          round-stop v p d i g r g1 e
            (ap (λ (x : Observation × Graph). x.0.reason) (some_inj k) ∙ fine))
      resumed (go_on g1) e k = (g1, round-go_on v p d i g g1 e, k)
