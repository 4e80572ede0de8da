-- ===== src/Controller/Reconcile/Justified.antt =====
-- internal/controller/dataproduct_controller.go, `Reconcile`: a run that leaves the product ready,
-- and the runs that return.
use data_product_controller.Prelude.{
  All-mono, ◌≡◌, ◌≢◌, ◌⊎◌, true, false, Option, none, some, List, [], is_empty, string_eq,
  Bool-cases, inl, inr, refl, ◌∙◌, ap, subst, some_inj, All,
}
use data_product_controller.Kube.{
  ObjectKey, Failure, not_found, Fetch, found, failed, Condition, ConditionStatus, condition_true,
  condition_false, condition_unknown, is_true,
}
use data_product_controller.Api.{
  InputPort, Connector, ProvisionedSource, DataProduct, DataProductStatus, DataProductSpec,
  condition_ready, condition_composition_ready, condition_connector_ready,
  condition_contracts_ready,
}
use data_product_controller.Connector.Laws.{IsObserved}
use data_product_controller.Controller.Graph.{Graph}
use data_product_controller.Controller.Graph.Cases.{>>=-eq-some}
use data_product_controller.Controller.Composition.{enabled, with_inputs, observe_composition}
use data_product_controller.Controller.Composition.Keeps.{observe_composition-Kept}
use data_product_controller.Controller.Composition.Verdict.{Composed, Walked, composition_verdict}
use data_product_controller.Controller.Contracts.Laws.{AreChecked}
use data_product_controller.Controller.Reconcile.{
  Reconciler, Blocked, Returned, Outcome, returned, prepare, reconcile, reconcile_read,
  reconcile_found, after_composition, composition_failed, concluded, ready, unready, blocked,
  dependency_block, condition_block,
}
use data_product_controller.Controller.Reconcile.Kept.{
  prepare-key, prepare-generation, prepare-spec,
}
use data_product_controller.Controller.Reconcile.Observers.{
  differ, or_else-none, IsSourced, connector_unblocked, contracts_unblocked, source_unblocked,
}
use data_product_controller.Controller.Reconcile.Ready.{
  IsServed, product_of, Concludes, after_composition-Concludes, blocked_inputs-none,
}
use data_product_controller.Controller.Composition.Keeps.{observe_composition-failed}
use data_product_controller.Controller.Composition.Reasons.{observe_composition_returns}
use data_product_controller.Controller.Composition.{with_conditions}
use data_product_controller.Controller.Reconcile.{observe_connector, observe_source}

-- That this reconciliation walked the composition below the product it had prepared, and verified it.
pub record IsVerified (r : Reconciler) (p p' : DataProduct) : Type 0 where
  pub graph : Graph
  pub walked : Walked r.world r.composition_enabled (with_inputs (prepare r p).0 []) graph
  pub composed : Composed r.world (with_inputs p []) p' graph

-- What a reconciliation has observed of a product that it leaves ready.
pub record IsJustified (r : Reconciler) (p p' : DataProduct) (c : Condition) : Type 0 where
  pub current : c.observed_generation ≡ p.generation
  pub source : (s : ProvisionedSource) → p.spec.source ≡ some s → IsSourced r p s
  pub connector :
      (k : Connector)
      → p.spec.connector ≡ some k
      → (enabled r.connectors_enabled ≡ true) × IsObserved r.connector_cluster p.namespace k ""
  pub contracts :
      is_empty p.spec.contract_checks ≡ false
      → (enabled r.contracts_enabled ≡ true) × AreChecked r.contract_cluster p
  pub inputs : All (IsServed r p) p.spec.inputs ⊎ IsVerified r p p'

IsServed-again :
    (r : Reconciler) (p q : DataProduct) (inputs : List InputPort)
    → q.namespace ≡ p.namespace
    → All (IsServed r q) inputs
    → All (IsServed r p) inputs
IsServed-again r p q inputs e h =
    All-mono
      (λ i (s : IsServed r q i). record {
        same_namespace = rw e at s.same_namespace;
        moment = s.moment;
        producer = s.producer;
        read = rw e at s.read;
        ready = s.ready;
        output = s.output;
      })
      inputs h

condition_block-true : (c : Condition) → condition_block (some c) ≡ none → c.status ≡ condition_true
unfolding condition_block
condition_block-true c h = elim (Bool-cases (is_true c.status)) [
  | inl up ↦ go c.status up
  | inr down ↦ absurd (clash (rw down at h))
]
  where
    clash : {b : Blocked} → ◌≢◌ {A = Option Blocked} (some b) none
    clash x = cc

    go : (s : ConditionStatus) → is_true s ≡ true → s ≡ condition_true
    go condition_true e = refl
    go condition_false e = cc
    go condition_unknown e = cc

-- the composition of the prepared product is that of the product itself
Composed-again :
    (r : Reconciler) (p q p' : DataProduct) (g : Graph)
    → p'.status.inputs ≡ q.status.inputs
    → Composed r.world (with_inputs (prepare r p).0 []) q g
    → Composed r.world (with_inputs p []) p' g
unfolding with_inputs prepare observe_connector observe_source with_conditions
Composed-again r p q p' g e k = record {
  acyclic = k.acyclic;
  inputs = k.inputs;
  direct = rw e k.direct;
}

-- the inputs of a product that is not blocked
inputs_unblocked :
    (r : Reconciler) (p q p' : DataProduct) (d : Option Condition)
    → observe_composition r.world r.composition_enabled (prepare r p).0 ≡ some (q, none)
    → r.world.conditions.find q.status.conditions condition_composition_ready ≡ d
    → dependency_block r q d ≡ none
    → p'.status.inputs ≡ q.status.inputs
    → All (IsServed r p) p.spec.inputs ⊎ IsVerified r p p'
unfolding dependency_block
inputs_unblocked r p q p' none ran stored h e =
    let kept =
      observe_composition-Kept r.world r.composition_enabled (prepare r p).0 (q, none) ran in
    let same : q.spec ≡ p.spec = kept.spec ∙ prepare-spec r p in
    inl (
      IsServed-again r p q p.spec.inputs
        (kept.namespace ∙ ap (λ (k : ObjectKey). k.namespace) (prepare-key r p))
        (subst (λ (x : DataProductSpec). All (IsServed r q) x.inputs) same
          (blocked_inputs-none r q 1 q.spec.inputs h)))
inputs_unblocked r p q p' (some c) ran stored h e =
    let (g, walk, composed) =
      (composition_verdict r.world r.composition_enabled (prepare r p).0 q none c ran stored).1
        (condition_block-true c h) in
    inr (record { graph = g; walked = walk; composed = Composed-again r p q p' g e composed })

-- the reasons of a run that ends ready
justified :
    (r : Reconciler) (p q p' : DataProduct) (c : Condition)
    → observe_composition r.world r.composition_enabled (prepare r p).0 ≡ some (q, none)
    → Concludes r q p' (prepare r p).1 c
    → IsJustified r p p' c
unfolding blocked
justified r p q p' c ran k =
    let kept =
      observe_composition-Kept r.world r.composition_enabled (prepare r p).0 (q, none) ran in
    let (source, after_source) = or_else-none _ _ k.unblocked in
    let (inputs, after_inputs) = or_else-none _ _ after_source in
    let (connector, contracts) =
      or_else-none
        (condition_block (r.world.conditions.find q.status.conditions condition_connector_ready))
        (condition_block (r.world.conditions.find q.status.conditions condition_contracts_ready))
        after_inputs in
    record {
      current = k.generation ∙ (kept.generation ∙ prepare-generation r p);
      source =
          λ s declared. source_unblocked r p q s (kept.spec ∙ prepare-spec r p) declared source;
      connector = λ d declared. connector_unblocked r p d declared (
          rw
            (kept.other condition_connector_ready
              (differ condition_connector_ready condition_composition_ready refl))
            at connector);
      contracts = λ declared. contracts_unblocked r p declared (
          rw
            (kept.other condition_contracts_ready
              (differ condition_contracts_ready condition_composition_ready refl))
            at contracts);
      inputs = inputs_unblocked r p q p' _ ran refl inputs k.inputs;
    }

IsJustified-run :
    (r : Reconciler) (p q p' : DataProduct) (err : Option Failure) (c : Condition)
    → observe_composition r.world r.composition_enabled (prepare r p).0 ≡ some (q, err)
    → product_of (after_composition r p.status (prepare r p).1 (q, err)) ≡ some p'
    → r.world.conditions.find p'.status.conditions condition_ready ≡ some c
    → c.status ≡ condition_true
    → IsJustified r p p' c
IsJustified-run r p q p' none c observed at_p stored up =
    justified r p q p' c observed
      (after_composition-Concludes r q p' none p.status (prepare r p).1 c at_p stored up).1
IsJustified-run r p q p' (some e) c observed at_p stored up = absurd (
    clash (after_composition-Concludes r q p' (some e) p.status (prepare r p).1 c at_p stored up).0)
  where
    clash : ◌≢◌ {A = Option Failure} (some e) none
    clash x = cc

-- If a reconciliation leaves the product with a true Ready condition, the condition is for the
-- generation that was read; a declared source, with its gates on, was reported ready by its
-- provider; a declared connector was observed available; declared contract checks were all
-- observed ready; and either every input was read as a ready producer of the namespace with the
-- output, or the composition feature was on, this run's own walk below the product ended without a
-- reason and noted no producer as not ready, and the graph it returned is acyclic with every input
-- on it supplied by a ready producer of its namespace.
pub reconcile_ready :
    (r : Reconciler) (request : ObjectKey) (p p' : DataProduct) (o : Outcome) (c : Condition)
    → r.read 0 request ≡ found p
    → reconcile r request ≡ some o
    → product_of o ≡ some p'
    → r.world.conditions.find p'.status.conditions condition_ready ≡ some c
    → c.status ≡ condition_true
    → IsJustified r p p' c
unfolding reconcile reconcile_read reconcile_found
reconcile_ready r request p p' o c answer ran at_p stored up =
    let ((q, err), observed, ended) =
      >>=-eq-some (observe_composition r.world r.composition_enabled (prepare r p).0) _
        (rw answer at ran) in
    IsJustified-run r p q p' err c observed (ap product_of (some_inj ended) ∙ at_p) stored up

failed_returns :
    (r : Reconciler) (q : DataProduct) (previous : DataProductStatus) (e : Failure) (c : Condition)
    (d : Option Condition)
    → d ≡ some c
    → (o : Returned) × (composition_failed r q previous e d ≡ returned o)
unfolding composition_failed unready
failed_returns r q previous e c none h = absurd (clash h)
  where
    clash : ◌≢◌ {A = Option Condition} none (some c)
    clash x = cc
failed_returns r q previous e c (some d) h = (_, refl)

concluded_returns :
    (r : Reconciler) (q : DataProduct) (previous : DataProductStatus) (b : Option Blocked)
    → (o : Returned) × (concluded r q previous b ≡ returned o)
unfolding concluded ready unready
concluded_returns r q previous none = (_, refl)
concluded_returns r q previous (some b) = (_, refl)

run_returns :
    (r : Reconciler) (p q : DataProduct) (err : Option Failure)
    → observe_composition r.world r.composition_enabled (prepare r p).0 ≡ some (q, err)
    → (o : Returned) × (after_composition r p.status (prepare r p).1 (q, err) ≡ returned o)
unfolding after_composition
run_returns r p q none ran = concluded_returns r q p.status (blocked r q (prepare r p).1)
run_returns r p q (some e) ran =
    let (c, stored) =
      observe_composition-failed r.world r.composition_enabled (prepare r p).0 q e ran in
    failed_returns r q p.status e c _ stored

found_returns :
    (r : Reconciler) (p : DataProduct) → (o : Returned) × (reconcile_found r p ≡ some (returned o))
unfolding reconcile_found
found_returns r p =
    let ((q, err), ran) =
      observe_composition_returns r.world r.composition_enabled (prepare r p).0 in
    let (o, e) = run_returns r p q err ran in (o, rw ran (ap some e))

read_returns :
    (r : Reconciler) (f : Fetch DataProduct)
    → (o : Returned) × (reconcile_read r f ≡ some (returned o))
unfolding reconcile_read
read_returns r (failed not_found) = (_, refl)
read_returns r (failed _) = (_, refl)
read_returns r (found p) = found_returns r p

-- A reconciliation always returns, whatever the cluster answers, and never follows a nil condition.
pub reconcile_returns :
    (r : Reconciler) (request : ObjectKey)
    → (o : Returned) × (reconcile r request ≡ some (returned o))
unfolding reconcile
reconcile_returns r request = read_returns r (r.read 0 request)
