-- ===== src/Controller/Reconcile.antt =====
-- internal/controller/dataproduct_controller.go: one reconciliation, from the read of the product
-- to the write of its status. `none` of a model function is fuel that ran out in the composition
-- walk, `panicked` is a nil pointer that the code would follow.
pub mod Observers
pub mod Kept
pub mod Ready
pub mod Justified
pub mod Sourced
mod Tests
mod SourcedTests
use data_product_controller.Prelude.{
  ℕ, suc, ◌+◌, String, Bool, true, false, not, ◌&&◌, ◌||◌, Option, none, some, List, [], ◌∷◌, ◌++◌,
  if◌then◌else◌, is_some, is_empty, any, ◌==◌, string_eq,
}
use data_product_controller.Kube.{
  ObjectKey, Message, text, format, Failure, not_found, Fetch, found, failed, Condition,
  ConditionStatus, condition_true, condition_false, is_true,
}
use data_product_controller.Api.{
  OutputPort, InputPort, ProvisionedSource, EngineSelection, Connector, DataProduct,
  DataProductStatus, condition_ready, condition_source_ready, condition_connector_ready,
  condition_contracts_ready, condition_composition_ready,
}
use data_product_controller.Connector.{Cluster, observe}
use data_product_controller.Controller.World.{World}
use data_product_controller.Controller.Compatibility.{producer_key, producer_ready}
use data_product_controller.Controller.Composition.{enabled, with_conditions, observe_composition}
use data_product_controller.Controller.Graph.{◌>>=◌}
use data_product_controller.Controller.Reports.{Report, report, report_condition}
use data_product_controller.Controller.Contracts.{observe_contracts}

-- DataProductReconciler. `read` is its client, by the number of reads before; `provider` is its
-- SourceProvider, or the registry in its place; `same_status` is apiequality.Semantic.DeepEqual;
-- `update` is Status().Update; `now` is metav1.Now(). A nil gate is `none`.
pub record Reconciler : Type 1 where
  pub world : World
  pub read : ℕ → ObjectKey → Fetch DataProduct
  pub connector_cluster : Cluster
  pub contract_cluster : ℕ → Cluster
  pub provider : String → ProvisionedSource → Report
  pub connectors_enabled : Option Bool
  pub contracts_enabled : Option Bool
  pub sources_enabled : Option Bool
  pub engine_providers_enabled : Option Bool
  pub composition_enabled : Option Bool
  pub same_status : DataProductStatus → DataProductStatus → Bool
  pub update : DataProduct → Option Failure
  pub now : ℕ

-- what Reconcile returns: the seconds until the next run, the joined errors, and the product whose
-- status was submitted, if it was
pub record Returned : Type 0 where
  pub requeue_after : Option ℕ
  pub errors : List Failure
  pub product : Option DataProduct
  pub submitted : Bool

pub data Outcome : Type 0 where
  panicked : Outcome
  returned : Returned → Outcome

-- why a product is not ready, and the error that is returned with it
pub record Blocked : Type 0 where
  pub reason : String
  pub message : Message
  pub err : Option Failure

abbrev connector_feature_disabled : Report
connector_feature_disabled = record {
  ready = false;
  reason = "ConnectorFeatureDisabled";
  message = text "Enable connector-readiness to observe this product's connector Deployment.";
}

abbrev source_feature_disabled : Report
source_feature_disabled = record {
  ready = false;
  reason = "SourceFeatureDisabled";
  message = text "Enable the provisioned-sources feature to observe this product's source.";
}

abbrev engine_feature_disabled : Report
engine_feature_disabled = record {
  ready = false;
  reason = "EngineProviderFeatureDisabled";
  message = text "Enable engine-providers to observe this product's selected engine.";
}

abbrev pub no_source : Report
no_source = record { ready = true; reason = ""; message = text "" }

-- hasOutput
pub has_port : List OutputPort → String → Bool
has_port [] name = false
has_port (o ∷ rest) name = o.name == name || has_port rest name

pub has_output : DataProduct → String → Bool
unfolding has_port
has_output p name = has_port p.spec.outputs name

-- the earlier of two reasons
pub or_else : Option Blocked → Option Blocked → Option Blocked
or_else (some b) later = some b
or_else none later = later

-- a condition that is there and not true
pub condition_block : Option Condition → Option Blocked
condition_block none = none
condition_block (some c) =
    if not (is_true c.status)
    then some (record { reason = c.reason; message = c.message; err = none })
    else none

abbrev errors_of : Option Failure → List Failure
errors_of none = []
errors_of (some e) = e ∷ []

module _ (r : Reconciler) where
  pub connector_report : DataProduct → Connector → Report
  connector_report p c =
      if enabled r.connectors_enabled
      then report (observe r.connector_cluster p.namespace c)
      else connector_feature_disabled

  pub connector_conditions : DataProduct → Option Connector → List Condition
  unfolding connector_report
  connector_conditions p none =
      r.world.conditions.remove p.status.conditions condition_connector_ready
  connector_conditions p (some c) =
      r.world.conditions.set p.status.conditions
        (report_condition condition_connector_ready p (connector_report p c))

  -- `observeConnector`
  pub observe_connector : DataProduct → DataProduct
  unfolding connector_conditions with_conditions
  observe_connector p = with_conditions p (connector_conditions p p.spec.connector)

  pub source_report : DataProduct → ProvisionedSource → Report
  source_report p s =
      if enabled r.sources_enabled
      then if is_some s.engine && not (enabled r.engine_providers_enabled)
        then engine_feature_disabled
        else r.provider p.namespace s
      else source_feature_disabled

  -- only a source with an engine has a condition
  pub source_conditions : DataProduct → ProvisionedSource → Option EngineSelection → List Condition
  unfolding source_report
  source_conditions p s none = r.world.conditions.remove p.status.conditions condition_source_ready
  source_conditions p s (some e) =
      r.world.conditions.set p.status.conditions
        (report_condition condition_source_ready p (source_report p s))

  pub observed_source : DataProduct → Option ProvisionedSource → List Condition × Report
  unfolding source_conditions
  observed_source p none =
      (r.world.conditions.remove p.status.conditions condition_source_ready, no_source)
  observed_source p (some s) = (source_conditions p s s.engine, source_report p s)

  -- `observeSource`
  pub observe_source : DataProduct → DataProduct × Report
  unfolding observed_source with_conditions
  observe_source p = let o = observed_source p p.spec.source in (with_conditions p (o.0), o.1)

  -- `setReadiness`
  pub set_readiness : DataProduct → ConditionStatus → String → Message → DataProduct
  set_readiness p status reason message = record p {
    status = record p.status {
      observed_generation = p.generation;
      conditions = r.world.conditions.set p.status.conditions (record {
        kind = condition_ready;
        status = status;
        observed_generation = p.generation;
        last_transition_time = some r.now;
        reason = reason;
        message = message;
      });
    };
  }

  -- the end of one round of the loop over the inputs
  pub judged_input : InputPort → ObjectKey → Fetch DataProduct → Option Blocked
  unfolding has_output
  judged_input input key (failed not_found) = some (record {
    reason = "DependencyNotFound";
    message =
        format "Input %q references missing DataProduct %s/%s."
          (input.name ∷ key.namespace ∷ key.name ∷ []);
    err = none;
  })
  judged_input input key (failed e) = some (record {
    reason = "DependencyUnavailable";
    message =
        text
          "A referenced data product could not be observed; check Kubernetes API availability and controller access.";
    err = some e;
  })
  judged_input input key (found d) =
      if not (producer_ready r.world.conditions d)
      then some (record {
        reason = "DependencyNotReady";
        message =
            format "Input %q references DataProduct %s/%s, which is not Ready."
              (input.name ∷ key.namespace ∷ key.name ∷ []);
        err = none;
      })
      else if not (has_output d input.product_ref.output)
      then some (record {
        reason = "OutputNotFound";
        message =
            format "Input %q references missing output %q on DataProduct %s/%s."
              (input.name ∷ input.product_ref.output ∷ key.namespace ∷ key.name ∷ []);
        err = none;
      })
      else none

  pub blocked_input : DataProduct → ℕ → InputPort → Option Blocked
  unfolding judged_input
  blocked_input p n input =
      let key = producer_key p input in
      if not (key.namespace == p.namespace)
      then some (record {
        reason = "CrossNamespaceDependencyDenied";
        message =
            text
              "Dependencies require producers in the same namespace; cross-namespace producer authorization is not supported.";
        err = none;
      })
      else judged_input input key (r.read n key)

  -- the loop over the inputs, without a composition condition
  pub blocked_inputs : DataProduct → ℕ → List InputPort → Option Blocked
  unfolding or_else blocked_input
  blocked_inputs p n [] = none
  blocked_inputs p n (input ∷ rest) =
      or_else (blocked_input p n input) (blocked_inputs p (n + 1) rest)

  pub source_block : DataProduct → Report → Option Blocked
  source_block p o =
      if is_some p.spec.source && not o.ready
      then some (record { reason = o.reason; message = o.message; err = none })
      else none

  -- a composition condition stands in for the inputs
  pub dependency_block : DataProduct → Option Condition → Option Blocked
  unfolding condition_block blocked_inputs
  dependency_block p none = blocked_inputs p 1 p.spec.inputs
  dependency_block p (some c) = condition_block (some c)

  abbrev condition_of : DataProduct → String → Option Condition
  condition_of p kind = r.world.conditions.find p.status.conditions kind

  -- the first reason not to be ready, in the order of the code
  pub blocked : DataProduct → Report → Option Blocked
  unfolding or_else source_block dependency_block condition_block
  blocked p source = or_else (source_block p source) (
      or_else (dependency_block p (condition_of p condition_composition_ready)) (
        or_else (condition_block (condition_of p condition_connector_ready))
          (condition_block (condition_of p condition_contracts_ready))))

  pub requeue : DataProduct → Option ℕ
  requeue p =
      if is_some (condition_of p condition_composition_ready)
        || (is_some p.spec.connector
            || (not (is_empty p.spec.contract_checks) || is_some p.spec.source))
      then some 30
      else none

  -- `updateStatusIfChanged`
  pub update_status_if_changed : DataProduct → DataProductStatus → Option Failure
  update_status_if_changed p previous = if r.same_status previous p.status then none else r.update p

  abbrev closed : DataProduct → DataProductStatus → Option ℕ → List Failure → Outcome
  closed p previous after errors = returned (record {
    requeue_after = after;
    errors = errors;
    product = some p;
    submitted = not (r.same_status previous p.status);
  })

  -- a run that ends with the product not ready
  pub unready : DataProduct → DataProductStatus → Blocked → Outcome
  unfolding set_readiness update_status_if_changed
  unready p previous b =
      let p' = set_readiness p condition_false b.reason b.message in
      closed p' previous (requeue p)
        (errors_of b.err ++ errors_of (update_status_if_changed p' previous))

  -- a failed update also drops the requeue of a run that ends ready
  pub ready : DataProduct → DataProductStatus → Outcome
  unfolding set_readiness update_status_if_changed
  ready p previous =
      let p' =
        set_readiness p condition_true "DependenciesReady"
          (text "All referenced data products and output ports are ready.") in
      let failure = update_status_if_changed p' previous in
      closed p' previous (if is_some failure then none else requeue p) (errors_of failure)

  pub concluded : DataProduct → DataProductStatus → Option Blocked → Outcome
  unfolding unready ready
  concluded p previous none = ready p previous
  concluded p previous (some b) = unready p previous b

  -- the composition failed: its condition is followed without a test
  pub composition_failed : DataProduct → DataProductStatus → Failure → Option Condition → Outcome
  unfolding unready
  composition_failed p previous e none = panicked
  composition_failed p previous e (some c) =
      unready p previous (record { reason = c.reason; message = c.message; err = some e })

  pub after_composition : DataProductStatus → Report → DataProduct × Option Failure → Outcome
  unfolding composition_failed concluded blocked
  after_composition previous source (p, some e) =
      composition_failed p previous e (condition_of p condition_composition_ready)
  after_composition previous source (p, none) = concluded p previous (blocked p source)

  -- the conditions that stand before the composition is observed
  pub prepare : DataProduct → DataProduct × Report
  unfolding observe_connector observe_contracts observe_source with_conditions
  prepare p =
      let p1 = observe_connector p in
      let p2 =
        with_conditions p1
          (observe_contracts r.world.conditions r.contract_cluster r.contracts_enabled p1) in
      observe_source p2

  pub reconcile_found : DataProduct → Option Outcome
  unfolding prepare after_composition
  reconcile_found p = do
    observed ← observe_composition r.world r.composition_enabled (prepare p).0
    some (after_composition p.status (prepare p).1 observed)

  pub reconcile_read : Fetch DataProduct → Option Outcome
  unfolding reconcile_found
  reconcile_read (failed not_found) =
      some
        (returned (record { requeue_after = none; errors = []; product = none; submitted = false }))
  reconcile_read (failed e) = some (
      returned
        (record { requeue_after = none; errors = e ∷ []; product = none; submitted = false }))
  reconcile_read (found p) = reconcile_found p

  -- `Reconcile`
  pub reconcile : ObjectKey → Option Outcome
  unfolding reconcile_read
  reconcile request = reconcile_read (r.read 0 request)
