-- ===== src/Controller/Reconcile/Observers.antt =====
-- internal/controller/dataproduct_controller.go: what the connector, contract and source observers
-- leave on the product, when nothing blocks it.
use data_product_controller.Prelude.{
  String, ◌≡◌, ◌≢◌, Bool, true, false, Option, none, some, List, is_some, is_empty, arith, eq_iff,
  ◌==◌, string_eq, Bool-cases, inl, inr, refl, ◌∙◌, ap, All-mono,
}
use data_product_controller.Kube.{Condition, ConditionApi}
use data_product_controller.Api.{
  Connector, ProvisionedSource, EngineSelection, DataProduct, DataProductSpec,
  condition_source_ready, condition_connector_ready, condition_contracts_ready,
}
use data_product_controller.Connector.Laws.{IsObserved, observe_target_iff}
use data_product_controller.Connector.{observe}
use data_product_controller.Controller.Composition.{enabled, with_conditions}
use data_product_controller.Controller.Reports.{Report, report_condition}
use data_product_controller.Controller.Contracts.{observe_contracts}
use data_product_controller.Controller.Contracts.Laws.{
  AreChecked, IsChecked, observe_contracts-other, contracts_report-ready,
}
use data_product_controller.Controller.Reconcile.{
  Reconciler, Blocked, connector_report, connector_conditions, observe_connector, source_report,
  source_conditions, observed_source, observe_source, prepare, condition_block, or_else,
  source_block,
}

-- two texts that a test tells apart
pub differ : (a b : String) → (a == b) ≡ false → a ≢ b
differ a b h e = ground (arith, eq_iff a b)

pub or_else-none : (a b : Option Blocked) → or_else a b ≡ none → (a ≡ none) × (b ≡ none)
unfolding or_else
or_else-none none b h = (refl, h)
or_else-none (some x) b h = cc

-- a report that is not ready blocks by its condition
unblocked_report :
    (api : ConditionApi) (cs : List Condition) (kind : String) (p : DataProduct) (r : Report)
    → condition_block (api.find (api.set cs (report_condition kind p r)) kind) ≡ none
    → r.ready ≡ true
unfolding condition_block
unblocked_report api cs kind p r h =
    let (t, e) = api.find-set_self cs (report_condition kind p r) in
    elim (Bool-cases r.ready) [ inl up ↦ up | inr down ↦ absurd (clash (rw (e, down) at h)) ]
  where
    clash : {b : Blocked} → ◌≢◌ {A = Option Blocked} (some b) none
    clash x = cc

-- a source that is observed ready
pub record IsSourced (r : Reconciler) (p : DataProduct) (s : ProvisionedSource) : Type 0 where
  pub gate : enabled r.sources_enabled ≡ true
  pub engine : is_some s.engine ≡ true → enabled r.engine_providers_enabled ≡ true
  pub provided : (r.provider p.namespace s).ready ≡ true

module _ (r : Reconciler) where
  connector_report-ready :
      (p : DataProduct) (c : Connector)
      → (connector_report r p c).ready ≡ true
      → (enabled r.connectors_enabled ≡ true) × IsObserved r.connector_cluster p.namespace c ""
  unfolding connector_report observe
  connector_report-ready p c h = elim (Bool-cases (enabled r.connectors_enabled)) [
    | inl on ↦ (on, (observe_target_iff r.connector_cluster p.namespace c "").0 (rw on at h))
    | inr off ↦ absurd (clash (rw off at h))
  ]
    where
      clash : ◌≢◌ {A = Bool} false true
      clash x = cc

  pub source_report-ready :
      (p : DataProduct) (s : ProvisionedSource)
      → (source_report r p s).ready ≡ true
      → IsSourced r p s
  unfolding source_report
  source_report-ready p s h = record {
    gate = ground arith;
    engine = λ e. ground arith;
    provided = ground arith;
  }

  observed_source-other :
      (p : DataProduct) (s : Option ProvisionedSource) (kind : String)
      → kind ≢ condition_source_ready
      → r.world.conditions.find (observed_source r p s).0 kind
        ≡ r.world.conditions.find p.status.conditions kind
  unfolding observed_source source_conditions
  observed_source-other p none kind n =
      r.world.conditions.find-remove_ne p.status.conditions condition_source_ready kind n
  observed_source-other p (some s) kind n = go s.engine
    where
      go :
          (e : Option EngineSelection)
          → r.world.conditions.find (source_conditions r p s e) kind
            ≡ r.world.conditions.find p.status.conditions kind
      go none = r.world.conditions.find-remove_ne p.status.conditions condition_source_ready kind n
      go (some e) = r.world.conditions.find-set_ne p.status.conditions _ kind n

  abbrev checked_product : DataProduct → DataProduct
  checked_product p = with_conditions (observe_connector r p) (
      observe_contracts r.world.conditions r.contract_cluster r.contracts_enabled
        (observe_connector r p))

  -- the connector's condition that is there after all three observers
  prepared_connector :
      (p : DataProduct)
      → r.world.conditions.find (prepare r p).0.status.conditions condition_connector_ready
        ≡ r.world.conditions.find
            (connector_conditions r p p.spec.connector)
            condition_connector_ready
  unfolding prepare observe_source observe_connector with_conditions
  prepared_connector p =
      observed_source-other (checked_product p) p.spec.source condition_connector_ready
        (differ condition_connector_ready condition_source_ready refl)
      ∙ observe_contracts-other r.world.conditions r.contract_cluster r.contracts_enabled
          (observe_connector r p) condition_connector_ready
          (differ condition_connector_ready condition_contracts_ready refl)

  prepared_contracts :
      (p : DataProduct)
      → r.world.conditions.find (prepare r p).0.status.conditions condition_contracts_ready
        ≡ r.world.conditions.find
            (observe_contracts r.world.conditions r.contract_cluster r.contracts_enabled
              (observe_connector r p))
            condition_contracts_ready
  unfolding prepare observe_source observe_connector with_conditions
  prepared_contracts p =
      observed_source-other (checked_product p) p.spec.source condition_contracts_ready
        (differ condition_contracts_ready condition_source_ready refl)

  -- a declared connector that does not block was observed ready
  pub connector_unblocked :
      (p : DataProduct) (c : Connector)
      → p.spec.connector ≡ some c
      → condition_block
          (r.world.conditions.find (prepare r p).0.status.conditions condition_connector_ready)
        ≡ none
      → (enabled r.connectors_enabled ≡ true) × IsObserved r.connector_cluster p.namespace c ""
  unfolding connector_conditions
  connector_unblocked p c declared h = connector_report-ready p c (
      unblocked_report r.world.conditions p.status.conditions condition_connector_ready p
        (connector_report r p c) (rw (prepared_connector p, declared) at h))

  checked_again :
      (p : DataProduct)
      → AreChecked r.contract_cluster (observe_connector r p)
      → AreChecked r.contract_cluster p
  unfolding observe_connector data_product_controller.Controller.Compatibility.find_output
  checked_again p a = record {
    few = a.few;
    distinct = a.distinct;
    checked =
        All-mono
          (λ check (k : IsChecked r.contract_cluster (observe_connector r p) check). record {
            output = k.output;
            declared = k.declared;
            moment = k.moment;
            observed = k.observed;
          })
          p.spec.contract_checks a.checked;
  }

  -- declared contract checks that do not block were observed ready
  pub contracts_unblocked :
      (p : DataProduct)
      → is_empty p.spec.contract_checks ≡ false
      → condition_block
          (r.world.conditions.find (prepare r p).0.status.conditions condition_contracts_ready)
        ≡ none
      → (enabled r.contracts_enabled ≡ true) × AreChecked r.contract_cluster p
  unfolding observe_contracts observe_connector
  contracts_unblocked p some_checks h =
      let (on, checked) =
        contracts_report-ready r.contract_cluster r.contracts_enabled (observe_connector r p) (
          unblocked_report r.world.conditions (observe_connector r p).status.conditions
            condition_contracts_ready (observe_connector r p) _
            (rw (prepared_contracts p, some_checks) at h)) in
      (on, checked_again p checked)

  prepared_source :
      (p : DataProduct) (s : ProvisionedSource)
      → p.spec.source ≡ some s
      → (prepare r p).1 ≡ source_report r p s
  unfolding prepare observe_source observe_connector observed_source source_report with_conditions
  prepared_source p s declared = rw declared refl

  source_block-none :
      (q : DataProduct) (o : Report)
      → is_some q.spec.source ≡ true
      → source_block r q o ≡ none
      → o.ready ≡ true
  unfolding source_block
  source_block-none q o declared h = elim (Bool-cases o.ready) [
    | inl up ↦ up
    | inr down ↦ absurd (clash (rw (declared, down) at h))
  ]
    where
      clash : {b : Blocked} → ◌≢◌ {A = Option Blocked} (some b) none
      clash x = cc

  -- a declared source that does not block was observed ready
  pub source_unblocked :
      (p q : DataProduct) (s : ProvisionedSource)
      → q.spec ≡ p.spec
      → p.spec.source ≡ some s
      → source_block r q (prepare r p).1 ≡ none
      → IsSourced r p s
  source_unblocked p q s same declared h = source_report-ready p s (
      rw (prepared_source p s declared) at (
        source_block-none q (prepare r p).1
          (ap (λ (x : DataProductSpec). is_some x.source) same ∙ ap is_some declared) h))
