-- ===== src/Controller/Reconcile/SourcedTests.antt =====
-- A reconciliation of a product with a native SQL source, and what the theorem says of that source.
use data_product_controller.Kube.Sample.{sample_conditions}
use data_product_controller.Provisioner.{is_current, string_of, holds}
use data_product_controller.Provider.Cnpg.{
  observe_cnpg, is_cnpg_source, generated_secret, cnpg_ready, owned_by,
}
use data_product_controller.Provider.{
  selects, conclude_checks, require, reader_or_stop, read_or_stop, is_omitted, int_of, counts,
}
use data_product_controller.Controller.Composition.{observe_composition}
use data_product_controller.Prelude.{◌≡◌, true, false, Option, none, some, [], refl}
use data_product_controller.Kube.{found, Condition, condition_true}
use data_product_controller.Api.{DataProduct, condition_ready}
use data_product_controller.Connector.Sample
use data_product_controller.Controller.Samples.{world, product, ready_condition, orders_key}
use data_product_controller.Controller.Reconcile.{Reconciler, Outcome, panicked, reconcile}
use data_product_controller.Controller.Reconcile.Ready.{product_of}
use data_product_controller.Controller.Reconcile.Sourced.{provider_of, reconcile_ready-IsObserved}
use data_product_controller.Provider.Sample.{
  reader_of, parse_version, cluster, app_secret, sql_source,
}
use data_product_controller.Provider.Arango.Sample.{codec, api}
use data_product_controller.Provider.Registry.{
  Registry, observe_source_of, unless_ended, select, observe_selected,
}
use data_product_controller.Provider.Registry.Sourced.{IsObserved}

abbrev registry : Registry Unit Unit
registry = record {
  reader = some (reader_of (cluster "postgresql:17") app_secret);
  generic = none;
  legacy_reader = none;
  mapper = none;
  parse_group_version = parse_version;
  codec = codec;
  api = api;
}

-- a product of the source, and a reconciler that reads it
abbrev sourced : DataProduct
sourced =
    let p = product "orders" [] [] [] in
    record {
      name = p.name;
      namespace = p.namespace;
      generation = p.generation;
      deleting = p.deleting;
      spec = record {
        id = p.spec.id;
        name = p.spec.name;
        description = p.spec.description;
        version = p.spec.version;
        owner = p.spec.owner;
        documentation_url = p.spec.documentation_url;
        inputs = [];
        outputs = p.spec.outputs;
        ui = none;
        source = some sql_source;
        connector = none;
        contract_checks = [];
      };
      status = p.status;
    }

abbrev reconciler : Reconciler
reconciler = record {
  world = world;
  read = λ _ _. found sourced;
  connector_cluster = Sample.cluster;
  contract_cluster = λ _. Sample.cluster;
  provider = provider_of registry (λ _ _. false);
  connectors_enabled = none;
  contracts_enabled = none;
  sources_enabled = some true;
  engine_providers_enabled = some true;
  composition_enabled = none;
  same_status = λ _ _. false;
  update = λ _. none;
  now = 11;
}

abbrev outcome_of : Option Outcome → Outcome
outcome_of none = panicked
outcome_of (some o) = o

abbrev outcome : Outcome
outcome = outcome_of (reconcile reconciler orders_key)

abbrev left_or : Option DataProduct → DataProduct
left_or none = sourced
left_or (some p) = p

abbrev left : DataProduct
left = left_or (product_of outcome)

abbrev condition_or : Option Condition → Condition
condition_or none = ready_condition
condition_or (some c) = c

abbrev readiness : Condition
readiness = condition_or (world.conditions.find left.status.conditions condition_ready)

reconciled : reconcile reconciler orders_key ≡ some outcome
unfolding reconcile observe_composition
reconciled = refl

product_left : product_of outcome ≡ some left
unfolding reconcile observe_composition observe_source_of unless_ended select selects
    observe_selected observe_cnpg conclude_checks require is_cnpg_source reader_or_stop read_or_stop
    generated_secret is_omitted cnpg_ready is_current string_of holds int_of counts owned_by world
    sample_conditions
product_left = refl

readiness_stored : world.conditions.find left.status.conditions condition_ready ≡ some readiness
unfolding reconcile world sample_conditions observe_composition observe_source_of unless_ended
    select selects observe_selected observe_cnpg conclude_checks require is_cnpg_source
    reader_or_stop read_or_stop generated_secret is_omitted cnpg_ready is_current string_of holds
    int_of counts owned_by
readiness_stored = refl

readiness_true : readiness.status ≡ condition_true
unfolding reconcile world sample_conditions observe_composition observe_source_of unless_ended
    select selects observe_selected observe_cnpg conclude_checks require is_cnpg_source
    reader_or_stop read_or_stop generated_secret is_omitted cnpg_ready is_current string_of holds
    int_of counts owned_by
readiness_true = refl

reconcile_ready-IsObserved_example : IsObserved registry "shop" sql_source false
reconcile_ready-IsObserved_example =
    reconcile_ready-IsObserved registry (λ _ _. false) reconciler orders_key sourced left outcome
      readiness sql_source refl refl reconciled product_left readiness_stored readiness_true refl
