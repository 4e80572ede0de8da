-- ===== src/Controller/Reconcile/Tests.antt =====
-- A reconciliation of a product with an input and a contract check, and what the theorems say there.
use data_product_controller.Prelude.{
  ◌≡◌, true, false, Option, none, some, [], ◌∷◌, refl, if◌then◌else◌, ◌==◌, string_eq, sort_slice,
}
use data_product_controller.Kube.{
  ObjectKey, key_eq, found, failed, not_found, Condition, condition_true,
}
use data_product_controller.Kube.Sample.{sample_conditions, find, set, remove}
use data_product_controller.Api.{DataProduct, condition_ready, object_key}
use data_product_controller.Connector.{
  observe_contract, matches_contract_probe, matches_container, matches_http,
}
use data_product_controller.Connector.Sample.{cluster}
use data_product_controller.Controller.Compatibility.{
  find_output, input_compatibility, producer_ready,
}
use data_product_controller.Controller.Version.{compatible_version, stable_version}
use data_product_controller.Controller.Version.Sample.{lex_le, sample_semver}
use data_product_controller.Controller.Samples.{
  world, get, product, orders_input, api_check, ready_condition,
}
use data_product_controller.Controller.Graph.{
  visit, guarded, entered, entry, enter, leave, scan, round, locate, known_or_read, fetched,
  followed, checked, note_readiness,
}
use data_product_controller.Controller.Composition.{
  observe_composition, walked, conclude, with_inputs, with_conditions, recorded_lineage, lineage,
  input_status, set_composition_condition,
}
use data_product_controller.Controller.Contracts.{observe_contracts, check_contracts}
use data_product_controller.Controller.Reconcile.{
  Reconciler, Outcome, panicked, Returned, returned, no_source, reconcile, reconcile_read,
  reconcile_found, prepare, after_composition, observe_connector, observe_source, concluded, ready,
  set_readiness, update_status_if_changed, blocked, dependency_block, condition_block, source_block,
  or_else,
}
use data_product_controller.Controller.Reconcile.Ready.{product_of}
use data_product_controller.Controller.Reconcile.Justified.{
  IsJustified, reconcile_ready, reconcile_returns,
}

abbrev checked_reports : DataProduct
checked_reports = product "reports" (orders_input ∷ []) (api_check ∷ []) []

abbrev request : ObjectKey
request = object_key checked_reports

abbrev reconciler : Reconciler
reconciler = record {
  world = world;
  read = λ n k. if k == request then found checked_reports else failed not_found;
  connector_cluster = cluster;
  contract_cluster = λ _. cluster;
  provider = λ _ _. no_source;
  connectors_enabled = none;
  contracts_enabled = some true;
  sources_enabled = none;
  engine_providers_enabled = none;
  composition_enabled = some true;
  same_status = λ _ _. false;
  update = λ _. none;
  now = 11;
}

abbrev outcome_of : Option Outcome → Outcome
outcome_of none = panicked
outcome_of (some o) = o

abbrev outcome : Outcome
outcome = outcome_of (reconcile reconciler request)

abbrev left_or : Option DataProduct → DataProduct
left_or none = checked_reports
left_or (some p) = p

abbrev left : DataProduct
left = left_or (product_of outcome)

abbrev condition_or : Option Condition → Condition
condition_or none = ready_condition
condition_or (some c) = c

abbrev readiness : Condition
readiness = condition_or (world.conditions.find left.status.conditions condition_ready)

answered : reconciler.read 0 request ≡ found checked_reports
answered = refl

reconciled : reconcile reconciler request ≡ some outcome
unfolding sort_slice world get observe_composition walked conclude with_inputs with_conditions
    recorded_lineage visit guarded entered entry enter leave scan round locate known_or_read fetched
    followed checked note_readiness input_compatibility producer_ready find_output sample_semver
    sample_conditions lex_le find set remove compatible_version stable_version lineage input_status
    set_composition_condition check_contracts observe_contracts observe_contract
    matches_contract_probe matches_container matches_http reconcile reconcile_read reconcile_found
    prepare after_composition observe_connector observe_source concluded ready set_readiness
    update_status_if_changed blocked dependency_block condition_block source_block or_else
reconciled = refl

product_left : product_of outcome ≡ some left
unfolding sort_slice world get observe_composition walked conclude with_inputs with_conditions
    recorded_lineage visit guarded entered entry enter leave scan round locate known_or_read fetched
    followed checked note_readiness input_compatibility producer_ready find_output sample_semver
    sample_conditions lex_le find set remove compatible_version stable_version lineage input_status
    set_composition_condition check_contracts observe_contracts observe_contract
    matches_contract_probe matches_container matches_http reconcile reconcile_read reconcile_found
    prepare after_composition observe_connector observe_source concluded ready set_readiness
    update_status_if_changed blocked dependency_block condition_block source_block or_else
product_left = refl

readiness_stored : world.conditions.find left.status.conditions condition_ready ≡ some readiness
unfolding sort_slice world get observe_composition walked conclude with_inputs with_conditions
    recorded_lineage visit guarded entered entry enter leave scan round locate known_or_read fetched
    followed checked note_readiness input_compatibility producer_ready find_output sample_semver
    sample_conditions lex_le find set remove compatible_version stable_version lineage input_status
    set_composition_condition check_contracts observe_contracts observe_contract
    matches_contract_probe matches_container matches_http reconcile reconcile_read reconcile_found
    prepare after_composition observe_connector observe_source concluded ready set_readiness
    update_status_if_changed blocked dependency_block condition_block source_block or_else
readiness_stored = refl

readiness_true : readiness.status ≡ condition_true
unfolding sort_slice world get observe_composition walked conclude with_inputs with_conditions
    recorded_lineage visit guarded entered entry enter leave scan round locate known_or_read fetched
    followed checked note_readiness input_compatibility producer_ready find_output sample_semver
    sample_conditions lex_le find set remove compatible_version stable_version lineage input_status
    set_composition_condition check_contracts observe_contracts observe_contract
    matches_contract_probe matches_container matches_http reconcile reconcile_read reconcile_found
    prepare after_composition observe_connector observe_source concluded ready set_readiness
    update_status_if_changed blocked dependency_block condition_block source_block or_else
readiness_true = refl

reconcile_ready_example : IsJustified reconciler checked_reports left readiness
reconcile_ready_example =
    reconcile_ready reconciler request checked_reports left outcome readiness answered reconciled
      product_left readiness_stored readiness_true

reconcile_returns_example : (o : Returned) × (reconcile reconciler request ≡ some (returned o))
reconcile_returns_example = reconcile_returns reconciler request
