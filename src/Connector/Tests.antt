-- ===== src/Connector/Tests.antt =====
-- The observation of one Deployment, and what the theorems say there.
use data_product_controller.Prelude.{◌≡◌, ◌↔◌, true, refl}
use data_product_controller.Prelude.{Memᴰ}
use data_product_controller.Connector.{
  Container, matches_contract_probe, matches_container, matches_http, observe_target,
  observe_contract,
}
use data_product_controller.Connector.Laws.{IsObserved, observe_target_iff}
use data_product_controller.Connector.Probe.{
  IsBound, IsContractObserved, matches_contract_probe-IsBound, observe_contract-ready,
}
use data_product_controller.Connector.Sample.{cluster, workload, target}
use data_product_controller.Controller.Samples.{reference, deployment_connector}

workload_matches : matches_contract_probe workload target ≡ true
unfolding matches_contract_probe matches_container matches_http
workload_matches = refl

contract_ready : (observe_contract cluster "shop" reference target).ready ≡ true
unfolding observe_contract matches_contract_probe matches_container matches_http
contract_ready = refl

observe_target_iff_example :
    ((observe_target cluster "shop" deployment_connector target).ready ≡ true)
    ↔ IsObserved cluster "shop" deployment_connector target
observe_target_iff_example = observe_target_iff cluster "shop" deployment_connector target

matches_contract_probe-IsBound_example :
    (c : Container) × Memᴰ c workload.containers × IsBound target c
matches_contract_probe-IsBound_example =
    matches_contract_probe-IsBound workload target workload_matches

observe_contract-ready_example : IsContractObserved cluster "shop" reference target
observe_contract-ready_example =
    observe_contract-ready cluster "shop" reference target contract_ready
