-- ===== src/Controller/Contracts/Tests.antt =====
-- One contract check that is ready, and what the theorem says of it.
use data_product_controller.Prelude.{◌≡◌, true, [], ◌∷◌, refl}
use data_product_controller.Connector.{
  observe_contract, matches_contract_probe, matches_container, matches_http,
}
use data_product_controller.Connector.Sample.{cluster}
use data_product_controller.Api.{DataProduct}
use data_product_controller.Controller.Compatibility.{find_output}
use data_product_controller.Controller.Samples.{product, api_check}
use data_product_controller.Controller.Contracts.{check_contracts}
use data_product_controller.Controller.Contracts.Laws.{AreChecked, check_contracts-ready}

abbrev publisher : DataProduct
publisher = product "publisher" [] (api_check ∷ []) []

publisher_ready : (check_contracts (λ _. cluster) publisher).ready ≡ true
unfolding check_contracts find_output observe_contract matches_contract_probe matches_container
    matches_http
publisher_ready = refl

check_contracts-ready_example : AreChecked (λ _. cluster) publisher
check_contracts-ready_example = check_contracts-ready (λ _. cluster) publisher publisher_ready
