-- ===== src/Controller/Compatibility/Tests.antt =====
-- A producer that supplies an input and is ready.
use data_product_controller.Prelude.{◌≡◌, ◌↔◌, true}
use data_product_controller.Controller.Compatibility.{input_compatibility, producer_ready}
use data_product_controller.Controller.Compatibility.Laws.{
  Supplies, IsReady, input_compatibility_iff, producer_ready_iff,
}
use data_product_controller.Controller.Samples.{orders_input, orders}
use data_product_controller.Controller.Version.Sample.{sample_semver}
use data_product_controller.Kube.Sample.{sample_conditions}

input_compatibility_iff_example :
    (input_compatibility sample_semver orders_input orders ≡ "")
    ↔ Supplies sample_semver orders_input orders
input_compatibility_iff_example = input_compatibility_iff sample_semver orders_input orders

producer_ready_iff_example :
    (producer_ready sample_conditions orders ≡ true) ↔ IsReady sample_conditions orders
producer_ready_iff_example = producer_ready_iff sample_conditions orders
