-- ===== src/Provisioner/Tests.antt =====
-- The observation of one claimed database, and what the theorem says of it.
use data_product_controller.Prelude.{◌≡◌, true, refl}
use data_product_controller.Provisioner.{observe_provisioned}
use data_product_controller.Provisioner.Sourced.{IsProvisioned, observe_provisioned-ready}
use data_product_controller.Provisioner.Sample.{crossplane, claimed}

claimed_ready : (observe_provisioned crossplane "shop" claimed).ready ≡ true
unfolding observe_provisioned
claimed_ready = refl

observe_provisioned-ready_example : IsProvisioned crossplane "shop" claimed
observe_provisioned-ready_example =
    observe_provisioned-ready crossplane "shop" claimed claimed_ready
