-- ===== src/Controller/Reconcile/Kept.antt =====
-- internal/controller/dataproduct_controller.go: what the three observers leave of the product.
use data_product_controller.Prelude.{◌≡◌, refl}
use data_product_controller.Api.{DataProduct, object_key}
use data_product_controller.Controller.Composition.{with_conditions}
use data_product_controller.Controller.Reconcile.{
  Reconciler, observe_connector, observe_source, prepare,
}

module _ (r : Reconciler) (p : DataProduct) where
  pub prepare-key : object_key (prepare r p).0 ≡ object_key p
  unfolding prepare observe_connector observe_source with_conditions
  prepare-key = refl

  pub prepare-generation : (prepare r p).0.generation ≡ p.generation
  unfolding prepare observe_connector observe_source with_conditions
  prepare-generation = refl

  pub prepare-spec : (prepare r p).0.spec ≡ p.spec
  unfolding prepare observe_connector observe_source with_conditions
  prepare-spec = refl
