-- ===== src/Controller/Reconcile/Sourced.antt =====
-- internal/controller/dataproduct_controller.go over internal/provider/v1/provider.go: a reconciler
-- whose SourceProvider is the registry.
use data_product_controller.Prelude.{String, ◌≡◌, Bool, some, ap, sym, ◌∙◌}
use data_product_controller.Kube.{ObjectKey, found, Condition, condition_true}
use data_product_controller.Api.{ProvisionedSource, DataProduct, condition_ready}
use data_product_controller.Controller.Reports.{Report, report}
use data_product_controller.Controller.Reconcile.{Reconciler, Outcome, reconcile}
use data_product_controller.Controller.Reconcile.Ready.{product_of}
use data_product_controller.Controller.Reconcile.Justified.{reconcile_ready}
use data_product_controller.Provider.Registry.{Registry, observe_source_of}
use data_product_controller.Provider.Registry.Sourced.{IsObserved, observe_source_of-IsObserved}

-- the registry as a SourceProvider; `ended` says which contexts end early
abbrev pub provider_of :
    {Time Entry : Type 0}
    → Registry Time Entry
    → (String → ProvisionedSource → Bool)
    → String
    → ProvisionedSource
    → Report
provider_of g ended namespace s = report (observe_source_of g (ended namespace s) namespace s)

-- A product with a source that Reconcile leaves ready, with the registry as its source provider, has
-- a source that its selected engine provider has observed ready, in a context that had not ended.
pub reconcile_ready-IsObserved :
    {Time Entry : Type 0} (g : Registry Time Entry) (ended : String → ProvisionedSource → Bool)
    (r : Reconciler) (request : ObjectKey) (p p' : DataProduct) (o : Outcome) (c : Condition)
    (s : ProvisionedSource)
    → r.provider ≡ provider_of g ended
    → r.read 0 request ≡ found p
    → reconcile r request ≡ some o
    → product_of o ≡ some p'
    → r.world.conditions.find p'.status.conditions condition_ready ≡ some c
    → c.status ≡ condition_true
    → p.spec.source ≡ some s
    → IsObserved g p.namespace s (ended p.namespace s)
reconcile_ready-IsObserved g ended r request p p' o c s wired answer ran at_p stored up declared =
    let j = reconcile_ready r request p p' o c answer ran at_p stored up in
    observe_source_of-IsObserved g p.namespace s (ended p.namespace s) (
      ap (λ (f : String → ProvisionedSource → Report). (f p.namespace s).ready) (sym wired)
      ∙ (j.source s declared).provided)
