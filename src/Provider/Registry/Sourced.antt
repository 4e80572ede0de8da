-- ===== src/Provider/Registry/Sourced.antt =====
-- internal/provider/v1/provider.go, `Observe`: what a source that the registry observes ready shows.
use data_product_controller.Prelude.{
  String, ◌≡◌, Bool, true, false, Option, none, some, string_eq, refl,
}
use data_product_controller.Api.{ProvisionedSource}
use data_product_controller.Provisioner.Sourced.{IsProvisioned, observe_provisioned-ready}
use data_product_controller.Provider.{unavailable}
use data_product_controller.Provider.Cnpg.Published.{IsPublished, observe_cnpg-IsPublished}
use data_product_controller.Provider.Hybrid.Published.{
  IsHybridPublished, observe_hybrid-IsHybridPublished,
}
use data_product_controller.Provider.Percona.Published.{
  IsPerconaPublished, observe_percona-IsPerconaPublished,
}
use data_product_controller.Provider.Arango.Observe.Published.{
  IsGraphPublished, observe_arango-IsGraphPublished,
}
use data_product_controller.Provider.Registry.{
  Registry, Provider, crossplane, native_sql, hybrid, native_document, native_graph, select,
  crossplane_of, observe_selected, unless_ended, observe_source_of,
}

module _ {Time Entry : Type 0} (r : Registry Time Entry) (namespace : String)
    (s : ProvisionedSource) where
  -- the contract of a ready source, by its provider
  pub Contract : Provider → Type 0
  Contract crossplane = IsProvisioned (crossplane_of r) namespace s
  Contract native_sql = IsPublished r.parse_group_version r.reader namespace s
  Contract hybrid = IsHybridPublished r.reader namespace s
  Contract native_document = IsPerconaPublished r.reader namespace s
  Contract native_graph = IsGraphPublished r.codec r.api r.reader namespace s

  -- a source that its provider has observed ready while the context was alive
  pub record IsObserved (ended : Bool) : Type 0 where
    pub alive : ended ≡ false
    pub provider : Provider
    pub selected : select s.engine s.adapter ≡ some provider
    pub contract : Contract provider

  observe_selected-Contract :
      (p : Provider) → (observe_selected r namespace s (some p)).ready ≡ true → Contract p
  unfolding observe_selected Contract
  observe_selected-Contract crossplane h = observe_provisioned-ready (crossplane_of r) namespace s h
  observe_selected-Contract native_sql h =
      observe_cnpg-IsPublished r.parse_group_version r.reader namespace s h
  observe_selected-Contract hybrid h = observe_hybrid-IsHybridPublished r.reader namespace s h
  observe_selected-Contract native_document h =
      observe_percona-IsPerconaPublished r.reader namespace s h
  observe_selected-Contract native_graph h =
      observe_arango-IsGraphPublished r.codec r.api r.reader namespace s h

  ended-IsObserved :
      (ended : Bool) (o : Option Provider)
      → select s.engine s.adapter ≡ o
      → (unless_ended ended o (observe_selected r namespace s o)).ready ≡ true
      → IsObserved ended
  unfolding unless_ended observe_selected unavailable
  ended-IsObserved ended none selected h = cc
  ended-IsObserved true (some p) selected h = cc
  ended-IsObserved false (some p) selected h = record {
    alive = refl;
    provider = p;
    selected = selected;
    contract = observe_selected-Contract p h;
  }

  -- The registry observes a source ready only if its context has not ended, its engine and adapter
  -- select a provider, and the source meets the contract of that provider.
  pub observe_source_of-IsObserved :
      (ended : Bool) → (observe_source_of r ended namespace s).ready ≡ true → IsObserved ended
  unfolding observe_source_of
  observe_source_of-IsObserved ended h = ended-IsObserved ended (select s.engine s.adapter) refl h
