-- ===== src/Provider/Registry.antt =====
-- internal/provider/v1/provider.go: the registry of providers. A context's deadline is not modelled
-- as time: whether the context has ended once the selected provider returns is an argument.
pub mod Sourced
pub mod Refused
mod Tests
use data_product_controller.Prelude.{
  String, Bool, true, false, ◌&&◌, ◌||◌, Option, none, some, if◌then◌else◌, ◌==◌, string_eq,
}
use data_product_controller.Api.{EngineSelection, ProvisionedSource}
use data_product_controller.Connector.{Observation}
use data_product_controller.Provisioner
use data_product_controller.Provisioner.{GroupVersion, Crossplane, observe_provisioned}
use data_product_controller.Provider.{Reader, unavailable, selects}
use data_product_controller.Provider.Cnpg.{observe_cnpg}
use data_product_controller.Provider.Hybrid.{observe_hybrid}
use data_product_controller.Provider.Percona.{observe_percona}
use data_product_controller.Provider.Arango.{Codec, ArangoApi}
use data_product_controller.Provider.Arango.Observe.{observe_arango}

-- Registry; `generic` is the engine reader as the Crossplane observer reads by it
pub record Registry (Time Entry : Type 0) : Type 0 where
  pub reader : Option Reader
  pub generic : Option Provisioner.Reader
  pub legacy_reader : Option Provisioner.Reader
  pub mapper : Option (GroupVersion → String → Option Bool)
  pub parse_group_version : String → Option GroupVersion
  pub codec : Codec Time Entry
  pub api : ArangoApi

-- what a selection is dispatched to
pub data Provider : Type 0 where
  crossplane native_sql hybrid native_document native_graph : Provider

-- the switch of Observe
unfoldable pub select : Option EngineSelection → String → Option Provider
select none adapter = if adapter == "crossplane/v1" then some crossplane else none
select (some e) adapter =
    if selects (some e) "sql" "native" && adapter == "cnpg/v1"
    then some native_sql
    else if (selects (some e) "document" "cnpg-hybrid" || selects (some e) "graph" "cnpg-hybrid")
        && adapter == "cnpg-hybrid/v1"
    then some hybrid
    else if selects (some e) "document" "native" && adapter == "percona-mongodb/v1"
    then some native_document
    else if selects (some e) "graph" "native" && adapter == "arangodb/v1"
    then some native_graph
    else none

-- the reader of the Crossplane observer
abbrev pub legacy_or :
    Option Provisioner.Reader → Option Provisioner.Reader → Option Provisioner.Reader
legacy_or (some reader) fallback = some reader
legacy_or none fallback = fallback

abbrev pub crossplane_of : {Time Entry : Type 0} → Registry Time Entry → Crossplane
crossplane_of r = record {
  reader = legacy_or r.legacy_reader r.generic;
  mapper = r.mapper;
  parse_group_version = r.parse_group_version;
}

-- `selected.Observe`
unfoldable pub observe_selected :
    {Time Entry : Type 0}
    → Registry Time Entry
    → String
    → ProvisionedSource
    → Option Provider
    → Observation
observe_selected r namespace s none =
    unavailable "EngineProviderUnsupported"
      "Select a supported engine type, provider and versioned adapter."
observe_selected r namespace s (some crossplane) = observe_provisioned (crossplane_of r) namespace s
observe_selected r namespace s (some native_sql) =
    observe_cnpg r.parse_group_version r.reader namespace s
observe_selected r namespace s (some hybrid) = observe_hybrid r.reader namespace s
observe_selected r namespace s (some native_document) = observe_percona r.reader namespace s
observe_selected r namespace s (some native_graph) =
    observe_arango r.codec r.api r.reader namespace s

-- what follows the observation, where nothing was selected or the context may have ended
unfoldable pub unless_ended : Bool → Option Provider → Observation → Observation
unless_ended ended none o = o
unless_ended false (some _) o = o
unless_ended true (some _) o =
    unavailable "SourceUnavailable"
      "The source observation was cancelled or exceeded its deadline; retry when the Kubernetes API is available."

-- Observe of Registry
unfoldable pub observe_source_of :
    {Time Entry : Type 0} → Registry Time Entry → Bool → String → ProvisionedSource → Observation
observe_source_of r ended namespace s =
    let selected = select s.engine s.adapter in
    unless_ended ended selected (observe_selected r namespace s selected)
