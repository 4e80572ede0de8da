-- ===== src/Provider/Registry/Tests.antt =====
-- A registry over one source of each native engine, and what the theorem says of the graph source.
use data_product_controller.Provider.Names.{is_name, is_upper, is_lower}
use data_product_controller.Provider.Arango.Publication.{
  is_arango_publication, is_arango_name, continues_name, are_collections,
}
use data_product_controller.Provider.Percona.{observe_percona}
use data_product_controller.Provider.Hybrid.{observe_hybrid}
use data_product_controller.Provider.Cnpg.{observe_cnpg}
use data_product_controller.Provider.Arango.{is_supported_image}
use data_product_controller.Provider.Arango.Checksum.{arango_checksum}
use data_product_controller.Provider.Arango.Status.{
  require_arango, arango_readiness, runs_supported_image, is_text, is_one, only_root,
  checksum_or_stop, has_conditions, has_pod, is_accepted, is_applied, is_current_image,
  is_current_member, one_member, require_current,
}
use data_product_controller.Provider.Arango.Observe.{
  observe_arango, decoded_or_stop, is_operator_secret, names_secret,
}
use data_product_controller.Provider.{
  selects, conclude_checks, require, reader_or_stop, read_or_stop, unavailable,
}
use data_product_controller.Prelude.{◌≡◌, true, false, none, some, refl}
use data_product_controller.Provider.Sample.{parse_version}
use data_product_controller.Provider.Arango.Sample.{codec, api, graph, reader}
use data_product_controller.Provider.Registry.{
  Registry, observe_source_of, unless_ended, select, observe_selected,
}
use data_product_controller.Provider.Registry.Refused.{Refused, observe_source_of-Refused}
use data_product_controller.Provider.Registry.Sourced.{IsObserved, observe_source_of-IsObserved}

abbrev registry : Registry Unit Unit
registry = record {
  reader = some reader;
  generic = none;
  legacy_reader = none;
  mapper = none;
  parse_group_version = parse_version;
  codec = codec;
  api = api;
}

graph_ready : (observe_source_of registry false "shop" graph).ready ≡ true
unfolding observe_source_of unless_ended select selects observe_selected observe_arango
    conclude_checks require_arango require reader_or_stop read_or_stop decoded_or_stop
    arango_readiness runs_supported_image is_text is_one only_root checksum_or_stop arango_checksum
    has_conditions has_pod is_accepted is_applied is_current_image is_current_member one_member
    require_current is_supported_image observe_cnpg observe_hybrid observe_percona unavailable
    is_operator_secret names_secret is_arango_publication is_arango_name is_name is_upper is_lower
    continues_name are_collections
graph_ready = refl

observe_source_of-IsObserved_example : IsObserved registry "shop" graph false
observe_source_of-IsObserved_example =
    observe_source_of-IsObserved registry "shop" graph false graph_ready

-- the same source, where the context has ended
graph_late : (observe_source_of registry true "shop" graph).ready ≡ false
unfolding observe_source_of unless_ended select selects unavailable
graph_late = refl

observe_source_of-Refused_example : Refused (observe_source_of registry true "shop" graph)
observe_source_of-Refused_example =
    observe_source_of-Refused registry true "shop" graph
      (record { api_version = "engine-provider/v1"; kind = "graph"; provider = "native" }) refl
      graph_late
