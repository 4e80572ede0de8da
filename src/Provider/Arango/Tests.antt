-- ===== src/Provider/Arango/Tests.antt =====
-- A running ArangoDeployment with a published graph, and what the theorems say of it.
use data_product_controller.Provider.Names.{is_name, is_upper, is_lower}
use data_product_controller.Prelude.{◌≡◌, true, some, [], ◌∷◌, refl, string_eq, Memᴰ}
use data_product_controller.Controller.Version.{codes}
use data_product_controller.Provider.{
  go, require, conclude_checks, selects, reader_or_stop, read_or_stop, unavailable,
}
use data_product_controller.Provider.Arango.{DeploymentSpec, VolumeClaim, is_supported_image}
use data_product_controller.Provider.Arango.Checksum.{arango_checksum}
use data_product_controller.Provider.Arango.Publication.{
  are_collections, is_arango_name, continues_name, is_arango_publication,
}
use data_product_controller.Provider.Arango.Publication.Collections.{
  IsCollections, are_collections_iff,
}
use data_product_controller.Provider.Arango.Status.{
  has_conditions, arango_readiness, runs_supported_image, require_arango, is_text, is_one,
  only_root, checksum_or_stop, require_current, is_applied, is_accepted, is_current_image,
  one_member, is_current_member, has_pod,
}
use data_product_controller.Provider.Arango.Status.Conditions.{
  IsTrueOnly, has_conditions-IsTrueOnly,
}
use data_product_controller.Provider.Arango.Status.Running.{IsRunning, arango_readiness-IsRunning}
use data_product_controller.Provider.Arango.Observe.{
  observe_arango, decoded_or_stop, is_operator_secret, names_secret,
}
use data_product_controller.Provider.Arango.Observe.Published.{
  IsGraphPublished, observe_arango-IsGraphPublished,
}
use data_product_controller.Provider.Arango.Sample.{
  codec, spec, conditions, deployment, api, graph, reader,
}

two_collections : are_collections (codes "orders,items") ≡ true
unfolding are_collections is_arango_name is_name is_upper is_lower continues_name
two_collections = refl

are_collections_iff_example : IsCollections (codes "orders,items")
are_collections_iff_example = (are_collections_iff (codes "orders,items")).0 two_collections

both_ready : has_conditions conditions ("Ready" ∷ "UpToDate" ∷ []) ≡ true
unfolding has_conditions
both_ready = refl

has_conditions-IsTrueOnly_example : IsTrueOnly conditions "UpToDate"
has_conditions-IsTrueOnly_example =
    has_conditions-IsTrueOnly conditions ("Ready" ∷ "UpToDate" ∷ []) "UpToDate" both_ready
      (Memᴰ.tail (Memᴰ.head refl))

-- a claim whose metadata the operator encodes otherwise, and a specification around it
abbrev short_claim : VolumeClaim
short_claim = record {
  encoded = some (codes "{\"metadata\":{\"name\":\"d\"}}");
  encoded_metadata = some (codes "{\"name\":\"d\"}");
}

abbrev short_spec : DeploymentSpec
short_spec = record spec {
  encoded = some (codes "{\"pvc\":{\"metadata\":{\"name\":\"d\"}}}");
  claims = some short_claim ∷ [];
}

graph_running : arango_readiness codec api deployment ≡ go tt
unfolding arango_readiness require runs_supported_image require_arango is_text is_one only_root
    checksum_or_stop arango_checksum require_current is_applied is_accepted has_conditions
    is_current_image one_member is_current_member has_pod
graph_running = refl

arango_readiness-IsRunning_example : IsRunning codec api deployment
arango_readiness-IsRunning_example =
    arango_readiness-IsRunning codec api deployment tt graph_running

graph_ready : (observe_arango codec api (some reader) "shop" graph).ready ≡ true
unfolding observe_arango conclude_checks require_arango require selects reader_or_stop read_or_stop
    decoded_or_stop arango_readiness runs_supported_image is_text is_one only_root checksum_or_stop
    arango_checksum require_current is_applied is_accepted has_conditions has_pod is_current_image
    is_current_member one_member is_supported_image unavailable is_operator_secret names_secret
    is_arango_publication is_arango_name is_name is_upper is_lower continues_name are_collections
graph_ready = refl

observe_arango-IsGraphPublished_example : IsGraphPublished codec api (some reader) "shop" graph
observe_arango-IsGraphPublished_example =
    observe_arango-IsGraphPublished codec api (some reader) "shop" graph graph_ready
