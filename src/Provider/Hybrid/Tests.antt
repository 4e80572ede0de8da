-- ===== src/Provider/Hybrid/Tests.antt =====
-- A settled Cluster with a published graph capability, and what the theorems say of it.
use data_product_controller.Provider.Names.{decimal, has_prefix, is_digit, is_lower, is_name}
use data_product_controller.Provider.Cnpg.{cnpg_ready}
use data_product_controller.Prelude.{
  String, ◌≡◌, true, false, some, List, [], ◌∷◌, refl, if◌then◌else◌, ◌==◌, string_eq,
}
use data_product_controller.Api.{ProvisionedSource}
use data_product_controller.Provisioner.{absent, string_of, is_current, holds}
use data_product_controller.Provider.{
  Secret, Reader, Resource, conclude_checks, require, selects, reader_or_stop, read_or_stop,
  is_omitted, int_of, counts, unavailable,
}
use data_product_controller.Provider.Sample.{at, reader_of, owner, source, cluster}
use data_product_controller.Provider.Hybrid.{
  age_image, observe_hybrid, is_hybrid_source, is_dedicated, has_profile, is_current_owner,
  is_publication, hybrid_checks, is_application_user, is_identifier, is_reader_secret,
  names_generation, preloads_age, profile_of, refers, reports, supports,
}
use data_product_controller.Provider.Hybrid.Published.{
  IsHybridPublished, observe_hybrid-IsHybridPublished,
}

abbrev annotated : List (String × String) → String → String
annotated [] field = ""
annotated ((key, text) ∷ rest) field =
    let later = annotated rest field in if key == field then text else later

abbrev published : Secret
published = record {
  deleting = false;
  owners = owner "postgresql.cnpg.io/v1" "Cluster" ∷ [];
  annotations = annotated (
      ("data.devantler.tech/cnpg-hybrid-publication", "v1")
      ∷ ("data.devantler.tech/cnpg-hybrid-access", "read-only")
      ∷ ("data.devantler.tech/cnpg-hybrid-source-generation", "3")
      ∷ ("data.devantler.tech/cnpg-hybrid-database", "orders")
      ∷ ("data.devantler.tech/cnpg-hybrid-user", "reader_1")
      ∷ ("data.devantler.tech/cnpg-hybrid-capability", "age/1.7.0")
      ∷ ("data.devantler.tech/cnpg-hybrid-graph", "sales")
      ∷ []);
}

abbrev with_age : Resource
with_age =
    let r = cluster age_image in
    record {
      name = r.name;
      uid = r.uid;
      generation = r.generation;
      deleting = false;
      fields = record {
        string_at = r.fields.string_at;
        int_at = r.fields.int_at;
        bool_at = λ _. absent;
        strings_at =
            at ((("spec" ∷ "postgresql" ∷ "shared_preload_libraries" ∷ []), ("age" ∷ [])) ∷ []);
        field_at = λ _. absent;
      };
      slice_at = r.slice_at;
    }

abbrev graph : ProvisionedSource
graph =
    source "cnpg-hybrid/v1" "graph" "cnpg-hybrid" "postgresql.cnpg.io/v1" "Cluster" "orders-reader"

abbrev reader : Reader
reader = reader_of with_age published

graph_ready : (observe_hybrid (some reader) "shop" graph).ready ≡ true
unfolding observe_hybrid conclude_checks require is_hybrid_source selects reader_or_stop
    read_or_stop is_dedicated has_profile is_omitted string_of cnpg_ready is_current holds int_of
    counts is_current_owner is_publication hybrid_checks is_application_user is_identifier
    is_reader_secret names_generation preloads_age profile_of refers reports supports decimal
    has_prefix is_digit is_lower is_name unavailable
graph_ready = refl

observe_hybrid-IsHybridPublished_example : IsHybridPublished (some reader) "shop" graph
observe_hybrid-IsHybridPublished_example =
    observe_hybrid-IsHybridPublished (some reader) "shop" graph graph_ready
