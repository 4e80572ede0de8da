-- ===== src/Provider/Percona/Tests.antt =====
-- A running replica set with one read-only user, and what the theorems say of it.
use data_product_controller.Provider.Hybrid.{refers}
use data_product_controller.Prelude.{pos, ◌≡◌, true, false, some, [], ◌∷◌, refl}
use data_product_controller.Api.{ProvisionedSource}
use data_product_controller.Provisioner.{string_of, holds, is_current}
use data_product_controller.Provider.{
  Secret, Reader, Resource, Node, conclude_checks, require, selects, reader_or_stop, read_or_stop,
  int_of, counts, unavailable,
}
use data_product_controller.Provider.Sample.{at, fields_of, node, reader_of, owner, source}
use data_product_controller.Provider.Percona.{
  observe_percona, is_application_password, reserved_names, is_percona_source, percona_readiness,
  not_paused, require_valid, is_false, one_replica, is_plain_replica, positive_size, require_ready,
  are_read_roles, every_role, invalid, is_application_name, is_auth_database, is_named,
  is_none_listed, is_percona_owner, is_read_only_user, is_read_role, one_match, percona_checks,
  tallied, users_match,
}
use data_product_controller.Provider.Percona.Published.{
  IsPerconaPublished, observe_percona-IsPerconaPublished,
}

abbrev analyst : Node
analyst = record {
  fields =
      fields_of
        ((("name" ∷ []), "analyst")
          ∷ (("db" ∷ []), "orders")
          ∷ (("passwordSecretRef" ∷ "name" ∷ []), "orders-analyst")
          ∷ [])
        [];
  slice_at = at (
      (
        ("roles" ∷ []),
        (some (fields_of ((("name" ∷ []), "read") ∷ (("db" ∷ []), "orders") ∷ []) []) ∷ []),
      )
      ∷ []);
}

abbrev replica_set : Resource
replica_set = record {
  name = "orders";
  uid = "u1";
  generation = pos 3;
  deleting = false;
  fields =
      fields_of
        ((("spec" ∷ "crVersion" ∷ []), "1.23.0") ∷ (("status" ∷ "state" ∷ []), "ready") ∷ [])
        ((("status" ∷ "observedGeneration" ∷ []), pos 3)
          ∷ (("status" ∷ "size" ∷ []), pos 3)
          ∷ (("status" ∷ "ready" ∷ []), pos 3)
          ∷ []);
  slice_at = at (
      (
        ("spec" ∷ "replsets" ∷ []),
        (some (node ((("name" ∷ []), "rs0") ∷ []) ((("size" ∷ []), pos 3) ∷ [])) ∷ []),
      )
      ∷ (("spec" ∷ "users" ∷ []), (some analyst ∷ []))
      ∷ []);
}

abbrev password : Secret
password = record {
  deleting = false;
  owners = owner "psmdb.percona.com/v1" "PerconaServerMongoDB" ∷ [];
  annotations = λ _. "";
}

abbrev document : ProvisionedSource
document =
    source "percona-mongodb/v1" "document" "native" "psmdb.percona.com/v1" "PerconaServerMongoDB"
      "orders-analyst"

abbrev reader : Reader
reader = reader_of replica_set password

document_ready : (observe_percona (some reader) "shop" document).ready ≡ true
unfolding observe_percona conclude_checks require is_percona_source selects reader_or_stop
    read_or_stop percona_readiness holds not_paused require_valid is_false one_replica
    is_plain_replica positive_size int_of require_ready is_current refers are_read_roles every_role
    invalid is_application_name is_application_password is_auth_database is_named is_none_listed
    is_percona_owner is_read_only_user is_read_role one_match percona_checks reserved_names tallied
    users_match counts unavailable string_of
document_ready = refl

observe_percona-IsPerconaPublished_example : IsPerconaPublished (some reader) "shop" document
observe_percona-IsPerconaPublished_example =
    observe_percona-IsPerconaPublished (some reader) "shop" document document_ready
