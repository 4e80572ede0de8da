-- ===== src/Provisioner/Sample.antt =====
-- A cluster with one claimed database and its connection Secret.
use data_product_controller.Prelude.{pos, true, false, none, some, [], ◌∷◌}
use data_product_controller.Kube.{found}
use data_product_controller.Api.{ProvisionedSource}
use data_product_controller.Provisioner.{present, absent, Resource, Secret, Crossplane}

abbrev pub database : Resource
database = record {
  uid = "u1";
  name = "orders";
  kind = "Database";
  generation = pos 4;
  deleting = false;
  observed_generation = present (pos 4);
  conditions = present (
      some
        (record { kind = present "Synced"; status = present "True"; observed_generation = absent })
      ∷ some (record {
        kind = present "Ready";
        status = present "True";
        observed_generation = present (pos 4);
      })
      ∷ []);
  connection_name = present "orders-connection";
  connection_namespace = absent;
}

abbrev pub connection : Secret
connection = record {
  deleting = false;
  owners =
      record { api_version = "example.org/v1"; kind = "Database"; name = "orders"; uid = "u1" }
      ∷ [];
}

abbrev pub crossplane : Crossplane
crossplane = record {
  reader =
      some (record { get_resource = λ _ _ _. found database; get_secret = λ _. found connection });
  mapper = some (λ _ _. some true);
  parse_group_version = λ _. some (record { group = "example.org"; version = "v1" });
}

abbrev pub claimed : ProvisionedSource
claimed = record {
  adapter = "crossplane/v1";
  engine = none;
  resource_ref = record { api_version = "example.org/v1"; kind = "Database"; name = "orders" };
  connection_secret_ref = record { name = "orders-connection" };
}
