-- ===== src/Connector/Sample.antt =====
-- A cluster with one available Deployment, whose probe is bound to a URL.
use data_product_controller.Prelude.{String, pos, true, false, some, [], ◌∷◌}
use data_product_controller.Kube.{found}
use data_product_controller.Connector.{Workload, Cluster, Container, EnvVar}

abbrev pub target : String
target = "https://orders.example/contract"

abbrev pub variable : String → String → EnvVar
variable name value = record { name = name; value = value; from_source = false }

abbrev pub container : Container
container = record {
  name = "contract-probe";
  command = "/contract-probe" ∷ [];
  args = [];
  readiness_probe = some (record {
    http_get = some (record {
      path = "/readyz";
      host = "";
      headers = [];
      scheme = "";
      port = record { int_val = pos 8081; str_val = "" };
    });
  });
  ports = [];
  env = variable "CONTRACT_PROBE_URL" target ∷ variable "CONTRACT_READINESS_ENABLED" "true" ∷ [];
}

abbrev pub workload : Workload
workload = record {
  generation = pos 3;
  deleting = false;
  spec_replicas = some (pos 2);
  containers = container ∷ [];
  observed_generation = pos 3;
  replicas = pos 2;
  updated_replicas = pos 2;
  ready_replicas = pos 2;
  available_replicas = pos 2;
  unavailable_replicas = pos 0;
}

abbrev pub cluster : Cluster
cluster = record {
  reader = some (λ _. found workload);
  expired = false;
  is_dns_label = λ _. true;
  is_dns_subdomain = λ _. true;
}
