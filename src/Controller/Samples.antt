-- ===== src/Controller/Samples.antt =====
-- Two products and a cluster that holds them: `reports` takes the output of `orders`.
use data_product_controller.Prelude.{
  ℕ, String, pos, ◌≡◌, false, none, some, List, [], ◌∷◌, if◌then◌else◌, ◌==◌, string_eq, Bool-cases,
  inl, inr, sym, ap, ◌∙◌,
}
use data_product_controller.Kube.{
  ObjectKey, key_eq, key_beq_iff, text, not_found, Fetch, found, failed, condition_true, Condition,
}
use data_product_controller.Kube.Sample.{sample_conditions}
use data_product_controller.Api.{
  ProductOwner, InputPort, OutputPort, DataProduct, ContractCheck, Connector,
  ConnectorResourceReference, object_key,
}
use data_product_controller.Controller.Version.Sample.{sample_semver}
use data_product_controller.Controller.World.{World}

abbrev pub team : ProductOwner
team = record { name = "team"; url = "https://team.example" }

abbrev pub api_output : OutputPort
api_output = record {
  name = "api";
  protocol = "http";
  url = "https://orders.example/api";
  contract_url = "https://orders.example/contract";
  media_type = "application/json";
}

abbrev pub ready_condition : Condition
ready_condition = record {
  kind = "Ready";
  status = condition_true;
  observed_generation = pos 1;
  last_transition_time = some 7;
  reason = "DependenciesReady";
  message = text "ready";
}

abbrev pub reference : ConnectorResourceReference
reference = record { api_version = "apps/v1"; kind = "Deployment"; name = "probe"; namespace = "" }

abbrev pub deployment_connector : Connector
deployment_connector = record { adapter = "deployment/v1"; resource_ref = reference }

abbrev pub api_check : ContractCheck
api_check = record { output = "api"; resource_ref = reference }

abbrev pub orders_input : InputPort
orders_input = record {
  name = "orders";
  product_ref = record { name = "orders"; namespace = ""; output = "api" };
  contract = some (record { minimum_version = "v1.1.0"; protocol = "http" });
}

abbrev pub product : String → List InputPort → List ContractCheck → List Condition → DataProduct
product name inputs checks conditions = record {
  namespace = "shop";
  name = name;
  generation = pos 1;
  deleting = false;
  spec = record {
    id = name;
    name = name;
    description = "";
    version = "v1.2.0";
    owner = team;
    documentation_url = "";
    inputs = inputs;
    outputs = api_output ∷ [];
    ui = none;
    source = none;
    connector = none;
    contract_checks = checks;
  };
  status = record { observed_generation = pos 1; conditions = conditions; inputs = [] };
}

abbrev pub orders : DataProduct
orders = product "orders" [] [] (ready_condition ∷ [])

abbrev pub reports : DataProduct
reports = product "reports" (orders_input ∷ []) [] []

abbrev pub orders_key : ObjectKey
orders_key = record { namespace = "shop"; name = "orders" }

unfoldable pub get : ℕ → ObjectKey → Fetch DataProduct
get n k = if orders_key == k then found orders else failed not_found

abbrev answer : Fetch DataProduct → DataProduct
answer (found p) = p
answer (failed _) = orders

pub get-key : (n : ℕ) (k : ObjectKey) (p : DataProduct) → get n k ≡ found p → object_key p ≡ k
unfolding get
get-key n k p h = elim (Bool-cases (orders_key == k)) [
  | inl same ↦
      ap (λ (f : Fetch DataProduct). object_key (answer f)) (sym (rw same at h))
      ∙ (key_beq_iff orders_key k).0 same
  | inr other ↦ absurd (clash (rw other at h))
]
  where
    clash : failed not_found ≡ found p → ⊥
    clash e = cc

unfoldable pub world : World
unfolding get
world = record {
  semver = sample_semver;
  conditions = sample_conditions;
  ctx_err = λ _. none;
  get = get;
  get_key = get-key;
  encoded_length = λ _. some 100;
}
