-- ===== src/Controller/Compatibility.antt =====
-- internal/controller/composition.go: references, outputs, contracts and readiness of a producer.
pub mod Laws
mod Tests
use data_product_controller.Prelude.{
  String, Bool, true, false, not, ◌&&◌, ◌||◌, Option, none, some, List, [], ◌∷◌, if◌then◌else◌,
  ◌==◌, string_eq, int_eq,
}
use data_product_controller.Kube.{ObjectKey, Condition, is_true, ConditionApi}
use data_product_controller.Api.{
  ProductReference, InputContract, InputPort, OutputPort, DataProduct, condition_ready,
}
use data_product_controller.Controller.Version.{Semver, compatible_version}

-- an omitted namespace is the product's own
abbrev pub resolved_reference : DataProduct → ProductReference → ProductReference
resolved_reference p ref =
    if ref.namespace == "" then record ref { namespace = p.namespace } else ref

-- the key of the producer that an input names
abbrev pub producer_key : DataProduct → InputPort → ObjectKey
producer_key p input =
    let ref = resolved_reference p input.product_ref in
    record { namespace = ref.namespace; name = ref.name }

unfoldable pub find_port : List OutputPort → String → Option OutputPort
find_port [] name = none
find_port (o ∷ rest) name = if o.name == name then some o else find_port rest name

unfoldable pub find_output : DataProduct → String → Option OutputPort
unfolding find_port
find_output p name = find_port p.spec.outputs name

module _ (semver : Semver) where
  -- an optional contract against the selected output
  contract_reason : Option InputContract → DataProduct → OutputPort → String
  contract_reason none producer output = ""
  contract_reason (some c) producer output =
      if not (output.protocol == c.protocol)
        || not (compatible_version semver producer.spec.version c.minimum_version)
      then "ContractIncompatible"
      else ""

  output_reason : Option InputContract → DataProduct → Option OutputPort → String
  output_reason contract producer none = "OutputNotFound"
  output_reason contract producer (some o) = contract_reason contract producer o

  unfoldable pub input_compatibility : InputPort → DataProduct → String
  unfolding contract_reason output_reason
  input_compatibility input producer =
      output_reason input.contract producer (find_output producer input.product_ref.output)

  -- DeclaredInputCompatibility
  unfoldable pub declared_input_compatibility : InputPort → DataProduct → String
  declared_input_compatibility = input_compatibility

ready_at : DataProduct → Option Condition → Bool
ready_at p none = false
ready_at p (some c) = is_true c.status && c.observed_generation == p.generation

module _ (conditions : ConditionApi) where
  -- stale success and products being deleted are not ready
  unfoldable pub producer_ready : DataProduct → Bool
  unfolding ready_at
  producer_ready p =
      not p.deleting && ready_at p (conditions.find p.status.conditions condition_ready)
