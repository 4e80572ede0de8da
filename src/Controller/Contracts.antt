-- ===== src/Controller/Contracts.antt =====
-- internal/controller/contracts.go: the declared contract checks and the ContractsReady condition.
-- A cluster is given for each check in turn; the shared limit of five seconds is in its `expired`.
pub mod Laws
mod Tests
use data_product_controller.Prelude.{
  ℕ, suc, ◌+◌, String, Bool, true, false, not, Option, none, some, List, [], ◌∷◌, if◌then◌else◌,
  leb, length, any, is_empty, ◌==◌, string_eq,
}
use data_product_controller.Kube.{text, format, Condition, ConditionApi}
use data_product_controller.Api.{OutputPort, ContractCheck, DataProduct, condition_contracts_ready}
use data_product_controller.Connector.{Observation, Cluster, observe_contract}
use data_product_controller.Controller.Compatibility.{find_output}
use data_product_controller.Controller.Composition.{enabled}
use data_product_controller.Controller.Reports.{Report, report_condition}

abbrev pub max_checks : ℕ
max_checks = 8

abbrev invalid_checks : String → Report
invalid_checks message = record {
  ready = false;
  reason = "ContractChecksInvalid";
  message = text message;
}

abbrev no_contract_output : Report
no_contract_output = record {
  ready = false;
  reason = "ContractOutputNotFound";
  message = text "Select an existing output with a contract URL.";
}

abbrev all_checked : Report
all_checked = record {
  ready = true;
  reason = "ContractsReady";
  message = text "All selected contract probes match the current URLs and are available.";
}

abbrev contract_feature_disabled : Report
contract_feature_disabled = record {
  ready = false;
  reason = "ContractFeatureDisabled";
  message = text "Enable contract-readiness to observe the selected contract probes.";
}

-- the contract URL of the first output of the name, or nothing
pub contract_target : Option OutputPort → String
contract_target none = ""
contract_target (some o) = o.contract_url

-- a probe that is not ready ends the loop
pub checked_probe : ContractCheck → Observation → Report → Report
checked_probe check o later =
    if not o.ready
    then record {
      ready = false;
      reason = o.reason;
      message = format "Output %q: %s" (check.output ∷ o.message ∷ []);
    }
    else later

-- the loop of `checkContracts`; `seen` is its map
pub check_each : (ℕ → Cluster) → DataProduct → ℕ → List String → List ContractCheck → Report
unfolding contract_target checked_probe
check_each k p n seen [] = all_checked
check_each k p n seen (check ∷ rest) =
    let later = check_each k p (n + 1) (check.output ∷ seen) rest in
    let target = contract_target (find_output p check.output) in
    if any (λ s. s == check.output) seen
    then invalid_checks "Select each output only once for contract checks."
    else if target == ""
    then no_contract_output
    else checked_probe check (observe_contract (k n) p.namespace check.resource_ref target) later

unfoldable pub check_contracts : (ℕ → Cluster) → DataProduct → Report
unfolding check_each
check_contracts k p =
    if not (leb (length p.spec.contract_checks) max_checks)
    then invalid_checks "Select at most eight distinct outputs for contract checks."
    else check_each k p 0 [] p.spec.contract_checks

pub contracts_report : (ℕ → Cluster) → Option Bool → DataProduct → Report
contracts_report k gate p = if enabled gate then check_contracts k p else contract_feature_disabled

-- `observeContracts`: the conditions that it leaves
unfoldable pub observe_contracts :
    ConditionApi → (ℕ → Cluster) → Option Bool → DataProduct → List Condition
unfolding contracts_report
observe_contracts api k gate p =
    if is_empty p.spec.contract_checks
    then api.remove p.status.conditions condition_contracts_ready
    else api.set p.status.conditions
        (report_condition condition_contracts_ready p (contracts_report k gate p))
