-- ===== src/Controller/Contracts/Laws.antt =====
-- internal/controller/contracts.go: the checks behind a ready report.
use data_product_controller.Prelude.{
  ℕ, ◌+◌, ◌≤◌, String, ◌≡◌, ◌≢◌, Bool, true, false, Option, none, some, List, [], ◌∷◌, leb, length,
  any, is_empty, ◌==◌, string_eq, arith, eq_iff, All, All-mono, Bool-cases, inl, inr, refl,
}
use data_product_controller.Kube.{ConditionApi}
use data_product_controller.Api.{OutputPort, ContractCheck, DataProduct, condition_contracts_ready}
use data_product_controller.Connector.{Observation, Cluster}
use data_product_controller.Connector.Probe.{IsContractObserved, observe_contract-ready}
use data_product_controller.Controller.Compatibility.{find_output}
use data_product_controller.Controller.Composition.{enabled}
use data_product_controller.Controller.Reports.{Report}
use data_product_controller.Controller.Contracts.{
  contract_target, checked_probe, check_each, check_contracts, contracts_report, observe_contracts,
  max_checks,
}

-- a check whose output is declared and whose probe was observed ready for the output's URL
pub record IsChecked (k : ℕ → Cluster) (p : DataProduct) (check : ContractCheck) : Type 0 where
  pub output : OutputPort
  pub declared : find_output p check.output ≡ some output
  pub moment : ℕ
  pub observed : IsContractObserved (k moment) p.namespace check.resource_ref output.contract_url

-- no two checks select the same output
abbrev pub Distinct : List ContractCheck → Type 0
Distinct [] = Unit
Distinct (c ∷ rest) = All (λ (d : ContractCheck). c.output ≢ d.output) rest × Distinct rest

abbrev Unseen : List String → ContractCheck → Type 0
Unseen seen c = any (λ s. s == c.output) seen ≡ false

Unseen-head :
    (s : String) (seen : List String) (c : ContractCheck)
    → Unseen (s ∷ seen) c
    → (s ≢ c.output) × Unseen seen c
Unseen-head s seen c h = (λ e. ground (arith, eq_iff s c.output), ground arith)

-- what is known of a target that is not empty
declared_output :
    (k : Cluster) (p : DataProduct) (check : ContractCheck) (r : Option OutputPort)
    → contract_target r ≢ ""
    → IsContractObserved k p.namespace check.resource_ref (contract_target r)
    → (o : OutputPort) × (r ≡ some o)
      × IsContractObserved k p.namespace check.resource_ref o.contract_url
unfolding contract_target
declared_output k p check none n h = absurd (n refl)
declared_output k p check (some o) n h = (o, refl, h)

checked_probe-ready :
    (check : ContractCheck) (o : Observation) (later : Report)
    → (checked_probe check o later).ready ≡ true
    → (o.ready ≡ true) × (later.ready ≡ true)
unfolding checked_probe
checked_probe-ready check o later h = elim (Bool-cases o.ready) [
  | inl up ↦ (up, rw up at h)
  | inr down ↦ absurd (clash (rw down at h))
]
  where
    clash : ◌≢◌ {A = Bool} false true
    clash x = cc

check_each-ready :
    (k : ℕ → Cluster) (p : DataProduct) (n : ℕ) (seen : List String) (checks : List ContractCheck)
    → (check_each k p n seen checks).ready ≡ true
    → All (IsChecked k p) checks × Distinct checks × All (Unseen seen) checks
unfolding check_each
check_each-ready k p n seen [] h = (tt, tt, tt)
check_each-ready k p n seen (c ∷ rest) h = elim (Bool-cases (any (λ s. s == c.output) seen)) [
  | inl again ↦ absurd (clash (rw again at h))
  | inr fresh ↦ elim (Bool-cases (contract_target (find_output p c.output) == "")) [
    | inl blank ↦ absurd (clash (rw (fresh, blank) at h))
    | inr named ↦
        let (up, later) = checked_probe-ready c _ _ (rw (fresh, named) at h) in
        let (o, declared, observed) =
          declared_output (k n) p c (find_output p c.output) (nonempty named)
            (observe_contract-ready (k n) p.namespace c.resource_ref _ up) in
        let (checked, distinct, unseen) =
          check_each-ready k p (n + 1) (c.output ∷ seen) rest later in
        (
          (record { output = o; declared = declared; moment = n; observed = observed }, checked),
          (All-mono (λ d u. (Unseen-head c.output seen d u).0) rest unseen, distinct),
          (fresh, All-mono (λ d u. (Unseen-head c.output seen d u).1) rest unseen),
        )
  ]
]
  where
    clash : ◌≢◌ {A = Bool} false true
    clash x = cc

    nonempty :
        (contract_target (find_output p c.output) == "") ≡ false
        → contract_target (find_output p c.output) ≢ ""
    nonempty x e = ground (arith, eq_iff (contract_target (find_output p c.output)) "")

-- what a ready report of the contract checks shows
pub record AreChecked (k : ℕ → Cluster) (p : DataProduct) : Type 0 where
  pub few : length p.spec.contract_checks ≤ max_checks
  pub distinct : Distinct p.spec.contract_checks
  pub checked : All (IsChecked k p) p.spec.contract_checks

-- If the contract checks are reported ready, there are at most eight, they select distinct
-- outputs, and each of them selects a declared output whose contract URL is held by a ready probe.
pub check_contracts-ready :
    (k : ℕ → Cluster) (p : DataProduct) → (check_contracts k p).ready ≡ true → AreChecked k p
unfolding check_contracts
check_contracts-ready k p h = elim (Bool-cases (leb (length p.spec.contract_checks) max_checks)) [
  | inr many ↦ absurd (clash (rw many at h))
  | inl few ↦
      let (checked, distinct, _) = check_each-ready k p 0 [] p.spec.contract_checks (rw few at h) in
      record { few = ground arith; distinct = distinct; checked = checked }
]
  where
    clash : ◌≢◌ {A = Bool} false true
    clash x = cc

-- the checks leave the other conditions alone
pub observe_contracts-other :
    (api : ConditionApi) (k : ℕ → Cluster) (gate : Option Bool) (p : DataProduct) (kind : String)
    → kind ≢ condition_contracts_ready
    → api.find (observe_contracts api k gate p) kind ≡ api.find p.status.conditions kind
unfolding observe_contracts
observe_contracts-other api k gate p kind n = elim (Bool-cases (is_empty p.spec.contract_checks)) [
  | inl nothing ↦
      rw nothing (api.find-remove_ne p.status.conditions condition_contracts_ready kind n)
  | inr checks ↦ rw checks (api.find-set_ne p.status.conditions _ kind n)
]

pub contracts_report-ready :
    (k : ℕ → Cluster) (gate : Option Bool) (p : DataProduct)
    → (contracts_report k gate p).ready ≡ true
    → (enabled gate ≡ true) × AreChecked k p
unfolding contracts_report
contracts_report-ready k gate p h = elim (Bool-cases (enabled gate)) [
  | inl on ↦ (on, check_contracts-ready k p (rw on at h))
  | inr off ↦ absurd (clash (rw off at h))
]
  where
    clash : ◌≢◌ {A = Bool} false true
    clash x = cc
