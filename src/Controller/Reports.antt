-- ===== src/Controller/Reports.antt =====
-- internal/controller: what the observers report (the `Observation` types of
-- internal/connector/v1 and internal/provisioner/v1), and the condition that a report gives.
use data_product_controller.Prelude.{
  String, Bool, true, none, some, List, if◌then◌else◌, ◌≡◌, Bool-cases, inl, inr, ap, ◌∙◌, some_inj,
  sym,
}
use data_product_controller.Kube.{
  Message, text, condition_true, condition_false, Condition, ConditionApi,
}
use data_product_controller.Api.{DataProduct}
use data_product_controller.Connector.{Observation}

pub record Report : Type 0 where
  pub ready : Bool
  pub reason : String
  pub message : Message

abbrev pub report : Observation → Report
report o = record { ready = o.ready; reason = o.reason; message = text o.message }

-- the condition of a kind that a report gives
abbrev pub report_condition : String → DataProduct → Report → Condition
report_condition kind p r = record {
  kind = kind;
  status = if r.ready then condition_true else condition_false;
  observed_generation = p.generation;
  last_transition_time = none;
  reason = r.reason;
  message = r.message;
}

status-true :
    (r : Report)
    → (if r.ready then condition_true else condition_false) ≡ condition_true
    → r.ready ≡ true
status-true r h = elim (Bool-cases r.ready) [
  | inl up ↦ up
  | inr down ↦ absurd (clash (rw down at h))
]
  where
    clash : condition_false ≡ condition_true → ⊥
    clash x = cc

-- a report's condition that is found true comes from a ready report
pub found_ready :
    (api : ConditionApi) (cs : List Condition) (kind : String) (p : DataProduct) (r : Report)
    (c : Condition)
    → api.find (api.set cs (report_condition kind p r)) kind ≡ some c
    → c.status ≡ condition_true
    → r.ready ≡ true
found_ready api cs kind p r c h up =
    let (t, e) = api.find-set_self cs (report_condition kind p r) in
    status-true r (ap (λ (x : Condition). x.status) (some_inj (sym e ∙ h)) ∙ up)
